-- ===== src/Session/Split/Words.antt =====
-- The words of a string, and searches from a position in it.
use Prim.Native.Nat.add
use native.Mathlib.Nat.{add-zero}
use mini_ftpd.Prelude.{
  ℕ, zero, suc, ◌+◌, ◌≡◌, ◌≢◌, refl, ap, ◌∙◌, Bool, true, false, not, List, [], ◌∷◌, ◌++◌, drop,
  length, drop-length-append, arith, All, Bool-cases, inl, inr,
}
use mini_ftpd.Text.Bytes.{Bytes}
use mini_ftpd.Text.Decimal.{Stops}
use mini_ftpd.Session.Split.Defs.{find_in}

-- `ts` are the words of `s`: delimiters alone, or delimiters, one word that goes as far as it can,
-- and the words of what follows it.
pub data Splits (p : ℕ → Bool) : Bytes → List Bytes → Type 0 where
  done : {s : Bytes} → All (λ c. p c ≡ true) s → Splits p s []
  token :
      {s : Bytes} {ts : List Bytes} (gap word rest : Bytes)
      → s ≡ gap ++ (word ++ rest)
      → All (λ c. p c ≡ true) gap
      → word ≢ []
      → All (λ c. p c ≡ false) word
      → Stops (λ c. not (p c)) rest
      → Splits p rest ts
      → Splits p s (word ∷ ts)

pub drop-drop : (n : ℕ) (s a b : Bytes) → drop n s ≡ a ++ b → drop (n + length a) s ≡ b
drop-drop zero s a b e = rw add.zero (rw e (drop-length-append a b))
drop-drop (suc n) [] [] b e = rw add.suc e
drop-drop (suc n) [] (x ∷ a) b e = cc e
drop-drop (suc n) (c ∷ s) a b e = rw add.suc (drop-drop n s a b e)

-- A text up to the first byte that passes.
pub record Scan (p : ℕ → Bool) (s : Bytes) : Type 0 where
  pub before : Bytes
  pub after : Bytes
  pub splits : s ≡ before ++ after
  pub refused : All (λ c. p c ≡ false) before
  pub stops : Stops (λ c. not (p c)) after

pub scan : (p : ℕ → Bool) (s : Bytes) → Scan p s
scan p [] = record { before = []; after = []; splits = refl; refused = tt; stops = tt }
scan p (c ∷ s) = elim (Bool-cases (p c)) [
  | inl hit ↦ record {
    before = [];
    after = c ∷ s;
    splits = refl;
    refused = tt;
    stops = rw hit refl;
  }
  | inr miss ↦
      let r = scan p s in
      record {
        before = c ∷ r.before;
        after = r.after;
        splits = ap (◌∷◌ c) r.splits;
        refused = (miss, r.refused);
        stops = r.stops;
      }
]

pub find_in-append :
    (p : ℕ → Bool) (i : ℕ) (a b : Bytes)
    → All (λ c. p c ≡ false) a
    → find_in p i (a ++ b) ≡ find_in p (i + length a) b
unfolding find_in
find_in-append p i [] b h = rw add-zero refl
find_in-append p i (x ∷ a) b h =
    let e : i + 1 + length a ≡ i + suc (length a) = omega arith in
    rw (h.0, find_in) (find_in-append p (i + 1) a b h.1 ∙ rw e refl)

pub All-not : (p : ℕ → Bool) (a : Bytes) → All (λ c. not (p c) ≡ false) a → All (λ c. p c ≡ true) a
All-not p [] h = tt
All-not p (x ∷ a) h = (ground arith, All-not p a h.1)
