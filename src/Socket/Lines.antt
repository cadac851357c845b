-- ===== src/Socket/Lines.antt =====
-- The line that `readline` is to take, from the bytes to come.
use mini_ftpd.Prelude.{
  ℕ, zero, suc, ◌+◌, ◌-◌, ◌≤◌, ◌<◌, ◌≡◌, refl, ap, Bool, true, false, none, some, [], ◌∷◌, ◌++◌,
  take, length, arith, ◌==◌, Bool-cases, inl, inr,
}
use mini_ftpd.Text.Bytes.{Bytes}
use mini_ftpd.Socket.Transfer.{newline_at}

-- The text up to its first newline, that one included, or up to `n` bytes.
unfoldable pub first_line : ℕ → Bytes → Bytes
first_line zero s = []
first_line (suc n) [] = []
first_line (suc n) (c ∷ s) = elim (c == 10) [ true ↦ c ∷ [] | false ↦ c ∷ first_line n s ]

-- Whether a newline, or the `n`-th byte, is there at all.
unfoldable pub has_line : ℕ → Bytes → Bool
has_line zero s = true
has_line (suc n) [] = false
has_line (suc n) (c ∷ s) = elim (c == 10) [ true ↦ true | false ↦ has_line n s ]

-- Whether a newline is among the first `n` bytes.
unfoldable pub ends_line : ℕ → Bytes → Bool
ends_line zero s = false
ends_line (suc n) [] = false
ends_line (suc n) (c ∷ s) = elim (c == 10) [ true ↦ true | false ↦ ends_line n s ]

-- A newline in the bytes at hand ends the line.
pub first_line-newline :
    (n : ℕ) (bs later : Bytes) (j m : ℕ)
    → newline_at bs j ≡ some m
    → length bs ≤ n
    → (first_line n (bs ++ later) ≡ take (m - j + 1) (bs ++ later))
      × (has_line n (bs ++ later) ≡ true)
      × (ends_line n (bs ++ later) ≡ true)
      × (j ≤ m)
      × (m - j < length bs)
unfolding newline_at first_line has_line ends_line
first_line-newline n [] later j m e h = cc e
first_line-newline zero (c ∷ bs) later j m e h = absurd (omega arith)
first_line-newline (suc n) (c ∷ bs) later j m e h = elim (Bool-cases (c == 10)) [
  | inl at_newline ↦
      let same : j ≡ m = cc (rw (at_newline, newline_at) at e) in
      let one : m - j + 1 ≡ suc 0 = omega arith in
      rw one (
        rw (at_newline, first_line, has_line, ends_line)
          (refl, refl, refl, omega arith, omega arith))
  | inr other ↦
      let (line, whole, stops, behind, inside) =
        first_line-newline n bs later (j + 1) m (rw (other, newline_at) at e) (omega arith) in
      let more : m - j + 1 ≡ suc (m - (j + 1) + 1) = omega arith in
      rw more (
        rw (other, first_line, has_line, ends_line)
          (ap (◌∷◌ c) line, whole, stops, omega arith, omega arith))
]

-- Bytes with no newline are the beginning of the line.
pub first_line-none :
    (n : ℕ) (bs later : Bytes) (j : ℕ)
    → newline_at bs j ≡ none
    → length bs ≤ n
    → (first_line n (bs ++ later) ≡ bs ++ first_line (n - length bs) later)
      × (has_line n (bs ++ later) ≡ has_line (n - length bs) later)
      × (ends_line n (bs ++ later) ≡ ends_line (n - length bs) later)
unfolding newline_at first_line has_line ends_line
first_line-none n [] later j e h = let z : n - 0 ≡ n = omega arith in rw z (refl, refl, refl)
first_line-none zero (c ∷ bs) later j e h = absurd (omega arith)
first_line-none (suc n) (c ∷ bs) later j e h = elim (Bool-cases (c == 10)) [
  | inl at_newline ↦ cc (rw (at_newline, newline_at) at e)
  | inr other ↦
      let (line, whole, stops) =
        first_line-none n bs later (j + 1) (rw (other, newline_at) at e) (omega arith) in
      let z : suc n - suc (length bs) ≡ n - length bs = omega arith in
      rw z (rw (other, first_line, has_line, ends_line) (ap (◌∷◌ c) line, whole, stops))
]

pub has_line-nil : (n : ℕ) → 0 < n → has_line n [] ≡ false
unfolding has_line
has_line-nil zero h = elim h [ ]
has_line-nil (suc n) h = refl
