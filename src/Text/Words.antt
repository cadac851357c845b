-- ===== src/Text/Words.antt =====
-- `>>` into a string, and words between white space.
use mathlib.Core.List.{append-nil}
use mini_ftpd.Prelude.{ℕ, ap, ◌≡◌, refl, true, false, not, [], ◌∷◌, ◌++◌, arith, ◌==◌, All}
use mini_ftpd.Text.Bytes.{Bytes, is_space, c_string}
use mini_ftpd.Text.Stream.{open_stream, skip_space, is_empty, sentry, read_word}
use mini_ftpd.Text.Decimal.{Stops, span-append}

abbrev pub AllSpace : Bytes → Type 0
AllSpace = All (λ c. is_space c ≡ true)

abbrev pub NoSpace : Bytes → Type 0
NoSpace = All (λ c. is_space c ≡ false)

skip_space-append : (gap rest : Bytes) → AllSpace gap → skip_space (gap ++ rest) ≡ skip_space rest
unfolding skip_space
skip_space-append [] rest h = refl
skip_space-append (c ∷ gap) rest h = rw (h.0, skip_space) (skip_space-append gap rest h.1)

sentry-blank :
    (gap : Bytes)
    → AllSpace gap
    → sentry (open_stream gap) ≡ (false, record { rest = []; eof = true; fail = true })
sentry-blank gap h =
    unfold sentry in
    rw (← append-nil gap) (rw (skip_space-append gap [] h) (unfold skip_space in refl))

-- On a text with no word left the old value stays, and the stream has failed.
pub read_word-blank :
    (old gap : Bytes)
    → AllSpace gap
    → read_word old (open_stream gap) ≡ (old, record { rest = []; eof = true; fail = true })
read_word-blank old gap h = unfold read_word in rw (sentry-blank gap h) refl

NoSpace-not : (w : Bytes) → NoSpace w → All (λ c. not (is_space c) ≡ true) w
NoSpace-not [] h = tt
NoSpace-not (c ∷ w) h = (ground (arith, h.0), NoSpace-not w h.1)

-- Otherwise the word is taken whole, and what ends it stays.
pub read_word-append :
    (old gap : Bytes) (c : ℕ) (w rest : Bytes)
    → AllSpace gap
    → NoSpace (c ∷ w)
    → Stops (λ x. not (is_space x)) rest
    → read_word old (open_stream (gap ++ (c ∷ w ++ rest)))
      ≡ (c ∷ w, record { rest = rest; eof = is_empty rest; fail = false })
read_word-append old gap c w rest g h s =
    let skipped : skip_space (c ∷ w ++ rest) ≡ c ∷ w ++ rest =
      unfold skip_space in rw (h.0, skip_space) in
    let spanned = span-append (λ x. not (is_space x)) (c ∷ w) rest (NoSpace-not (c ∷ w) h) s in
    unfold read_word in rw (skip_space-append gap (c ∷ w ++ rest) g) (rw skipped (rw spanned refl))

pub c_string-no_zero : (s : Bytes) → All (λ c. (c == 0) ≡ false) s → c_string s ≡ s
unfolding c_string
c_string-no_zero [] h = refl
c_string-no_zero (c ∷ s) h = rw (h.0, c_string) (ap (◌∷◌ c) (c_string-no_zero s h.1))
