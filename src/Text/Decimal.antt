-- ===== src/Text/Decimal.antt =====
-- `%u` of `printf`, and `>>` on what it prints.
use mathlib.Core.List.{append-nil}
use native.Mathlib.Numerals.{add-one}
use mini_ftpd.Prelude.{
  ℕ, zero, suc, ◌+◌, ◌-◌, ◌*◌, ◌/◌, ◌%◌, ◌≤◌, ◌<◌, ◌≡◌, ◌≢◌, refl, ◌∙◌, Bool, true, false, [], ◌∷◌,
  ◌++◌, arith, ltb, if◌then◌else◌, All, length, length-append, Bool-cases, inl, inr,
}
use mini_ftpd.Text.Bytes.{Bytes, is_digit}
use mini_ftpd.Text.Stream.{
  open_stream, span, value_from, take_sign, u32_mod, is_empty, skip_space, extract_unsigned,
  read_unsigned,
}

-- The last digit stands alone below ten.
print_fuel : ℕ → ℕ → Bytes
print_fuel zero n = []
print_fuel (suc f) n =
    let front = print_fuel f (n / 10) in
    if ltb n 10 then (48 + n) ∷ [] else front ++ (48 + n % 10) ∷ []

-- `n + 1` rounds are enough, since each divides by ten.
unfoldable pub print_u : ℕ → Bytes
unfolding print_fuel
print_u n = print_fuel (n + 1) n

abbrev pub pow10 : ℕ → ℕ
pow10 zero = 1
pow10 (suc k) = 10 * pow10 k

length-print_fuel : (f k n : ℕ) → 0 < k → n < pow10 k → length (print_fuel f n) ≤ k
unfolding print_fuel
length-print_fuel zero k n some_left h = omega arith
length-print_fuel (suc f) zero n some_left h = elim some_left [ ]
length-print_fuel (suc f) (suc zero) n some_left h =
    let small : ltb n 10 ≡ true = ground arith in rw small (omega arith)
length-print_fuel (suc f) (suc (suc k)) n some_left h = elim (Bool-cases (ltb n 10)) [
  | inl small ↦ rw small (omega arith)
  | inr big ↦ rw big (
      omega (
        arith,
        length-append (print_fuel f (n / 10)) ((48 + n % 10) ∷ []),
        length-print_fuel f (suc k) (n / 10) (omega arith) (omega arith),
      ))
]

-- A number below `10 ^ k` has no more than `k` digits.
pub length-print_u : (k n : ℕ) → 0 < k → n < pow10 k → length (print_u n) ≤ k
unfolding print_u
length-print_u k n some_left h = length-print_fuel (n + 1) k n some_left h

-- A text that does not go on with a byte that `p` takes.
abbrev pub Stops : (ℕ → Bool) → Bytes → Type 0
Stops p [] = Unit
Stops p (c ∷ _) = p c ≡ false

pub span-append :
    (p : ℕ → Bool) (ds rest : Bytes)
    → All (λ c. p c ≡ true) ds
    → Stops p rest
    → span p (ds ++ rest) ≡ (ds, rest)
unfolding span
span-append p [] [] h s = refl
span-append p [] (c ∷ cs) h s = rw (s, span)
span-append p (d ∷ ds) rest h s = rw (h.0, span) (rw (span-append p ds rest h.1 s))

value_from-append :
    (acc : ℕ) (xs ys : Bytes) → value_from acc (xs ++ ys) ≡ value_from (value_from acc xs) ys
unfolding value_from
value_from-append acc [] ys = refl
value_from-append acc (x ∷ xs) ys = value_from-append (acc * 10 + (x - 48)) xs ys

value_from-print_fuel : (f n : ℕ) → n < f → value_from 0 (print_fuel f n) ≡ n
unfolding print_fuel value_from
value_from-print_fuel zero n h = elim h [ ]
value_from-print_fuel (suc f) n h = elim (Bool-cases (ltb n 10)) [
  | inl small ↦ rw small (omega arith)
  | inr big ↦ rw big (
      value_from-append 0 (print_fuel f (n / 10)) ((48 + n % 10) ∷ [])
      ∙ omega (arith, value_from-print_fuel f (n / 10) (ground arith)))
]

pub value_from-print_u : (n : ℕ) → value_from 0 (print_u n) ≡ n
unfolding print_u
value_from-print_u n = value_from-print_fuel (n + 1) n (omega arith)

All-append :
    (p : ℕ → Bool) (xs ys : Bytes)
    → All (λ c. p c ≡ true) xs
    → All (λ c. p c ≡ true) ys
    → All (λ c. p c ≡ true) (xs ++ ys)
All-append p [] ys hx hy = hy
All-append p (x ∷ xs) ys hx hy = (hx.0, All-append p xs ys hx.1 hy)

print_fuel-digits : (f n : ℕ) → All (λ c. is_digit c ≡ true) (print_fuel f n)
unfolding print_fuel
print_fuel-digits zero n = tt
print_fuel-digits (suc f) n = elim (Bool-cases (ltb n 10)) [
  | inl small ↦ rw small (ground arith, tt)
  | inr big ↦ rw big (All-append is_digit _ _ (print_fuel-digits f (n / 10)) (ground arith, tt))
]

pub print_u-digits : (n : ℕ) → All (λ c. is_digit c ≡ true) (print_u n)
unfolding print_u
print_u-digits n = print_fuel-digits (n + 1) n

append-ne-nil : (xs : Bytes) (y : ℕ) (ys : Bytes) → xs ++ y ∷ ys ≢ []
append-ne-nil [] y ys = λ e. cc e
append-ne-nil (x ∷ xs) y ys = λ e. cc e

print_u-ne-nil : (n : ℕ) → print_u n ≢ []
unfolding print_u print_fuel
print_u-ne-nil n e = elim (Bool-cases (ltb n 10)) [
  | inl small ↦ cc (rw (add-one n, print_fuel, small) at e)
  | inr big ↦ append-ne-nil _ _ _ (rw (add-one n, print_fuel, big) at e)
]

-- A printed number begins with a digit.
pub print_u-cons : (n : ℕ) → (c : ℕ) × (cs : Bytes) × (print_u n ≡ c ∷ cs) × (is_digit c ≡ true)
print_u-cons n = go (print_u n) refl (print_u-digits n)
  where
    go :
        (t : Bytes)
        → print_u n ≡ t
        → All (λ c. is_digit c ≡ true) t
        → (c : ℕ) × (cs : Bytes) × (print_u n ≡ c ∷ cs) × (is_digit c ≡ true)
    go [] e h = absurd (print_u-ne-nil n e)
    go (c ∷ cs) e h = (c, cs, e, h.0)

pub skip_space-print_u : (n : ℕ) (rest : Bytes) → skip_space (print_u n ++ rest) ≡ print_u n ++ rest
skip_space-print_u n rest =
    let (c, cs, e, d) = print_u-cons n in rw e (unfold skip_space in ground arith)

pub take_sign-print_u :
    (n : ℕ) (rest : Bytes) → take_sign (print_u n ++ rest) ≡ (false, print_u n ++ rest)
take_sign-print_u n rest = let (c, cs, e, d) = print_u-cons n in rw e (ground arith)

pub is_empty-print_u : (n : ℕ) (rest : Bytes) → is_empty (print_u n ++ rest) ≡ false
is_empty-print_u n rest = let (c, cs, e, d) = print_u-cons n in rw e refl

-- `>>` takes a printed number and stops behind it.
pub extract_unsigned-print_u :
    (n : ℕ) (rest : Bytes)
    → n < u32_mod
    → Stops is_digit rest
    → extract_unsigned (print_u n ++ rest)
      ≡ (n, record { rest = rest; eof = is_empty rest; fail = false })
extract_unsigned-print_u n rest h s =
    let spanned = span-append is_digit (print_u n) rest (print_u-digits n) s in
    let filled : is_empty (print_u n) ≡ false =
      rw (← append-nil (print_u n)) (is_empty-print_u n []) in
    unfold extract_unsigned in
    rw take_sign-print_u (rw spanned (rw (filled, value_from-print_u) (ground arith)))

pub read_unsigned-print_u :
    (old n : ℕ) (rest : Bytes)
    → n < u32_mod
    → Stops is_digit rest
    → read_unsigned old (open_stream (print_u n ++ rest))
      ≡ (n, record { rest = rest; eof = is_empty rest; fail = false })
read_unsigned-print_u old n rest h s =
    unfold read_unsigned in
    rw skip_space-print_u (rw is_empty-print_u (extract_unsigned-print_u n rest h s))
