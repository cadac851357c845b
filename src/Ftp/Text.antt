-- ===== src/Ftp/Text.antt =====
-- Numbers in command arguments: `std::stol`, `std::stoi` in base 8, `%o`, `%zu` and `sscanf`.
use mini_ftpd.Prelude.{
  ℕ, zero, suc, ◌+◌, ◌-◌, ◌*◌, ◌/◌, ◌%◌, Bool, ◌&&◌, Option, none, some, List, [], ◌∷◌, ◌++◌, leb,
  ltb, ◌==◌, if◌then◌else◌,
}
use mini_ftpd.Prelude.Int.{ℤ, pos, negsuc}
use mini_ftpd.Text.Bytes.{Bytes, is_digit}
use mini_ftpd.Text.Stream.{skip_space, span, value_from, take_sign, is_empty, u32_mod}
use mini_ftpd.Text.Decimal.{print_u}

-- 2^63, the bound of `long`, and 2^31, that of `int`.
abbrev pub long_bound : ℕ
long_bound = 9223372036854775808

abbrev pub int_bound : ℕ
int_bound = 2147483648

abbrev pub negate : ℕ → ℤ
negate zero = pos 0
negate (suc n) = negsuc n

-- `std::stol(s)`; `none` where it throws.
unfoldable pub stol : Bytes → Option ℤ
unfolding skip_space span value_from
stol s =
    let (minus, body) = take_sign (skip_space s) in
    let digits = (span is_digit body).0 in
    let n = value_from 0 digits in
    if is_empty digits
    then none
    else if minus
    then (if leb n long_bound then some (negate n) else none)
    else if ltb n long_bound
    then some (pos n)
    else none

-- `%zu` of a `long`.
unfoldable pub print_zu : ℤ → Bytes
print_zu (pos n) = print_u n
print_zu (negsuc n) = print_u (18446744073709551616 - (n + 1))

abbrev pub is_octal : ℕ → Bool
is_octal c = leb 48 c && leb c 55

unfoldable pub octal_from : ℕ → Bytes → ℕ
octal_from acc [] = acc
octal_from acc (c ∷ cs) = octal_from (acc * 8 + (c - 48)) cs

-- `std::stoi(s, nullptr, 8)` converted to `mode_t`; `none` where it throws.
unfoldable pub stoi_octal : Bytes → Option ℕ
unfolding skip_space span octal_from
stoi_octal s =
    let (minus, body) = take_sign (skip_space s) in
    let digits = (span is_octal body).0 in
    let n = octal_from 0 digits in
    if is_empty digits
    then none
    else if minus
    then (if leb n int_bound then some ((u32_mod - n) % u32_mod) else none)
    else if ltb n int_bound
    then some n
    else none

octal_fuel : ℕ → ℕ → Bytes
octal_fuel zero n = []
octal_fuel (suc f) n =
    let front = octal_fuel f (n / 8) in
    if ltb n 8 then (48 + n) ∷ [] else front ++ (48 + n % 8) ∷ []

-- `%o`.
unfoldable pub print_o : ℕ → Bytes
unfolding octal_fuel
print_o n = octal_fuel (n + 1) n

-- `%u` of `sscanf`, which converts by `strtoul`: the number and what follows it. A number out of range
-- is ULONG_MAX, with either sign.
unfoldable pub scan_u : Bytes → Option (ℕ × Bytes)
unfolding skip_space span value_from
scan_u s =
    let (minus, body) = take_sign (skip_space s) in
    let (digits, rest) = span is_digit body in
    let n = value_from 0 digits in
    let signed = if minus then 18446744073709551616 - n else n in
    let word = if leb 18446744073709551616 n then 18446744073709551615 else signed in
    if is_empty digits then none else some (word % u32_mod, rest)

-- The next conversion of a format in which a dot stands before `%u`.
scan_dot : (Bytes → List ℕ) → List ℕ → Bytes → List ℕ
scan_dot more olds [] = olds
scan_dot more olds (c ∷ cs) = let rest = more cs in if c == b'.' then rest else olds

-- `sscanf(s, "%u.%u.%u.%u", v, ...)` over the old values of the array: a conversion that fails
-- ends the scan.
unfoldable pub scan_dotted : List ℕ → Bytes → List ℕ
unfolding scan_u scan_dot
scan_dotted [] s = []
scan_dotted (old ∷ olds) s = elim (scan_u s) [
  | none ↦ old ∷ olds
  | some (n, rest) ↦ n ∷ scan_dot (scan_dotted olds) olds rest
]
