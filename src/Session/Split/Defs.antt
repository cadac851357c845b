-- ===== src/Session/Split/Defs.antt =====
-- `split` of session.cpp: positions in the string, with `none` for `string::npos`.
use mini_ftpd.Prelude.{
  ℕ, zero, suc, ◌+◌, ◌-◌, Bool, true, false, not, ◌||◌, Option, none, some, List, [], ◌∷◌, ◌++◌,
  take, drop, length, ◌==◌,
}
use mini_ftpd.Text.Bytes.{Bytes}

unfoldable pub is_delim : Bytes → ℕ → Bool
is_delim [] c = false
is_delim (d ∷ ds) c = c == d || is_delim ds c

-- The first position at or after `i` whose byte passes, where `s` begins at `i`.
unfoldable pub find_in : (ℕ → Bool) → ℕ → Bytes → Option ℕ
find_in p i [] = none
find_in p i (c ∷ s) = elim (p c) [ true ↦ some i | false ↦ find_in p (i + 1) s ]

-- A search that starts at `npos` finds nothing.
unfoldable pub find_from : (ℕ → Bool) → Option ℕ → Bytes → Option ℕ
find_from p none s = none
find_from p (some i) s = find_in p i (drop i s)

unfoldable pub find_first_of : Bytes → Option ℕ → Bytes → Option ℕ
find_first_of delimiters pos s = find_from (is_delim delimiters) pos s

unfoldable pub find_first_not_of : Bytes → Option ℕ → Bytes → Option ℕ
find_first_not_of delimiters pos s = find_from (λ c. not (is_delim delimiters c)) pos s

-- `s.substr(start, found - start)`, where an end at `npos` takes all that is left.
unfoldable pub substr_to : ℕ → Option ℕ → Bytes → Bytes
substr_to start none s = drop start s
substr_to start (some found) s = take (found - start) (drop start s)

-- The `while` loop. `substr` from `npos` would throw: the second `none`. The first says that the
-- fuel ran out.
unfoldable pub split_loop :
    ℕ → Bytes → Bytes → Option ℕ → Option ℕ → List Bytes → Option (List Bytes)
split_loop zero delimiters s start found tokens = none
split_loop (suc f) delimiters s none none tokens = some tokens
split_loop (suc f) delimiters s none (some found) tokens = none
split_loop (suc f) delimiters s (some start) found tokens =
    let next = find_first_not_of delimiters found s in
    split_loop f delimiters s next (find_first_of delimiters next s)
      (tokens ++ substr_to start found s ∷ [])

-- One round for each byte, and one to end.
unfoldable pub split : Bytes → Bytes → Option (List Bytes)
split s delimiters =
    let start = find_first_not_of delimiters (some 0) s in
    split_loop (length s + 1) delimiters s start (find_first_of delimiters start s) []
