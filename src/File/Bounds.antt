-- ===== src/File/Bounds.antt =====
-- The buffers of the listings of file/file_utility.cpp.
use mini_ftpd.Prelude.{
  ℕ, zero, suc, ◌+◌, ◌-◌, ◌≤◌, ◌<◌, ◌≡◌, refl, ap, arith, true, Option, none, some, List, [], ◌∷◌,
  ◌++◌, length, length-append, ltb, Bool-cases, inl, inr, All,
}
use mini_ftpd.Text.Bytes.{Bytes, codes}
use mini_ftpd.Text.Decimal.{print_u, length-print_u}
use mini_ftpd.File.Perm.Defs.{perm}
use mini_ftpd.File.Defs.{
  Stat, FileSystem, buffer_size, absolute_path, is_link, line_end, source_path, name_part, spaces,
  pad_left, pad_right, print_d, columns, date_format, date, long_line, or_skip, from_entries,
  lines_of, heading, list_dir,
}

length-spaces : (n : ℕ) → length (spaces n) ≡ n
length-spaces zero = refl
length-spaces (suc n) = omega (arith, length-spaces n)

-- A field takes its width, or the text where that is longer.
length-pad_left : (w k : ℕ) (t : Bytes) → length t ≤ k → length (pad_left w t) ≤ w + k
unfolding pad_left
length-pad_left w k t h =
    omega (arith, length-append (spaces (w - length t)) t, length-spaces (w - length t))

length-pad_right : (w k : ℕ) (t : Bytes) → length t ≤ k → length (pad_right w t) ≤ w + k
unfolding pad_right
length-pad_right w k t h =
    omega (arith, length-append t (spaces (w - length t)), length-spaces (w - length t))

length-print_d : (n : ℕ) → n < 4294967296 → length (print_d n) ≤ 11
unfolding print_d
length-print_d n h = elim (Bool-cases (ltb n 2147483648)) [
  | inl small ↦
      rw small
        (let digits = length-print_u 10 n (omega arith) (omega arith) in omega (arith, digits))
  | inr big ↦ rw big (
      let digits = length-print_u 10 (4294967296 - n) (omega arith) (omega arith) in
      omega (arith, digits))
]

length-perm : (mode : ℕ) → length (perm mode) ≡ 10
unfolding perm
length-perm mode = refl

-- The numbers of `struct stat` have the widths of their types.
pub record Fits (s : Stat) : Type 0 where
  pub nlink : s.nlink < 18446744073709551616
  pub uid : s.uid < 4294967296
  pub gid : s.gid < 4294967296
  pub size : s.size < 18446744073709551616

-- One more byte behind a text.
length-then : (t : Bytes) (c : ℕ) → length (t ++ c ∷ []) ≡ length t + 1
length-then t c = length-append t (c ∷ [])

length-columns : (s : Stat) → Fits s → length (columns s) ≤ 104
unfolding columns
length-columns s fits =
    let links = pad_left 3 (print_u s.nlink) in
    let user = pad_right 8 (print_d s.uid) in
    let group = pad_right 8 (print_d s.gid) in
    let bytes = pad_left 8 (print_u s.size) in
    let size4 =
      length-pad_left 8 20 (print_u s.size)
        (length-print_u 20 s.size (omega arith) (omega (arith, fits.size))) in
    let size3 = length-pad_right 8 11 (print_d s.gid) (length-print_d s.gid fits.gid) in
    let size2 = length-pad_right 8 11 (print_d s.uid) (length-print_d s.uid fits.uid) in
    let size1 =
      length-pad_left 3 20 (print_u s.nlink)
        (length-print_u 20 s.nlink (omega arith) (omega (arith, fits.nlink))) in
    let rest3 = (group ++ 32 ∷ []) ++ (bytes ++ 32 ∷ []) in
    let rest2 = (user ++ 32 ∷ []) ++ rest3 in
    let rest1 = (links ++ 32 ∷ []) ++ rest2 in
    omega (
      arith,
      size1,
      size2,
      size3,
      size4,
      length-perm s.mode,
      length-append (perm s.mode ++ 32 ∷ []) rest1,
      length-then (perm s.mode) 32,
      length-append (links ++ 32 ∷ []) rest2,
      length-then links 32,
      length-append (user ++ 32 ∷ []) rest3,
      length-then user 32,
      length-append (group ++ 32 ∷ []) (bytes ++ 32 ∷ []),
      length-then group 32,
      length-then bytes 32,
    )

-- A system with the limits of Linux on names and on what is shorter than the buffers.
pub record IsModest (system : FileSystem) : Type 0 where
  pub names : (ns : List Bytes) → system.entries ≡ some ns → All (λ name. length name ≤ 255) ns
  pub targets : (p t : Bytes) → system.readlink p ≡ some t → length t < 1024
  pub stats : (p : Bytes) (s : Stat) → system.lstat p ≡ some s → Fits s
  pub dates : (format : Bytes) (time : ℕ) → length (system.strftime format time) < 64

module _ (system : FileSystem) (ok : IsModest system) (path : Bytes) where
  -- The text of `readlink` ends.
  source_path-some :
      (p : Bytes) → (t : Bytes) × (source_path (system.readlink p) ≡ some t) × (length t < 1024)
  unfolding source_path
  source_path-some p = go (system.readlink p) refl
    where
      go :
          (r : Option Bytes)
          → system.readlink p ≡ r
          → (t : Bytes) × (source_path r ≡ some t) × (length t < 1024)
      go none e = ([], refl, omega arith)
      go (some t) e =
          let small = ok.targets p t e in
          let fits : ltb (length t) 1024 ≡ true = ground arith in (t, rw fits refl, small)

  name_part-some :
      (name : Bytes) (s : Stat)
      → length name ≤ 255
      → (t : Bytes) × (name_part system path name s ≡ some t) × (length t ≤ 1284)
  unfolding name_part
  name_part-some name s h =
      let (t, found, small) = source_path-some (absolute_path path name) in
      elim (Bool-cases (is_link s)) [
        | inl link ↦ (
          name ++ (codes " -> " ++ (t ++ line_end)),
          rw (link, found) refl,
          omega (
            arith,
            length-append name (codes " -> " ++ (t ++ line_end)),
            length-append (codes " -> ") (t ++ line_end),
            length-append t line_end,
          ),
        )
        | inr plain ↦ (name ++ line_end, rw plain refl, omega (arith, length-append name line_end))
      ]

  long_line-some :
      (name : Bytes) (s : Stat)
      → length name ≤ 255
      → Fits s
      → (line : Bytes) × (long_line system path name s ≡ some line) × (length line < buffer_size)
  unfolding long_line date
  long_line-some name s h fits =
      let (t, found, small) = name_part-some name s h in
      let now = system.now (absolute_path path name) in
      let day = system.strftime (date_format s.mtime now) now in
      let front = columns s ++ (day ++ 32 ∷ []) in
      let total : length (front ++ t) < buffer_size = omega (
        arith,
        small,
        length-columns s fits,
        ok.dates (date_format s.mtime now) now,
        length-append front t,
        length-append (columns s) (day ++ 32 ∷ []),
        length-then day 32,
      ) in
      let room : ltb (length (front ++ t)) buffer_size ≡ true = ground arith in
      (front ++ t, rw (found, room) refl, total)

  -- The entries that `lstat` finds.
  abbrev pub found : List Bytes → List Bytes
  found [] = []
  found (name ∷ names) = elim (system.lstat (absolute_path path name)) [
    | none ↦ found names
    | some s ↦ name ∷ found names
  ]

  -- Lines for these names.
  abbrev Lines : List Bytes → Option (List Bytes) → Type 0
  Lines names r =
      (lines : List Bytes) × (r ≡ some lines)
      × (length lines ≡ length names)
      × All (λ line. length line < buffer_size) lines

  one_more :
      (name : Bytes) (names : List Bytes) (rest : Option (List Bytes))
      → length name ≤ 255
      → Lines names rest
      → (r : Option Stat) → system.lstat (absolute_path path name) ≡ r
      → Lines
          (elim r [ none ↦ names | some s ↦ name ∷ names ])
          (or_skip r (long_line system path name) rest)
  one_more name names rest h ih none e = ih
  one_more name names rest h (lines, made, count, all) (some s) e =
      let (line, made_too, small) =
        long_line-some name s h (ok.stats (absolute_path path name) s e) in
      (line ∷ lines, rw (made_too, made) refl, ap suc count, (small, all))

  Lines-found :
      (names : List Bytes)
      → All (λ name. length name ≤ 255) names
      → Lines (found names) (lines_of system (long_line system path) path names)
  unfolding lines_of
  Lines-found [] h = ([], refl, refl, tt)
  Lines-found (name ∷ names) h =
      one_more name (found names) _ h.0 (Lines-found names h.1)
        (system.lstat (absolute_path path name)) refl

  entries-some :
      (entries : Option (List Bytes))
      → system.entries ≡ entries
      → Lines
          (found (elim entries [ none ↦ [] | some names ↦ names ]))
          (from_entries entries (lines_of system (long_line system path) path))
  entries-some none e = ([], refl, refl, tt)
  entries-some (some names) e = Lines-found names (ok.names names e)

  -- On a system whose names have at most 255 bytes, whose links lead to fewer than 1024, whose dates
  -- fit their buffer and whose numbers fit their types, `list_dir` is defined: no line leaves the
  -- 2048 bytes of its buffer, though each `snprintf` is given the size of the whole buffer, and
  -- behind the heading there is one line for each entry that `lstat` finds.
  pub list_dir-some :
      (lines : List Bytes) × (list_dir system path ≡ some (heading ∷ lines))
      × (length lines ≡ length (found (elim system.entries [ none ↦ [] | some names ↦ names ])))
      × All (λ line. length line < buffer_size) lines
  unfolding list_dir
  list_dir-some =
      let (lines, made, count, all) = entries-some system.entries refl in
      (lines, rw made refl, count, all)
