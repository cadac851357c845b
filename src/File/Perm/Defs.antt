-- ===== src/File/Perm/Defs.antt =====
-- `perm` of `list_dir` in file/file_utility.cpp.
use mini_ftpd.Prelude.{ℕ, ◌/◌, ◌%◌, Bool, [], ◌∷◌, ◌==◌, if◌then◌else◌}
use mini_ftpd.Text.Bytes.{Bytes}

-- `mode & S_IFMT`, in units of its lowest bit.
abbrev pub file_type : ℕ → ℕ
file_type mode = mode / 4096 % 16

-- - d l p s c b, and ? for another type.
unfoldable pub type_char : ℕ → ℕ
type_char t =
    if t == 8
    then 45
    else if t == 4
    then 100
    else if t == 10
    then 108
    else if t == 1
    then 112
    else if t == 12
    then 115
    else if t == 2
    then 99
    else if t == 6
    then 98
    else 63

-- `mode & mask` for a mask of one bit.
abbrev pub has : ℕ → ℕ → Bool
has mode mask = mode / mask % 2 == 1

-- r or w, or -
unfoldable pub letter : ℕ → ℕ → ℕ → ℕ
letter c mode mask = if has mode mask then c else 45

-- x or -, unless the other bit is set: then a small letter with the x, a capital one without.
unfoldable pub exec_letter : ℕ → ℕ → ℕ → ℕ → ℕ → ℕ
exec_letter small capital mode mask special =
    if has mode special
    then (if has mode mask then small else capital)
    else (if has mode mask then 120 else 45)

unfoldable pub perm : ℕ → Bytes
perm mode =
    type_char (file_type mode)
    ∷ letter 114 mode 256
    ∷ letter 119 mode 128
    ∷ exec_letter 115 83 mode 64 2048
    ∷ letter 114 mode 32
    ∷ letter 119 mode 16
    ∷ exec_letter 115 83 mode 8 1024
    ∷ letter 114 mode 4
    ∷ letter 119 mode 2
    ∷ exec_letter 116 84 mode 1 512
    ∷ []
