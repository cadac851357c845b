-- ===== src/File/Perm/RoundTrip.antt =====
-- Reading the permission text of a listing back.
use mini_ftpd.Prelude.{
  ℕ, ◌+◌, ◌*◌, ◌/◌, ◌%◌, ◌<◌, ◌≡◌, ◌⊎◌, refl, arith, Bool, true, false, not, ◌&&◌, get_or, ◌==◌,
  if◌then◌else◌, inl, inr,
}
use mini_ftpd.Text.Bytes.{Bytes}
use mini_ftpd.File.Perm.Defs.{file_type, type_char, letter, exec_letter, perm}

pub read_type : ℕ → ℕ
read_type c =
    if c == 45
    then 8
    else if c == 100
    then 4
    else if c == 108
    then 10
    else if c == 112
    then 1
    else if c == 115
    then 12
    else if c == 99
    then 2
    else 6

pub read_letter : ℕ → ℕ → ℕ
read_letter c mask = if c == 45 then 0 else mask

pub read_exec : ℕ → ℕ → ℕ → ℕ → ℕ
read_exec small c mask special =
    if c == 45 then 0 else if c == 120 then mask else if c == small then mask + special else special

-- The mode that a permission text stands for.
abbrev pub read_mode : Bytes → ℕ
read_mode t =
    read_type (get_or t 0 0) * 4096
    + read_letter (get_or t 1 0) 256
    + read_letter (get_or t 2 0) 128
    + read_exec 115 (get_or t 3 0) 64 2048
    + read_letter (get_or t 4 0) 32
    + read_letter (get_or t 5 0) 16
    + read_exec 115 (get_or t 6 0) 8 1024
    + read_letter (get_or t 7 0) 4
    + read_letter (get_or t 8 0) 2
    + read_exec 116 (get_or t 9 0) 1 512

-- The types of the `switch`.
abbrev pub is_known : ℕ → Bool
is_known t = not (
    not (t == 8)
    && not (t == 4)
    && not (t == 10)
    && not (t == 1)
    && not (t == 12)
    && not (t == 2)
    && not (t == 6))

read_type-type_char : (t : ℕ) → is_known t ≡ true → read_type (type_char t) ≡ t
unfolding type_char read_type
read_type-type_char t h = ground arith

bit : (n : ℕ) → (n % 2 ≡ 0) ⊎ (n % 2 ≡ 1)
bit n = ground arith

read_letter-letter :
    (c mode mask : ℕ)
    → (c == 45) ≡ false
    → read_letter (letter c mode mask) mask ≡ mask * (mode / mask % 2)
unfolding letter read_letter
read_letter-letter c mode mask h = elim (bit (mode / mask)) [
  | inl off ↦ rw off (omega arith)
  | inr on ↦ rw (on, h) (omega arith)
]

module _ (small capital : ℕ) (s1 : (small == 45) ≡ false) (s2 : (small == 120) ≡ false)
    (c1 : (capital == 45) ≡ false) (c2 : (capital == 120) ≡ false)
    (c3 : (capital == small) ≡ false) where
  read_exec-exec_letter :
      (mode mask special : ℕ)
      → read_exec small (exec_letter small capital mode mask special) mask special
        ≡ mask * (mode / mask % 2) + special * (mode / special % 2)
  unfolding exec_letter read_exec
  read_exec-exec_letter mode mask special = elim (bit (mode / mask)) [
    | inl off ↦ elim (bit (mode / special)) [
      | inl plain ↦ rw (off, plain) (omega arith)
      | inr extra ↦ rw (off, extra, c1, c2, c3) (omega arith)
    ]
    | inr on ↦ elim (bit (mode / special)) [
      | inl plain ↦ rw (on, plain) (omega arith)
      | inr extra ↦
          let self : (small == small) ≡ true = ground arith in
          rw (on, extra, s1, s2, self) (omega arith)
    ]
  ]

bits :
    (mode : ℕ)
    → mode % 4096
      ≡ 256 * (mode / 256 % 2)
        + 128 * (mode / 128 % 2)
        + (64 * (mode / 64 % 2) + 2048 * (mode / 2048 % 2))
        + 32 * (mode / 32 % 2)
        + 16 * (mode / 16 % 2)
        + (8 * (mode / 8 % 2) + 1024 * (mode / 1024 % 2))
        + 4 * (mode / 4 % 2)
        + 2 * (mode / 2 % 2)
        + (1 * (mode / 1 % 2) + 512 * (mode / 512 % 2))
bits mode = omega arith

-- The permission text says the whole mode: its type, where the `switch` knows it, and its twelve
-- bits, set-user-id, set-group-id and sticky included, are read back from the ten characters.
pub read_mode-perm :
    (mode : ℕ) → is_known (file_type mode) ≡ true → mode < 65536 → read_mode (perm mode) ≡ mode
unfolding perm
read_mode-perm mode h small =
    rw
      (
        read_type-type_char (file_type mode) h,
        read_letter-letter 114 mode 256 refl,
        read_letter-letter 119 mode 128 refl,
        read_exec-exec_letter 115 83 refl refl refl refl refl mode 64 2048,
        read_letter-letter 114 mode 32 refl,
        read_letter-letter 119 mode 16 refl,
        read_exec-exec_letter 115 83 refl refl refl refl refl mode 8 1024,
        read_letter-letter 114 mode 4 refl,
        read_letter-letter 119 mode 2 refl,
        read_exec-exec_letter 116 84 refl refl refl refl refl mode 1 512,
      )
      (omega (arith, bits mode))
