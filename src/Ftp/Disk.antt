-- ===== src/Ftp/Disk.antt =====
-- The file of an upload, as the calls on its descriptor leave it.
pub mod Steps
use mini_ftpd.Prelude.{
  ℕ, zero, suc, ◌+◌, ◌≡◌, refl, sym, ap, ◌∙◌, arith, Bool, true, false, ◌&&◌, List, [], ◌∷◌, ◌++◌,
  length, ◌==◌, if◌then◌else◌,
}
use mathlib.Core.List.{append-nil}
use mini_ftpd.Prelude.Int.{ℤ, pos, negsuc}
use mini_ftpd.Text.Bytes.{Bytes}
use mini_ftpd.Ftp.Proc.{Call, Answer, Event}
use mini_ftpd.Ftp.View.{View, viewed}

-- write(2) at an offset: what lies there is replaced, and a gap behind the end is filled with zeros.
abbrev pub overwrite : ℕ → Bytes → Bytes → Bytes
overwrite o [] c = c
overwrite zero (b ∷ bs) [] = b ∷ bs
overwrite zero (b ∷ bs) (x ∷ c) = b ∷ overwrite zero bs c
overwrite (suc o) (b ∷ bs) [] = 0 ∷ overwrite o (b ∷ bs) []
overwrite (suc o) (b ∷ bs) (x ∷ c) = x ∷ overwrite o (b ∷ bs) c

-- The bytes that the reads have brought, the content of the file, its offset, and whether a call on
-- it has failed.
pub record Upload : Type 0 where
  pub got : Bytes
  pub content : Bytes
  pub offset : ℕ
  pub failed : Bool

abbrev pub written : Bytes → Upload → Upload
written bs u = record u { content = overwrite u.offset bs u.content; offset = u.offset + length bs }

abbrev pub or_failed : Bool → Upload → Upload → Upload
or_failed ok new u = if ok then new else record u { failed = true }

-- lseek(2) refuses a negative offset.
abbrev pub upload_after : ℕ → Call → Answer → Upload → Upload
upload_after file_fd (Call.read_data fd) a u = record u {
  got = u.got ++ (if a.ok then a.text else []);
}
upload_after file_fd (Call.write_file fd bs) a u =
    if fd == file_fd then or_failed (a.ok && a.value == length bs) (written bs u) u else u
upload_after file_fd (Call.ftruncate fd) a u =
    if fd == file_fd then or_failed a.ok (record u { content = [] }) u else u
upload_after file_fd (Call.lseek fd (pos n)) a u =
    if fd == file_fd then or_failed a.ok (record u { offset = n }) u else u
upload_after file_fd (Call.lseek fd (negsuc n)) a u =
    if fd == file_fd then record u { failed = true } else u
upload_after file_fd (Call.lseek_end fd) a u =
    if fd == file_fd then or_failed a.ok (record u { offset = length u.content }) u else u
upload_after file_fd c a u = u

-- With what the file holds before the first event.
abbrev pub upload_view : ℕ → Bytes → View
upload_view file_fd old = record {
  State = Upload;
  start = record { got = []; content = old; offset = 0; failed = false };
  after = upload_after file_fd;
  write_n = λ fd bs a s. refl;
  readline = λ fd a s. refl;
  shutdown = λ fd a s. refl;
  read_timeout = λ fd k a s. refl;
  write_timeout = λ fd k a s. refl;
  limit_speed = λ k up a s. refl;
}

abbrev pub upload_of : ℕ → Bytes → List Event → Upload
upload_of file_fd old = viewed (upload_view file_fd old)

pub overwrite_empty : (bs : Bytes) → overwrite zero bs [] ≡ bs
overwrite_empty [] = refl
overwrite_empty (b ∷ bs) = refl

pub overwrite_end : (c bs : Bytes) → overwrite (length c) bs c ≡ c ++ bs
overwrite_end c [] = sym (append-nil c)
overwrite_end [] (b ∷ bs) = refl
overwrite_end (x ∷ c) (b ∷ bs) = ap (◌∷◌ x) (overwrite_end c (b ∷ bs))

same_offset : (o p : ℕ) (bs c : Bytes) → o ≡ p → overwrite o bs c ≡ overwrite p bs c
same_offset o p bs c e = ap (λ k. overwrite k bs c) e

-- Two pieces, one behind the other.
pub overwrite-overwrite :
    (o : ℕ) (xs ys c : Bytes)
    → overwrite (o + length xs) ys (overwrite o xs c) ≡ overwrite o (xs ++ ys) c
overwrite-overwrite o [] ys c = ap (λ k. overwrite k ys c) (omega arith)
overwrite-overwrite o (x ∷ xs) [] c = ap (λ l. overwrite o (x ∷ l) c) (sym (append-nil xs))
overwrite-overwrite zero (x ∷ xs) (y ∷ ys) [] =
    same_offset (0 + suc (length xs)) (suc (length xs)) (y ∷ ys) (x ∷ xs) (omega arith)
    ∙ ap (◌∷◌ x) (overwrite_end xs (y ∷ ys))
overwrite-overwrite zero (x ∷ xs) (y ∷ ys) (z ∷ c) =
    same_offset (0 + suc (length xs)) (suc (0 + length xs)) (y ∷ ys) (x ∷ overwrite zero xs c)
      (omega arith)
    ∙ ap (◌∷◌ x) (overwrite-overwrite zero xs (y ∷ ys) c)
overwrite-overwrite (suc o) (x ∷ xs) (y ∷ ys) [] =
    same_offset (suc o + suc (length xs)) (suc (o + suc (length xs))) (y ∷ ys)
      (0 ∷ overwrite o (x ∷ xs) []) (omega arith)
    ∙ ap (◌∷◌ 0) (overwrite-overwrite o (x ∷ xs) (y ∷ ys) [])
overwrite-overwrite (suc o) (x ∷ xs) (y ∷ ys) (z ∷ c) =
    same_offset (suc o + suc (length xs)) (suc (o + suc (length xs))) (y ∷ ys)
      (z ∷ overwrite o (x ∷ xs) c) (omega arith)
    ∙ ap (◌∷◌ z) (overwrite-overwrite o (x ∷ xs) (y ∷ ys) c)
