-- ===== src/Ftp/Disk/Steps.antt =====
-- The calls of an upload on the file, one by one.
use mini_ftpd.Prelude.{
  ==_self, ℕ, ◌+◌, ◌≡◌, refl, sym, ap, ◌∙◌, arith, Bool, true, false, ◌&&◌, [], ◌++◌, length,
  length-append, ◌==◌, if◌then◌else◌,
}
use mathlib.Core.List.{append-nil, append_assoc}
use mini_ftpd.Prelude.Int.{ℤ, pos, negsuc}
use mini_ftpd.Text.Bytes.{Bytes}
use mini_ftpd.Ftp.Proc.{Call, Answer}
use mini_ftpd.Ftp.Transfer.{is_zero}
use mini_ftpd.Ftp.Disk.{overwrite, Upload, written, or_failed, upload_after, overwrite-overwrite}

-- Where no call has failed, the bytes `d` are read and written.
abbrev pub Behind : Upload → Bytes → Upload → Type 0
Behind u d v =
    (v.got ≡ u.got ++ d)
    × (v.failed ≡ false
        → (u.failed ≡ false)
          × (v.content ≡ overwrite u.offset d u.content)
          × (v.offset ≡ u.offset + length d))

pub nothing-Behind : (u : Upload) → Behind u [] u
nothing-Behind u = (sym (append-nil u.got), λ fine. (fine, refl, omega arith))

pub Behind-Behind :
    (u v w : Upload) (d e : Bytes) → Behind u d v → Behind v e w → Behind u (d ++ e) w
Behind-Behind u v w d e (got, put) (got', put') = (
  got' ∙ ap (λ g. g ++ e) got ∙ append_assoc u.got d e,
  λ fine.
      let (fine', content', offset') = put' fine in
      let (fine'', content, offset) = put fine' in
      (
        fine'',
        content' ∙ rw (offset, content) (overwrite-overwrite u.offset d e u.content),
        omega (arith, offset', offset, length-append d e),
      ),
)

-- The bytes are read, and not written yet.
abbrev pub Wants : Upload → Bytes → Upload → Type 0
Wants u d v =
    (v.got ≡ u.got ++ d) × (v.content ≡ u.content) × (v.offset ≡ u.offset) × (v.failed ≡ u.failed)

or_failed-Behind :
    (u v : Upload) (d : Bytes) (ok : Bool) → Wants u d v → Behind u d (or_failed ok (written d v) v)
or_failed-Behind u v d true (got, content, offset, failed) =
    (got, λ fine. (sym failed ∙ fine, rw (content, offset) refl, rw offset refl))
or_failed-Behind u v d false (got, content, offset, failed) = (got, λ fine. cc fine)

pub write_file-Behind :
    (file_fd : ℕ) (u v : Upload) (d : Bytes) (a : Answer)
    → Wants u d v
    → Behind u d (upload_after file_fd (Call.write_file file_fd d) a v)
write_file-Behind file_fd u v d a w =
    rw (==_self file_fd) (or_failed-Behind u v d (a.ok && a.value == length d) w)

-- `content` and `offset` behind the calls that place an upload.
abbrev pub Starts : Upload → Bytes → ℕ → Upload → Type 0
Starts u content offset v =
    (v.got ≡ u.got)
    × (v.failed ≡ false → (u.failed ≡ false) × (v.content ≡ content) × (v.offset ≡ offset))

abbrev pub nat_of : ℤ → ℕ
nat_of (pos n) = n
nat_of (negsuc n) = 0

-- The content that an upload begins with, and where.
abbrev pub first_content : Bool → ℤ → Bytes → Bytes
first_content append_mode p c = if append_mode then c else (if is_zero p then [] else c)

abbrev pub first_offset : Bool → ℤ → Bytes → ℕ
first_offset append_mode p c = if append_mode then length c else (if is_zero p then 0 else nat_of p)

pub or_failed-Starts :
    (u v : Upload) (content : Bytes) (offset : ℕ) (ok : Bool)
    → v.got ≡ u.got
    → (v.failed ≡ false → u.failed ≡ false)
    → Starts u content offset (or_failed ok (record v { content = content; offset = offset }) v)
or_failed-Starts u v content offset true got failed = (got, λ fine. (failed fine, refl, refl))
or_failed-Starts u v content offset false got failed = (got, λ fine. cc fine)

pub lseek-Starts :
    (file_fd : ℕ) (p : ℤ) (a : Answer) (u : Upload)
    → Starts u u.content (nat_of p) (upload_after file_fd (Call.lseek file_fd p) a u)
lseek-Starts file_fd (pos n) a u =
    rw (==_self file_fd) (or_failed-Starts u u u.content n a.ok refl (λ fine. fine))
lseek-Starts file_fd (negsuc n) a u = rw (==_self file_fd) (refl, λ fine. cc fine)

both-Starts :
    (x y : Bool) (u : Upload)
    → (let v = or_failed x (record u { content = [] }) u in
        Starts u [] 0 (or_failed y (record v { offset = 0 }) v))
both-Starts true true u = (refl, λ fine. (fine, refl, refl))
both-Starts true false u = (refl, λ fine. cc fine)
both-Starts false true u = (refl, λ fine. cc fine)
both-Starts false false u = (refl, λ fine. cc fine)

-- `ftruncate`, then `lseek` to the start.
pub emptied-Starts :
    (file_fd : ℕ) (t a : Answer) (u : Upload)
    → Starts u [] 0 (
        upload_after file_fd
          (Call.lseek file_fd (pos 0))
          a
          (upload_after file_fd (Call.ftruncate file_fd) t u))
emptied-Starts file_fd t a u = rw (==_self file_fd) (both-Starts t.ok a.ok u)
