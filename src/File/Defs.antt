-- ===== src/File/Defs.antt =====
-- `list_neat_dir` and `list_dir` of file/file_utility.cpp.
use mini_ftpd.Prelude.{
  ℕ, zero, suc, ◌-◌, Bool, not, ◌&&◌, Option, none, some, List, [], ◌∷◌, ◌++◌, take, length, ltb,
  ◌==◌, if◌then◌else◌,
}
use mini_ftpd.Text.Bytes.{Bytes, codes}
use mini_ftpd.Text.Decimal.{print_u}
use mini_ftpd.File.Perm.Defs.{file_type, perm}

-- What the listings read of `struct stat`.
pub record Stat : Type 0 where
  pub mode : ℕ
  pub nlink : ℕ
  pub uid : ℕ
  pub gid : ℕ
  pub size : ℕ
  pub mtime : ℕ

-- What a listing of one directory finds it: the names of `readdir` (`none` for a failing
-- `opendir`), `lstat` and `readlink` by path (`none` for -1), the time of `gettimeofday` at each
-- path, and `strftime` of the local time.
pub record FileSystem : Type 0 where
  pub entries : Option (List Bytes)
  pub lstat : Bytes → Option Stat
  pub readlink : Bytes → Option Bytes
  pub now : Bytes → ℕ
  pub strftime : Bytes → ℕ → Bytes

abbrev pub buffer_size : ℕ
buffer_size = 2048

-- `snprintf` of "%s/%s".
unfoldable pub absolute_path : Bytes → Bytes → Bytes
absolute_path path name = take (buffer_size - 1) (path ++ 47 ∷ name)

abbrev pub is_link : Stat → Bool
is_link s = file_type s.mode == 10

abbrev pub line_end : Bytes
line_end = 13 ∷ 10 ∷ []

-- `src_path`: empty behind a failing `readlink`; `none` where its 1024 bytes are all written, and
-- what is read as a text has no end.
unfoldable pub source_path : Option Bytes → Option Bytes
source_path none = some []
source_path (some target) = if ltb (length target) 1024 then some target else none

abbrev with_target : Bytes → Option Bytes → Option Bytes
with_target name none = none
with_target name (some target) = some (name ++ (codes " -> " ++ (target ++ line_end)))

-- The name, and where a link leads.
unfoldable pub name_part : FileSystem → Bytes → Bytes → Stat → Option Bytes
unfolding source_path
name_part system path name s =
    if is_link s
    then with_target name (source_path (system.readlink (absolute_path path name)))
    else some (name ++ line_end)

abbrev cut : Option Bytes → Option Bytes
cut none = none
cut (some line) = some (take (buffer_size - 1) line)

unfoldable pub neat_line : FileSystem → Bytes → Bytes → Stat → Option Bytes
neat_line system path name s = cut (name_part system path name s)

-- %3lu, %8lu and %-8d
abbrev pub spaces : ℕ → Bytes
spaces zero = []
spaces (suc n) = 32 ∷ spaces n

unfoldable pub pad_left : ℕ → Bytes → Bytes
pad_left width t = spaces (width - length t) ++ t

unfoldable pub pad_right : ℕ → Bytes → Bytes
pad_right width t = t ++ spaces (width - length t)

-- %d of an `unsigned int`
unfoldable pub print_d : ℕ → Bytes
print_d n = if ltb n 2147483648 then print_u n else 45 ∷ print_u (4294967296 - n)

-- The types and permissions, the links, the owners and the size.
unfoldable pub columns : Stat → Bytes
columns s =
    (perm s.mode ++ 32 ∷ [])
    ++ ((pad_left 3 (print_u s.nlink) ++ 32 ∷ [])
        ++ ((pad_right 8 (print_d s.uid) ++ 32 ∷ [])
            ++ ((pad_right 8 (print_d s.gid) ++ 32 ∷ [])
                ++ (pad_left 8 (print_u s.size) ++ 32 ∷ []))))

-- 365/2*24*60*60
abbrev pub half_year : ℕ
half_year = 15724800

-- The time of day for a file of the future, or one older than half a year, and the year else.
unfoldable pub date_format : ℕ → ℕ → Bytes
date_format mtime now =
    if not (not (ltb now mtime) && not (ltb half_year (now - mtime)))
    then codes "%b %e %H:%M"
    else codes "%b %e  %Y"

-- `localtime` gets the time of the listing, not that of the file.
unfoldable pub date : FileSystem → ℕ → ℕ → Bytes
date system mtime now = system.strftime (date_format mtime now) now

-- Each `snprintf` may write the whole size of the buffer behind what stands there: `none` where the
-- line leaves the buffer.
abbrev in_buffer : Bytes → Option Bytes
in_buffer line = if ltb (length line) buffer_size then some line else none

abbrev with_columns : Bytes → Option Bytes → Option Bytes
with_columns front none = none
with_columns front (some rest) = in_buffer (front ++ rest)

unfoldable pub long_line : FileSystem → Bytes → Bytes → Stat → Option Bytes
long_line system path name s =
    with_columns
      (columns s ++ (date system s.mtime (system.now (absolute_path path name)) ++ 32 ∷ []))
      (name_part system path name s)

abbrev pub cons_line : Option Bytes → Option (List Bytes) → Option (List Bytes)
cons_line (some line) (some lines) = some (line ∷ lines)
cons_line _ _ = none

abbrev pub or_skip : Option Stat → (Stat → Option Bytes) → Option (List Bytes) → Option (List Bytes)
or_skip none line rest = rest
or_skip (some s) line rest = cons_line (line s) rest

-- The loop over the entries: one that `lstat` does not find is left out. `none` says that the
-- behaviour is undefined.
unfoldable pub lines_of :
    FileSystem → (Bytes → Stat → Option Bytes) → Bytes → List Bytes → Option (List Bytes)
lines_of system line path [] = some []
lines_of system line path (name ∷ names) =
    or_skip (system.lstat (absolute_path path name)) (line name) (lines_of system line path names)

abbrev pub from_entries :
    Option (List Bytes) → (List Bytes → Option (List Bytes)) → Option (List Bytes)
from_entries none lines = some []
from_entries (some names) lines = lines names

unfoldable pub list_neat_dir : FileSystem → Bytes → Option (List Bytes)
unfolding lines_of neat_line
list_neat_dir system path =
    from_entries system.entries (lines_of system (neat_line system path) path)

-- The first line, in UTF-8.
abbrev pub heading : Bytes
heading =
    230 ∷ 150 ∷ 135 ∷ 228 ∷ 187 ∷ 182 ∷ 231 ∷ 177 ∷ 187 ∷ 229 ∷ 158 ∷ 139 ∷ 32 ∷ 32 ∷ 32 ∷ 32 ∷ 233
    ∷ 147 ∷ 190 ∷ 230 ∷ 142 ∷ 165 ∷ 230 ∷ 149 ∷ 176 ∷ 32 ∷ 117 ∷ 105 ∷ 100 ∷ 32 ∷ 32 ∷ 32 ∷ 32 ∷ 32
    ∷ 103 ∷ 105 ∷ 100 ∷ 32 ∷ 32 ∷ 32 ∷ 32 ∷ 32 ∷ 32 ∷ 32 ∷ 32 ∷ 32 ∷ 32 ∷ 229 ∷ 164 ∷ 167 ∷ 229
    ∷ 176 ∷ 143 ∷ 32 ∷ 32 ∷ 32 ∷ 32 ∷ 230 ∷ 151 ∷ 165 ∷ 230 ∷ 156 ∷ 159 ∷ 32 ∷ 32 ∷ 32 ∷ 32 ∷ 32
    ∷ 32 ∷ 32 ∷ 230 ∷ 150 ∷ 135 ∷ 228 ∷ 187 ∷ 182 ∷ 229 ∷ 144 ∷ 141 ∷ 13 ∷ 10 ∷ []

unfoldable pub list_dir : FileSystem → Bytes → Option (List Bytes)
unfolding lines_of long_line
list_dir system path =
    cons_line (some heading)
      (from_entries system.entries (lines_of system (long_line system path) path))
