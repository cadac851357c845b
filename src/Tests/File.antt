-- ===== src/Tests/File.antt =====
-- Runs of file/file_utility.cpp on a directory with a file and a link.
use mini_ftpd.Prelude.{◌<◌, ◌≡◌, refl, arith, some, List, [], ◌∷◌, length, All}
use mini_ftpd.Text.Bytes.{Bytes, codes}
use mini_ftpd.File.Perm.Defs.{perm}
use mini_ftpd.File.Perm.RoundTrip.{read_mode, read_mode-perm}
use mini_ftpd.File.Defs.{Stat, FileSystem, buffer_size, heading, list_dir}
use mini_ftpd.File.Bounds.{IsModest, found, list_dir-some}

-- rwsr-xr-x
read_mode-perm_example : read_mode (perm 35309) ≡ 35309
read_mode-perm_example = read_mode-perm 35309 refl (omega arith)

abbrev link : Stat
link = record { mode = 41471; nlink = 1; uid = 1000; gid = 1000; size = 5; mtime = 1645500000 }

abbrev names : List Bytes
names = codes "one" ∷ codes "two" ∷ []

abbrev system : FileSystem
system = record {
  entries = some names;
  lstat = λ p. some link;
  readlink = λ p. some (codes "there");
  now = λ p. 1645600000;
  strftime = λ format time. codes "Feb 23  2022";
}

system-IsModest : IsModest system
system-IsModest = record {
  names = λ ns e. let same : names ≡ ns = cc e in rw (← same) (omega arith, (omega arith, tt));
  targets = λ p t e. let same : codes "there" ≡ t = cc e in rw (← same) (omega arith);
  stats = λ p s e.
      let same : link ≡ s = cc e in
      rw (← same)
        record { nlink = omega arith; uid = omega arith; gid = omega arith; size = omega arith };
  dates = λ format time. omega arith;
}

list_dir-some_example :
    (lines : List Bytes) × (list_dir system (codes ".") ≡ some (heading ∷ lines))
    × (length lines ≡ length (found system system-IsModest (codes ".") names))
    × All (λ line. length line < buffer_size) lines
list_dir-some_example = list_dir-some system system-IsModest (codes ".")
