-- ===== src/Ftp/Gate/Defs.antt =====
-- What the log says of the login: the account, the password that `crypt` has confirmed, the change to
-- the group and the user of the account, and the calls that only the user may make.
use mini_ftpd.Prelude.{ℕ, Bool, true, false, List, [], ◌∷◌, ⊤, ◌≡◌}
use mini_ftpd.Text.Bytes.{Bytes, str_eq}
use mini_ftpd.Ftp.Proc.{Call, Answer, Event, Machine}

-- The calls on files and directories.
unfoldable pub touches_files : Call → Bool
touches_files (Call.open_read path) = true
touches_files (Call.open_write path) = true
touches_files (Call.fstat fd) = true
touches_files (Call.lseek fd offset) = true
touches_files (Call.lseek_end fd) = true
touches_files (Call.ftruncate fd) = true
touches_files (Call.sendfile fd file_fd n) = true
touches_files (Call.write_file fd bytes) = true
touches_files Call.list_dir = true
touches_files Call.list_neat_dir = true
touches_files (Call.stat path) = true
touches_files Call.getcwd = true
touches_files (Call.chdir path) = true
touches_files (Call.mkdir path) = true
touches_files (Call.unlink path) = true
touches_files (Call.rmdir path) = true
touches_files (Call.rename path to) = true
touches_files (Call.chmod path mode) = true
touches_files _ = false

-- The log holds a login: `getpwuid` has found an account and `getspnam` its hash, `crypt` of a
-- password with that hash has given the hash back, and the process has then taken the group and, behind
-- it, the user of this account, each call with success and with no other call in between.
pub data HasLogin : List Event → Type 0 where
  now :
      (uid : ℕ) (password : Bytes) (pw sp encrypted g u : Answer) (log : List Event)
      → pw.ok ≡ true
      → sp.ok ≡ true
      → encrypted.ok ≡ true
      → str_eq encrypted.text sp.text ≡ true
      → g.ok ≡ true
      → u.ok ≡ true
      → HasLogin (
          record { call = Call.seteuid pw.value; answer = u }
          ∷ record { call = Call.setegid pw.group; answer = g }
          ∷ record { call = Call.crypt password sp.text; answer = encrypted }
          ∷ record { call = Call.getspnam pw.text; answer = sp }
          ∷ record { call = Call.getpwuid uid; answer = pw }
          ∷ log)
  later : (e : Event) (log : List Event) → HasLogin log → HasLogin (e ∷ log)

-- Every call on files has a login before it.
unfoldable pub Gated : List Event → Type 0
unfolding touches_files
Gated [] = ⊤
Gated (e ∷ log) = (touches_files e.call ≡ true → HasLogin log) × Gated log

pub record IsSafe (m : Machine) : Type 0 where
  pub gated : Gated m.log
  pub logged_in : m.session.logged_in ≡ true → HasLogin m.log
