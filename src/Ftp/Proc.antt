-- ===== src/Ftp/Proc.antt =====
-- The ftp process as a program over its calls. A call leaves an event in the log, and the
-- environment answers it from what has happened so far.
use mini_ftpd.Prelude.{ℕ, ◌-◌, take, Bool, Option, some, List, [], ◌∷◌, ◌++◌, ⊤}
use mini_ftpd.Prelude.Int.{ℤ}
pub use mini_ftpd.Program.{Outcome, done, exited, aborted, undefined, unfinished, Program}
unfoldable pub use mini_ftpd.Program.{pure, stop, exit, go_on, ◌>>=◌, ◌>>◌, case_option}
use mini_ftpd.Text.Bytes.{Bytes}
use mini_ftpd.Config.Defs.{Config}
use mini_ftpd.Session.Address.{SockAddr}
use mini_ftpd.Session.Defs.{Session}

-- A descriptor; `none` is -1.
abbrev pub Fd : Type 0
Fd = Option ℕ

-- The calls that ftp_protocol.cpp makes outside session.cpp and itself: of the other files
-- (`write_n`, `readline`, `send_char`, `get_char`, `send_buf`, `read_n`, `recv_fd`, the locks, the
-- timeouts, the listings, the speed limit) and of the system.
pub data Call : Type 0 where
  write_n : Fd → Bytes → Call
  readline : ℕ → Call
  send_char : ℕ → ℕ → Call
  get_char : ℕ → Call
  send_addr : ℕ → SockAddr → Call
  read_port : ℕ → Call
  recv_fd : ℕ → Call
  close : Fd → Call
  shutdown : Fd → Call
  alarm : ℕ → Call
  open_read open_write : Bytes → Call
  fstat : ℕ → Call
  lock_read lock_write : ℕ → Call
  lseek : ℕ → ℤ → Call
  lseek_end : ℕ → Call
  ftruncate : ℕ → Call
  write_timeout read_timeout : Fd → ℕ → Call
  sendfile : Fd → ℕ → ℕ → Call
  read_data : Fd → Call
  write_file : ℕ → Bytes → Call
  start_clock : Call
  limit_speed : ℕ → Bool → Call
  list_dir list_neat_dir : Call
  stat : Bytes → Call
  getcwd : Call
  chdir mkdir unlink rmdir : Bytes → Call
  rename : Bytes → Bytes → Call
  chmod : Bytes → ℕ → Call
  umask : ℕ → Call
  getpwnam getspnam : Bytes → Call
  getpwuid : ℕ → Call
  crypt : Bytes → Bytes → Call
  setegid seteuid : ℕ → Call
  own_sigurg : ℕ → Call

-- The answer to a call. `ok` is false for -1 and for NULL. `value` is a count, a character, a port,
-- a size or a user id, `group` a group id, `regular` is `S_ISREG`, `expired` is `ETIMEDOUT` and, for `readline`, SIGALRM, `retry`
-- is `EINTR`, `text` and `texts` are the strings. `urgent` says that SIGURG arrives with the return.
pub record Answer : Type 0 where
  pub ok : Bool
  pub value : ℕ
  pub group : ℕ
  pub regular : Bool
  pub expired : Bool
  pub retry : Bool
  pub urgent : Bool
  pub text : Bytes
  pub texts : List Bytes

pub record Event : Type 0 where
  pub call : Call
  pub answer : Answer

abbrev pub Env : Type 0
Env = List Event → Call → Answer

-- The log has the last event first.
pub record Machine : Type 0 where
  pub session : Session
  pub config : Config
  pub log : List Event

abbrev pub Proc : Type 0 → Type 0
Proc = Program Env Machine

unfoldable pub call : Call → Proc Answer
call c env m =
    let a = env m.log c in (done a, record m { log = record { call = c; answer = a } ∷ m.log })

unfoldable pub get_session : Proc Session
get_session env m = (done m.session, m)

unfoldable pub get_config : Proc Config
get_config env m = (done m.config, m)

unfoldable pub put_session : Session → Proc ⊤
put_session s env m = (done tt, record m { session = s })

unfoldable pub put_config : Config → Proc ⊤
put_config c env m = (done tt, record m { config = c })

-- A text with \r\n behind it.
abbrev pub crlf : Bytes → Bytes
crlf t = t ++ 13 ∷ 10 ∷ []

-- `write_n(session.control_fd, text)`, whose result is not looked at.
unfoldable pub reply : Bytes → Proc ⊤
reply t = do s ← get_session; call (write_n (some s.control_fd) (crlf t)); pure tt

-- The same from a buffer of `size` bytes that `snprintf` has filled: a longer text is cut.
unfoldable pub reply_buffer : ℕ → Bytes → Proc ⊤
reply_buffer size t = do
  s ← get_session
  call (write_n (some s.control_fd) (take (size - 1) (crlf t)))
  pure tt
