-- ===== src/System/Calls.antt =====
-- System calls, and programs over them. A call leaves an event in the log, and the environment
-- answers it from what has happened so far.
use mini_ftpd.Prelude.{ℕ, Bool, Option, List, ◌∷◌}
use mini_ftpd.Text.Bytes.{Bytes}
use mini_ftpd.Session.Address.{SockAddr}
use mini_ftpd.Program.{done, Program}

-- `errno`, as far as the code looks at it.
pub data Errno : Type 0 where
  interrupted in_progress timed_out : Errno
  other : ℕ → Errno

pub data Lock : Type 0 where
  read_lock write_lock : Lock

-- `__user_cap_data_struct`: 32 rights by their bits.
pub record CapData : Type 0 where
  pub effective : ℕ
  pub permitted : ℕ
  pub inheritable : ℕ

-- `get_char` to `write_port` are those of socket/block_socket.cpp between the two processes (Socket/Message),
-- with `write_n` of the two bytes of a port; `write_text` is its overload for a text.
pub data Call : Type 0 where
  socket : Call
  reuse_addr out_of_band_inline : ℕ → Call
  bind connect : ℕ → SockAddr → Call
  listen : ℕ → Call
  accept : Option ℕ → Call
  select_read select_write : ℕ → ℕ → Call
  socket_error : ℕ → Call
  get_flags : ℕ → Call
  set_flags : ℕ → ℕ → Call
  getsockname getpeername : ℕ → Call
  inet_aton inet_addr : Bytes → Call
  gethostname : Call
  gethostbyname : Bytes → Call
  interface_address : ℕ → Call
  close : Option ℕ → Call
  socketpair : Call
  send_rights : ℕ → ℕ → Call
  recv_rights : ℕ → Call
  set_lock_wait : ℕ → Lock → Call
  set_lock : ℕ → Lock → Call
  getpwnam : Bytes → Call
  setegid seteuid : ℕ → Call
  capset : CapData → CapData → Call
  nanosleep : ℕ → ℕ → Call
  gettimeofday : Call
  get_char : ℕ → Call
  send_char : ℕ → ℕ → Call
  recv_addr : ℕ → Call
  write_port : ℕ → ℕ → Call
  getuid fork waitpid : Call
  catch_sigchld ignore_sigchld : Call
  write_text : ℕ → Bytes → Call

-- The answer to a call. `ok` is false for -1, for NULL and for the 0 of `inet_aton`; then `error`
-- is `errno`. `value` is a descriptor, a count, a flag word, a character, a user id, the number of a process (0 for
-- the child of `fork`, and where `waitpid` finds none) or an error
-- number, and `second` the second of two, such as a group id; both are the
-- time that is left of an interrupted `nanosleep`. `rights` is the descriptor in the
-- control data of `recvmsg`: none without a header, `some none` for -1.
pub record Answer : Type 0 where
  pub ok : Bool
  pub value : ℕ
  pub second : ℕ
  pub error : Errno
  pub addr : SockAddr
  pub text : Bytes
  pub rights : Option (Option ℕ)

pub record Event : Type 0 where
  pub call : Call
  pub answer : Answer

-- The last event first.
abbrev pub Log : Type 0
Log = List Event

abbrev pub Env : Type 0
Env = Log → Call → Answer

abbrev pub Proc : Type 0 → Type 0
Proc = Program Env Log

unfoldable pub call : Call → Proc Answer
call c env log = let a = env log c in (done a, record { call = c; answer = a } ∷ log)
