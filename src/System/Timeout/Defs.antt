-- ===== src/System/Timeout/Defs.antt =====
-- `activate_nonblock`, `deactivate_nonblock`, `detect_read_timeout`, `detect_write_timeout`,
-- `connect_with_timeout` and `accept_with_timeout` of socket/block_socket.cpp.
use mini_ftpd.Prelude.{
  ℕ, ◌+◌, ◌-◌, ◌/◌, ◌%◌, Bool, true, false, not, ◌&&◌, Option, none, some, ⊤, ltb, ◌==◌,
  if◌then◌else◌,
}
use mini_ftpd.Session.Address.{SockAddr}
use mini_ftpd.Program.{undefined, pure, stop, exit, ◌>>=◌, ◌>>◌}
use mini_ftpd.System.Calls.{Errno, in_progress, timed_out, other, Call, Answer, Proc, call}
use mini_ftpd.System.Retry.{until_done}

-- The bit `O_NONBLOCK` of a flag word, and `flag |= O_NONBLOCK` and `flag &= ~O_NONBLOCK`.
abbrev pub o_nonblock : ℕ
o_nonblock = 2048

abbrev pub is_nonblock : ℕ → Bool
is_nonblock flag = flag / o_nonblock % 2 == 1

unfoldable pub with_nonblock : ℕ → ℕ
with_nonblock flag = if is_nonblock flag then flag else flag + o_nonblock

unfoldable pub without_nonblock : ℕ → ℕ
without_nonblock flag = if is_nonblock flag then flag - o_nonblock else flag

unfoldable pub change_flags : (ℕ → ℕ) → ℕ → Proc ⊤
change_flags change fd = do
  old ← call (Call.get_flags fd)
  if old.ok
      then (do
        new ← call (Call.set_flags fd (change old.value))
        if new.ok then pure tt else exit 1)
      else exit 1

unfoldable pub activate_nonblock : ℕ → Proc ⊤
activate_nonblock fd = change_flags with_nonblock fd

unfoldable pub deactivate_nonblock : ℕ → Proc ⊤
deactivate_nonblock fd = change_flags without_nonblock fd

-- An `int` result of 0, or -1 with `errno`.
abbrev pub Status : Type 0
Status = Option Errno

abbrev pub success : Status
success = none

-- What `select` on one descriptor says: time is up, it is ready, or an error.
abbrev pub judge : Answer → Status
judge a =
    if a.ok
    then (if a.value == 0 then some timed_out else if a.value == 1 then success else some a.error)
    else some a.error

unfoldable pub detect_read_timeout : ℕ → ℕ → ℕ → Proc Status
detect_read_timeout rounds fd wait =
    if wait == 0
    then pure success
    else (do a ← until_done rounds (Call.select_read fd wait); pure (judge a))

unfoldable pub detect_write_timeout : ℕ → ℕ → ℕ → Proc Status
detect_write_timeout rounds fd wait =
    if wait == 0
    then pure success
    else (do a ← until_done rounds (Call.select_write fd wait); pure (judge a))

abbrev pub is_in_progress : Errno → Bool
is_in_progress in_progress = true
is_in_progress _ = false

-- `ret` of a call as the result.
abbrev pub status_of : Answer → Status
status_of a = if a.ok then success else some a.error

-- The socket is writable, which an error makes it too.
unfoldable pub read_socket_error : ℕ → Proc Status
read_socket_error fd = do
  e ← call (Call.socket_error fd)
  deactivate_nonblock fd
  pure (if e.ok then (if e.value == 0 then success else some (other e.value)) else some e.error)

-- `if (wait_seconds > 0) { ... }`.
unfoldable pub when_waiting : ℕ → Proc ⊤ → Proc ⊤
when_waiting wait p = if ltb 0 wait then p else pure tt

-- Behind `connect`, or behind a `select` that counts more than the one descriptor.
unfoldable pub finish_connect : ℕ → ℕ → Status → Proc Status
finish_connect fd wait status = do when_waiting wait (deactivate_nonblock fd); pure status

unfoldable pub await_connect : ℕ → ℕ → ℕ → Proc Status
await_connect rounds fd wait = do
  s ← until_done rounds (Call.select_write fd wait)
  if s.ok
      then (if s.value == 0
          then (do deactivate_nonblock fd; pure (some timed_out))
          else (if s.value == 1 then read_socket_error fd else finish_connect fd wait success))
      else (do deactivate_nonblock fd; pure (some s.error))

unfoldable pub connect_with_timeout : ℕ → ℕ → SockAddr → ℕ → Proc Status
connect_with_timeout rounds fd addr wait = do
  when_waiting wait (activate_nonblock fd)
  c ← call (Call.connect fd addr)
  if not c.ok && is_in_progress c.error
      then await_connect rounds fd wait
      else finish_connect fd wait (status_of c)

-- `accept`, with its descriptor or -1.
unfoldable pub accept_now : Option ℕ → Proc (Option ℕ)
accept_now listen_fd = do
  a ← call (Call.accept listen_fd)
  pure (if a.ok then some a.value else none)

unfoldable pub await_accept : ℕ → ℕ → ℕ → Proc (Option ℕ)
await_accept rounds fd wait = do
  s ← until_done rounds (Call.select_read fd wait)
  if s.ok then (if s.value == 0 then pure none else accept_now (some fd)) else pure none

-- `FD_SET` of -1 is undefined.
unfoldable pub accept_with_timeout : ℕ → Option ℕ → ℕ → Proc (Option ℕ)
accept_with_timeout rounds listen_fd wait =
    if wait == 0
    then accept_now listen_fd
    else elim listen_fd [ none ↦ stop undefined | some fd ↦ await_accept rounds fd wait ]
