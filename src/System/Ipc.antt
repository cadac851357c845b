-- ===== src/System/Ipc.antt =====
-- `create_socketpair`, `send_fd` and `recv_fd` of ipc/socket_ipc.cpp.
use mini_ftpd.Prelude.{ℕ, ◌&&◌, Option, none, some, ⊤, ◌==◌, if◌then◌else◌}
use mini_ftpd.Program.{pure, exit, ◌>>=◌}
use mini_ftpd.System.Calls.{Call, Proc, call}
use mini_ftpd.System.Create.Defs.{call_or_exit}

unfoldable pub create_socketpair : Proc (ℕ × ℕ)
create_socketpair = do a ← call_or_exit Call.socketpair; pure (a.value, a.second)

-- One byte, with the descriptor in the control data.
unfoldable pub send_fd : ℕ → ℕ → Proc ⊤
send_fd socket_fd fd = do
  a ← call (Call.send_rights socket_fd fd)
  if a.ok && a.value == 1 then pure tt else exit 1

-- The descriptor behind the control header; the memory for it holds -1 before the call.
unfoldable pub received : Option (Option ℕ) → Proc ℕ
received none = exit 1
received (some none) = exit 1
received (some (some fd)) = pure fd

unfoldable pub recv_fd : ℕ → Proc ℕ
recv_fd socket_fd = do
  a ← call (Call.recv_rights socket_fd)
  if a.ok && a.value == 1 then received a.rights else exit 1
