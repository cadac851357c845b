-- ===== src/Ftp/Account.antt =====
-- USER and PASS, with `set_permissions` of process/process_utility.cpp and `activate_SIGURG` of
-- socket/block_socket.cpp.
use mini_ftpd.Prelude.{ℕ, true, some, ⊤, if◌then◌else◌}
use mini_ftpd.Text.Bytes.{codes, str_eq}
use mini_ftpd.Ftp.Proc.{
  Call, Answer, Proc, pure, stop, exit, undefined, ◌>>=◌, ◌>>◌, case_option, call, get_session,
  get_config, put_session, reply,
}

unfoldable pub set_permissions : ℕ → ℕ → ℕ → Proc ⊤
set_permissions egid euid mask = do
  g ← call (Call.setegid egid)
  if g.ok
      then (do
        u ← call (Call.seteuid euid)
        if u.ok then (do call (Call.umask mask); pure tt) else exit 1)
      else exit 1

unfoldable pub activate_sigurg : ℕ → Proc ⊤
activate_sigurg fd = do a ← call (Call.own_sigurg fd); if a.ok then pure tt else exit 1

-- `getpwnam(session.arg)`.
unfoldable pub user_name : Proc ⊤
user_name = do
  s ← get_session
  pw ← call (Call.getpwnam s.arg)
  if pw.ok
      then (do
        reply (codes "331 Please specify the password.")
        put_session (record s { uid = some pw.value }))
      else reply (codes "530 Login incorrect.")

unfoldable pub handle_user : Proc ⊤
handle_user = do
  s ← get_session
  case_option s.uid user_name (λ _. reply (codes "530 Login incorrect, you are already logged in."))

-- Behind the comparison of the passwords.
unfoldable pub log_in : Answer → Proc ⊤
log_in pw = do
  s ← get_session
  config ← get_config
  set_permissions pw.group pw.value config.local_umask
  activate_sigurg s.control_fd
  reply (codes "230 Login successful.")
  put_session (record s { logged_in = true })

-- The checks of `handle_pass` for the user with this id. `strcmp` of a NULL is undefined.
unfoldable pub check_password : ℕ → Proc ⊤
check_password uid = do
  s ← get_session
  pw ← call (Call.getpwuid uid)
  if pw.ok
      then (do
        sp ← call (Call.getspnam pw.text)
        if sp.ok
            then (do
              encrypted ← call (Call.crypt s.arg sp.text)
              if encrypted.ok
                  then (if str_eq encrypted.text sp.text
                      then log_in pw
                      else reply (codes "530 Login incorrect."))
                  else stop undefined)
            else reply (codes "530 Login incorrect."))
      else reply (codes "530 Login incorrect.")

unfoldable pub handle_pass : Proc ⊤
handle_pass = do
  s ← get_session
  case_option s.uid (reply (codes "530 Use USER first.")) check_password
