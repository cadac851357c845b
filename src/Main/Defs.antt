-- ===== src/Main/Defs.antt =====
-- `main` and `sigchld_handler` of main.cpp, `check_connection_limit` of connection_limit.cpp as it
-- ends the process, and `start_ftp_service` of ftp_protocol.cpp up to its two processes.
use mini_ftpd.Prelude.{
  ℕ, zero, suc, ◌+◌, ◌*◌, Bool, ◌&&◌, Option, none, some, [], ◌∷◌, length, ltb, ◌==◌, ⊤,
  if◌then◌else◌,
}
use mini_ftpd.Text.Bytes.{Bytes, codes}
use mini_ftpd.Config.Defs.{Config}
use mini_ftpd.Session.Address.{SockAddr, no_addr}
use mini_ftpd.Program.{
  done, undefined, unfinished, Program, pure, stop, exit, ◌>>=◌, ◌>>◌, case_option,
}
use mini_ftpd.System.Calls.{Call, Answer, Log, Env, Proc, call}
use mini_ftpd.System.Timeout.Defs.{accept_with_timeout}
use mini_ftpd.System.Create.Defs.{call_or_exit, create_server_or_exit, activate_out_of_band}
use mini_ftpd.System.Ipc.{create_socketpair}
use mini_ftpd.ConnectionLimit.Defs.{
  Tables, empty_tables, put, increase_connection, decrease_connection, Verdict, admitted,
  too_many_clients, too_many_of_ip, check_connection_limit,
}

-- The answers to the calls of one process, and how often SIGCHLD arrives behind the last of them.
pub record Kernel : Type 0 where
  pub answers : Env
  pub sigchld : Log → ℕ

pub record MainState : Type 0 where
  pub tables : Tables
  pub log : Log

abbrev pub initial : MainState
initial = record { tables = empty_tables; log = [] }

abbrev pub MainProc : Type 0 → Type 0
MainProc = Program Kernel MainState

-- Functions that leave the tables alone.
unfoldable pub calls : {A : Type 0} → Proc A → MainProc A
calls p k s = let (o, log) = p k.answers s.log in (o, record s { log = log })

unfoldable pub get_state : MainProc MainState
get_state k s = (done s, s)

unfoldable pub put_tables : Tables → MainProc ⊤
put_tables t k s = (done tt, record s { tables = t })

-- `decrease_connection(pid)`.
unfoldable pub reap_child : ℕ → MainProc ⊤
reap_child pid = do
  s ← get_state
  case_option (decrease_connection pid s.tables) (stop undefined) put_tables

-- waitpid(...) > 0
abbrev pub has_reaped : Answer → Bool
has_reaped a = a.ok && ltb 0 a.value

-- One round for each child that is waited for.
unfoldable pub sigchld_handler : ℕ → MainProc ⊤
sigchld_handler zero = stop unfinished
sigchld_handler (suc n) =
    let rest = sigchld_handler n in
    calls (call Call.waitpid) >>= λ a. if has_reaped a then reap_child a.value >> rest else pure tt

-- There are no more children than events so far.
unfoldable pub handle_signal : MainProc ⊤
handle_signal = do s ← get_state; sigchld_handler (suc (length s.log))

unfoldable pub handle_signals : ℕ → MainProc ⊤
handle_signals zero = pure tt
handle_signals (suc n) = handle_signal >> handle_signals n

-- The signals that arrive behind the last call.
unfoldable pub take_signals : MainProc ⊤
take_signals k s = handle_signals (k.sigchld s.log) k s

-- `client_addr`, as `accept` has filled it in.
abbrev pub client_addr : Log → SockAddr
client_addr [] = no_addr
client_addr (e ∷ log) = e.answer.addr

-- `sin_addr.s_addr`, on a machine with the low byte first.
abbrev pub s_addr : SockAddr → ℕ
s_addr a = a.addr0 + 256 * (a.addr1 + 256 * (a.addr2 + 256 * a.addr3))

abbrev pub refusal : Verdict → Option Bytes
refusal admitted = none
refusal too_many_clients =
    some (codes "421 There are too many connected users. please try later.\r\n")
refusal too_many_of_ip =
    some (codes "421 There are too many connections from your internet address.\r\n")

-- `check_connection_limit`: a refused client gets its 421, and the process exits.
unfoldable pub check_client : Config → ℕ → ℕ → MainProc ⊤
check_client config conn_fd ip = do
  s ← get_state
  case_option (refusal (check_connection_limit config ip s.tables)) (pure tt)
      (λ text. (do calls (call (Call.write_text conn_fd text)); exit 0))

-- How a process comes out of a round: it accepts clients, or it goes on to `start_ftp_service`.
pub data Role : Type 0 where
  master : Role
  service : ℕ → Role

-- `pid == 0`.
unfoldable pub serve_child : Config → ℕ → ℕ → ℕ → MainProc Role
serve_child config listen_fd conn_fd ip = do
  check_client config conn_fd ip
  calls (call_or_exit Call.ignore_sigchld)
  calls (call (Call.close (some listen_fd)))
  pure (service conn_fd)

-- `pid2ip[pid] = ip`.
unfoldable pub register_child : ℕ → ℕ → MainProc ⊤
register_child pid ip = do
  s ← get_state
  put_tables (record s.tables { pid2ip = put pid ip s.tables.pid2ip })

-- The parent behind `fork`.
unfoldable pub leave_child : ℕ → ℕ → ℕ → MainProc Role
leave_child pid ip conn_fd = do
  take_signals
  register_child pid ip
  calls (call (Call.close (some conn_fd)))
  take_signals
  pure master

-- `fork` returns in both processes.
unfoldable pub after_fork : Config → ℕ → ℕ → ℕ → ℕ → MainProc Role
after_fork config listen_fd conn_fd ip pid =
    if pid == 0 then serve_child config listen_fd conn_fd ip else leave_child pid ip conn_fd

-- From `increase_connection` on.
unfoldable pub fork_child : Config → ℕ → ℕ → ℕ → MainProc Role
fork_child config listen_fd conn_fd ip = do
  s ← get_state
  put_tables (increase_connection ip s.tables)
  f ← calls (call_or_exit Call.fork)
  after_fork config listen_fd conn_fd ip f.value

-- Without a time to wait, `accept_with_timeout` makes no other call than `accept`.
unfoldable pub main_round : Config → ℕ → MainProc Role
main_round config listen_fd = do
  c ← calls (accept_with_timeout 0 (some listen_fd) 0)
  s ← get_state
  case_option c (exit 1) (λ conn_fd. (do
    take_signals
    fork_child config listen_fd conn_fd (s_addr (client_addr s.log))))

-- The first `n` rounds of the parent.
unfoldable pub main_loop : ℕ → Config → ℕ → MainProc Role
main_loop zero config listen_fd = pure master
main_loop (suc n) config listen_fd = main_round config listen_fd >>= λ role. elim role [
  | master ↦ main_loop n config listen_fd
  | service conn_fd ↦ pure (service conn_fd)
]

unfoldable pub main : ℕ → Config → MainProc Role
main n config = do
  uid ← calls (call Call.getuid)
  if uid.value == 0
      then (do
        calls (call_or_exit Call.catch_sigchld)
        listen_fd ← calls (create_server_or_exit (some config.listen_address) config.listen_port)
        main_loop n config listen_fd)
      else exit 1

-- The two processes of a client, with the ends of the socket pair.
pub data ServiceRole : Type 0 where
  ftp_process : ℕ → ℕ → ServiceRole
  nobody_process : ℕ → ℕ → ServiceRole

-- `start_ftp_service` up to the greeting, and up to the first call of `start_nobody`.
unfoldable pub prepare_service : ℕ → Proc ServiceRole
prepare_service conn_fd = do
  activate_out_of_band conn_fd
  fds ← create_socketpair
  f ← call_or_exit Call.fork
  if f.value == 0
      then (do call (Call.close (some fds.0)); pure (ftp_process conn_fd fds.1))
      else pure (nobody_process fds.0 fds.1)
