-- ===== src/System/Nobody/Defs.antt =====
-- `connect_in_actv`, `listen_in_pasv`, `accept_in_pasv` and the loop of the nobody process in
-- `start_ftp_service`, with `create_nobody_process` of process/process_utility.cpp.
use mini_ftpd.Prelude.{ℕ, zero, suc, Option, none, some, ⊤, ◌==◌, if◌then◌else◌}
use mini_ftpd.Text.Bytes.{codes}
use mini_ftpd.Config.Defs.{Config}
use mini_ftpd.Program.{unfinished, pure, stop, exit, ◌>>=◌, ◌>>◌, case_option}
use mini_ftpd.Ftp.Data.{connect_in_actv, accept_in_pasv, listen_in_pasv, result_ok, result_bad}
use mini_ftpd.System.Calls.{CapData, Call, Proc, call}
use mini_ftpd.System.Timeout.Defs.{Status, connect_with_timeout, accept_with_timeout}
use mini_ftpd.System.Create.Defs.{
  call_or_exit, port_of, create_client, create_server_or_exit, get_local_addr,
}
use mini_ftpd.System.Ipc.{send_fd}

-- 1 << CAP_NET_BIND_SERVICE
abbrev pub net_bind_service : ℕ
net_bind_service = 1024

-- `cap_data`: the right to bind low ports, effective and permitted.
abbrev pub cap_data : CapData
cap_data = record { effective = net_bind_service; permitted = net_bind_service; inheritable = 0 }

-- The group first. `capset` by its version 3 reads two structures, for the rights 0 to 31 and for
-- those from 32 on. The source has one: the second is `memory`, what lies behind it on the stack.
unfoldable pub create_nobody_process : CapData → Proc ⊤
create_nobody_process memory = do
  pw ← call_or_exit (Call.getpwnam (codes "nobody"))
  call_or_exit (Call.setegid pw.second)
  call_or_exit (Call.seteuid pw.value)
  call_or_exit (Call.capset cap_data memory)
  pure tt

unfoldable pub send_result : ℕ → ℕ → Proc ⊤
send_result pic_fd result = do call (Call.send_char pic_fd result); pure tt

-- The data connection is handed over, and closed here.
unfoldable pub hand_over : ℕ → ℕ → Proc ⊤
hand_over pic_fd fd = do send_result pic_fd result_ok; send_fd pic_fd fd

-- Behind `connect_with_timeout`.
unfoldable pub report_connect : ℕ → ℕ → Status → Proc ⊤
report_connect pic_fd fd status =
    case_option status (do hand_over pic_fd fd; call (Call.close (some fd)); pure tt)
      (λ _. (do call (Call.close (some fd)); send_result pic_fd result_bad))

-- `recv_buf` exits where no address comes.
unfoldable pub connect_client : ℕ → Config → ℕ → ℕ → Proc ⊤
connect_client rounds config pic_fd fd = do
  a ← call_or_exit (Call.recv_addr pic_fd)
  status ← connect_with_timeout rounds fd a.addr config.connect_timeout
  report_connect pic_fd fd status

-- Where no socket can be made, the result goes out before the address is read.
unfoldable pub serve_connect : ℕ → Config → ℕ → Proc ⊤
serve_connect rounds config pic_fd = do
  c ← create_client config.listen_address 20
  case_option c (send_result pic_fd result_bad) (connect_client rounds config pic_fd)

-- The new `pasv_listen_fd`.
unfoldable pub serve_listen : Config → ℕ → Proc (Option ℕ)
serve_listen config pic_fd = do
  fd ← create_server_or_exit (some config.listen_address) 0
  addr ← get_local_addr fd
  call (Call.write_port pic_fd (port_of addr))
  pure (some fd)

unfoldable pub serve_accept : ℕ → Config → ℕ → Option ℕ → Proc ⊤
serve_accept rounds config pic_fd listen_fd = do
  c ← accept_with_timeout rounds listen_fd config.accept_timeout
  case_option c (send_result pic_fd result_bad) λ fd.
      hand_over pic_fd fd
      >> (call (Call.close listen_fd) >> (call (Call.close (some fd)) >> pure tt))

-- The `switch`: it leaves the `pasv_listen_fd` behind it.
unfoldable pub serve_request : ℕ → Config → ℕ → Option ℕ → ℕ → Proc (Option ℕ)
serve_request rounds config pic_fd listen_fd cmd =
    if cmd == connect_in_actv
    then (do serve_connect rounds config pic_fd; pure listen_fd)
    else if cmd == listen_in_pasv
    then serve_listen config pic_fd
    else if cmd == accept_in_pasv
    then (do serve_accept rounds config pic_fd listen_fd; pure listen_fd)
    else pure listen_fd

unfoldable pub serve_nobody_round : ℕ → Config → ℕ → Option ℕ → Proc (Option ℕ)
serve_nobody_round rounds config pic_fd listen_fd = do
  cmd ← call (Call.get_char pic_fd)
  if cmd.value == 0 then exit 0 else serve_request rounds config pic_fd listen_fd cmd.value

-- The first `n` rounds.
unfoldable pub serve_nobody : ℕ → ℕ → Config → ℕ → Option ℕ → Proc ⊤
serve_nobody zero rounds config pic_fd listen_fd = stop unfinished
serve_nobody (suc n) rounds config pic_fd listen_fd =
    serve_nobody_round rounds config pic_fd listen_fd >>= λ fd.
    serve_nobody n rounds config pic_fd fd

-- The parent behind the fork, with its end of the socket pair and the other one.
unfoldable pub start_nobody : CapData → ℕ → ℕ → Config → ℕ → ℕ → Proc ⊤
start_nobody memory n rounds config pic_fd ftp_fd = do
  call (Call.close (some ftp_fd))
  create_nobody_process memory
  serve_nobody n rounds config pic_fd none
