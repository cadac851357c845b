-- ===== src/System/Nobody/Keeps.antt =====
-- What the nobody process of ftp_protocol.cpp keeps of its log.
use mini_ftpd.Prelude.{ℕ, zero, suc, Option, none, some, ⊤, ◌==◌}
use mini_ftpd.Text.Bytes.{Bytes}
use mini_ftpd.Config.Defs.{Config}
use mini_ftpd.Session.Address.{SockAddr}
use mini_ftpd.Program.{unfinished, undefined}
use mini_ftpd.System.Calls.{Call, Log, Proc}
use mini_ftpd.System.Timeout.Defs.{Status}
use mini_ftpd.System.Keeps.{Keeps, OfLog, keeps_rules, Keeps-stop, Keeps-if, Keeps-bind}
use mini_ftpd.System.Create.Defs.{
  call_or_exit, bind_client, create_client, host_addr, create_server_or_exit, get_local_addr,
}
use mini_ftpd.System.Ipc.{send_fd}
use mini_ftpd.System.Timeout.Defs.{
  change_flags, activate_nonblock, deactivate_nonblock, read_socket_error, when_waiting,
  finish_connect, await_connect, connect_with_timeout, accept_now, await_accept,
  accept_with_timeout,
}
use mini_ftpd.System.Nobody.Defs.{
  send_result, hand_over, report_connect, connect_client, serve_connect, serve_listen, serve_accept,
  serve_request, serve_nobody_round,
}
use mini_ftpd.System.Nobody.Defs.{serve_nobody}

module _ {P : Log → Type 0} (l : OfLog P) where
  pub Keeps-call_or_exit : (c : Call) → Keeps P (call_or_exit c)
  unfolding call_or_exit
  Keeps-call_or_exit c = search keeps_rules depth 30

  Keeps-bind_client : (fd : ℕ) (ip : Bytes) (port : ℕ) → Keeps P (bind_client fd ip port)
  unfolding bind_client
  Keeps-bind_client fd ip port = search keeps_rules depth 30

  Keeps-create_client : (ip : Bytes) (port : ℕ) → Keeps P (create_client ip port)
  unfolding create_client
  Keeps-create_client ip port = search (keeps_rules, Keeps-bind_client) depth 30

  Keeps-host_addr : (host : Option Bytes) → Keeps P (host_addr host)
  unfolding host_addr
  Keeps-host_addr host = search (keeps_rules, Keeps-call_or_exit) depth 30

  Keeps-create_server_or_exit :
      (host : Option Bytes) (port : ℕ) → Keeps P (create_server_or_exit host port)
  unfolding create_server_or_exit
  Keeps-create_server_or_exit host port =
      search (keeps_rules, Keeps-call_or_exit, Keeps-host_addr) depth 30

  Keeps-get_local_addr : (fd : ℕ) → Keeps P (get_local_addr fd)
  unfolding get_local_addr
  Keeps-get_local_addr fd = search (keeps_rules, Keeps-call_or_exit) depth 30

  Keeps-send_fd : (pic_fd fd : ℕ) → Keeps P (send_fd pic_fd fd)
  unfolding send_fd
  Keeps-send_fd pic_fd fd = search keeps_rules depth 30

  Keeps-change_flags : (change : ℕ → ℕ) (fd : ℕ) → Keeps P (change_flags change fd)
  unfolding change_flags
  Keeps-change_flags change fd = search keeps_rules depth 30

  Keeps-activate_nonblock : (fd : ℕ) → Keeps P (activate_nonblock fd)
  unfolding activate_nonblock
  Keeps-activate_nonblock fd = search (keeps_rules, Keeps-change_flags) depth 30

  Keeps-deactivate_nonblock : (fd : ℕ) → Keeps P (deactivate_nonblock fd)
  unfolding deactivate_nonblock
  Keeps-deactivate_nonblock fd = search (keeps_rules, Keeps-change_flags) depth 30

  Keeps-read_socket_error : (fd : ℕ) → Keeps P (read_socket_error fd)
  unfolding read_socket_error
  Keeps-read_socket_error fd = search (keeps_rules, Keeps-deactivate_nonblock) depth 30

  Keeps-when_waiting : (wait : ℕ) (p : Proc ⊤) → Keeps P p → Keeps P (when_waiting wait p)
  unfolding when_waiting
  Keeps-when_waiting wait p k = search keeps_rules depth 20

  Keeps-finish_connect : (fd wait : ℕ) (s : Status) → Keeps P (finish_connect fd wait s)
  unfolding finish_connect
  Keeps-finish_connect fd wait s =
      search (keeps_rules, Keeps-when_waiting, Keeps-deactivate_nonblock) depth 30

  Keeps-await_connect : (rounds fd wait : ℕ) → Keeps P (await_connect rounds fd wait)
  unfolding await_connect
  Keeps-await_connect rounds fd wait =
      search (keeps_rules, Keeps-deactivate_nonblock, Keeps-read_socket_error, Keeps-finish_connect)
        depth 30

  Keeps-connect_with_timeout :
      (rounds fd : ℕ) (addr : SockAddr) (wait : ℕ)
      → Keeps P (connect_with_timeout rounds fd addr wait)
  unfolding connect_with_timeout
  Keeps-connect_with_timeout rounds fd addr wait =
      search
        (
          keeps_rules, Keeps-when_waiting, Keeps-activate_nonblock, Keeps-await_connect,
          Keeps-finish_connect,
        )
        depth 30

  Keeps-accept_now : (listen_fd : Option ℕ) → Keeps P (accept_now listen_fd)
  unfolding accept_now
  Keeps-accept_now listen_fd = search keeps_rules depth 30

  Keeps-await_accept : (rounds fd wait : ℕ) → Keeps P (await_accept rounds fd wait)
  unfolding await_accept
  Keeps-await_accept rounds fd wait = search (keeps_rules, Keeps-accept_now) depth 30

  Keeps-accept_with_timeout :
      (rounds : ℕ) (listen_fd : Option ℕ) (wait : ℕ)
      → Keeps P (accept_with_timeout rounds listen_fd wait)
  unfolding accept_with_timeout
  Keeps-accept_with_timeout rounds none wait =
      Keeps-if (wait == 0) _ _ (Keeps-accept_now none) (Keeps-stop undefined)
  Keeps-accept_with_timeout rounds (some fd) wait =
      Keeps-if (wait == 0) _ _ (Keeps-accept_now (some fd)) (Keeps-await_accept rounds fd wait)

  Keeps-send_result : (pic_fd result : ℕ) → Keeps P (send_result pic_fd result)
  unfolding send_result
  Keeps-send_result pic_fd result = search keeps_rules depth 30

  Keeps-hand_over : (pic_fd fd : ℕ) → Keeps P (hand_over pic_fd fd)
  unfolding hand_over
  Keeps-hand_over pic_fd fd = search (keeps_rules, Keeps-send_result, Keeps-send_fd) depth 30

  Keeps-report_connect : (pic_fd fd : ℕ) (s : Status) → Keeps P (report_connect pic_fd fd s)
  unfolding report_connect
  Keeps-report_connect pic_fd fd s =
      search (keeps_rules, Keeps-hand_over, Keeps-send_result) depth 30

  Keeps-connect_client :
      (rounds : ℕ) (config : Config) (pic_fd fd : ℕ)
      → Keeps P (connect_client rounds config pic_fd fd)
  unfolding connect_client
  Keeps-connect_client rounds config pic_fd fd =
      search (keeps_rules, Keeps-call_or_exit, Keeps-connect_with_timeout, Keeps-report_connect)
        depth 30

  Keeps-serve_connect :
      (rounds : ℕ) (config : Config) (pic_fd : ℕ) → Keeps P (serve_connect rounds config pic_fd)
  unfolding serve_connect
  Keeps-serve_connect rounds config pic_fd =
      search (keeps_rules, Keeps-create_client, Keeps-send_result, Keeps-connect_client) depth 30

  Keeps-serve_listen : (config : Config) (pic_fd : ℕ) → Keeps P (serve_listen config pic_fd)
  unfolding serve_listen
  Keeps-serve_listen config pic_fd =
      search (keeps_rules, Keeps-create_server_or_exit, Keeps-get_local_addr) depth 30

  Keeps-serve_accept :
      (rounds : ℕ) (config : Config) (pic_fd : ℕ) (listen_fd : Option ℕ)
      → Keeps P (serve_accept rounds config pic_fd listen_fd)
  unfolding serve_accept
  Keeps-serve_accept rounds config pic_fd listen_fd =
      search (keeps_rules, Keeps-accept_with_timeout, Keeps-send_result, Keeps-hand_over) depth 30

  Keeps-serve_request :
      (rounds : ℕ) (config : Config) (pic_fd : ℕ) (listen_fd : Option ℕ) (cmd : ℕ)
      → Keeps P (serve_request rounds config pic_fd listen_fd cmd)
  unfolding serve_request
  Keeps-serve_request rounds config pic_fd listen_fd cmd =
      search (keeps_rules, Keeps-serve_connect, Keeps-serve_listen, Keeps-serve_accept) depth 30

  Keeps-serve_nobody_round :
      (rounds : ℕ) (config : Config) (pic_fd : ℕ) (listen_fd : Option ℕ)
      → Keeps P (serve_nobody_round rounds config pic_fd listen_fd)
  unfolding serve_nobody_round
  Keeps-serve_nobody_round rounds config pic_fd listen_fd =
      search (keeps_rules, Keeps-serve_request) depth 30

  pub Keeps-serve_nobody :
      (n rounds : ℕ) (config : Config) (pic_fd : ℕ) (listen_fd : Option ℕ)
      → Keeps P (serve_nobody n rounds config pic_fd listen_fd)
  unfolding serve_nobody
  Keeps-serve_nobody zero rounds config pic_fd listen_fd = Keeps-stop unfinished
  Keeps-serve_nobody (suc n) rounds config pic_fd listen_fd =
      Keeps-bind _ _ (Keeps-serve_nobody_round rounds config pic_fd listen_fd)
        λ fd. Keeps-serve_nobody n rounds config pic_fd fd
