-- ===== src/System/Nobody/Ends.antt =====
-- Rules for the ends of the requests to the nobody process of ftp_protocol.cpp.
use mini_ftpd.Prelude.{ℕ, ◌<◌, Option, some}
use mini_ftpd.Text.Bytes.{Bytes}
use mini_ftpd.Config.Defs.{Config}
use mini_ftpd.Program.{◌>>◌}
use mini_ftpd.Program.Settles.{Settles, Settles-pure, Settles-bind, Settles-case_option}
use mini_ftpd.Ftp.Data.{result_bad}
use mini_ftpd.System.Calls.{Call, Env, Proc, call}
use mini_ftpd.System.Retry.{settle_rules, IsCalm, Settles-call}
use mini_ftpd.System.Timeout.Defs.{Status}
use mini_ftpd.System.Timeout.Ends.{connect_with_timeout-Settles, accept_with_timeout-Settles}
use mini_ftpd.System.Create.Defs.{
  call_or_exit, bind_client, create_client, host_addr, create_server_or_exit, get_local_addr,
}
use mini_ftpd.System.Ipc.{send_fd}
use mini_ftpd.System.Nobody.Defs.{
  send_result, hand_over, report_connect, connect_client, serve_connect, serve_listen, serve_accept,
}

module _ {env : Env} where
  -- The result is not looked at.
  call_and : {A : Type 0} (c : Call) (p : Proc A) → Settles env p → Settles env (call c >> p)
  call_and c p k = Settles-bind (call c) _ (Settles-call c) λ _. k

  call_or_exit-Settles : (c : Call) → Settles env (call_or_exit c)
  unfolding call_or_exit
  call_or_exit-Settles c = search settle_rules depth 30

  bind_client-Settles : (fd : ℕ) (ip : Bytes) (port : ℕ) → Settles env (bind_client fd ip port)
  unfolding bind_client
  bind_client-Settles fd ip port = search settle_rules depth 30

  create_client-Settles : (ip : Bytes) (port : ℕ) → Settles env (create_client ip port)
  unfolding create_client
  create_client-Settles ip port = search (settle_rules, bind_client-Settles) depth 30

  host_addr-Settles : (host : Option Bytes) → Settles env (host_addr host)
  unfolding host_addr
  host_addr-Settles host = search (settle_rules, call_or_exit-Settles) depth 30

  pub create_server_or_exit-Settles :
      (host : Option Bytes) (port : ℕ) → Settles env (create_server_or_exit host port)
  unfolding create_server_or_exit
  create_server_or_exit-Settles host port =
      search (settle_rules, call_or_exit-Settles, host_addr-Settles) depth 30

  send_fd-Settles : (pic_fd fd : ℕ) → Settles env (send_fd pic_fd fd)
  unfolding send_fd
  send_fd-Settles pic_fd fd = search settle_rules depth 30

  send_result-Settles : (pic_fd result : ℕ) → Settles env (send_result pic_fd result)
  unfolding send_result
  send_result-Settles pic_fd result = search settle_rules depth 30

  hand_over-Settles : (pic_fd fd : ℕ) → Settles env (hand_over pic_fd fd)
  unfolding hand_over
  hand_over-Settles pic_fd fd = search (settle_rules, send_result-Settles, send_fd-Settles) depth 30

  report_connect-Settles : (pic_fd fd : ℕ) (s : Status) → Settles env (report_connect pic_fd fd s)
  unfolding report_connect
  report_connect-Settles pic_fd fd s =
      search (settle_rules, hand_over-Settles, send_result-Settles) depth 30

  pub serve_listen-Settles :
      (config : Config) (pic_fd : ℕ) → Settles env (serve_listen config pic_fd)
  unfolding serve_listen get_local_addr
  serve_listen-Settles config pic_fd =
      search (settle_rules, create_server_or_exit-Settles, call_or_exit-Settles) depth 30

module _ {env : Env} (n rounds : ℕ) (calm : IsCalm n env) (enough : n < rounds) (config : Config)
    (pic_fd : ℕ) where
  connect_client-Settles : (fd : ℕ) → Settles env (connect_client rounds config pic_fd fd)
  unfolding connect_client
  connect_client-Settles fd =
      search
        (settle_rules, call_or_exit-Settles, connect_with_timeout-Settles, report_connect-Settles)
        depth 30

  pub serve_connect-Settles : Settles env (serve_connect rounds config pic_fd)
  unfolding serve_connect
  serve_connect-Settles =
      Settles-bind _ _ (create_client-Settles _ _) λ c.
        Settles-case_option c _ _ (send_result-Settles pic_fd result_bad) connect_client-Settles

  pub serve_accept-Settles : (fd : ℕ) → Settles env (serve_accept rounds config pic_fd (some fd))
  unfolding serve_accept
  serve_accept-Settles fd =
      Settles-bind _ _ (accept_with_timeout-Settles n rounds calm enough fd _) λ c.
        Settles-case_option c _ _ (send_result-Settles pic_fd result_bad) λ new.
          Settles-bind _ _ (hand_over-Settles pic_fd new)
            λ _. call_and _ _ (call_and _ _ (Settles-pure tt))
