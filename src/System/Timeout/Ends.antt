-- ===== src/System/Timeout/Ends.antt =====
-- Rules for the ends of the waits of socket/block_socket.cpp.
use mini_ftpd.Prelude.{ℕ, ◌<◌, not, ◌&&◌, Option, none, some, ⊤, ◌==◌}
use mini_ftpd.Session.Address.{SockAddr}
use mini_ftpd.Program.{pure, ◌>>◌}
use mini_ftpd.Program.Settles.{Settles, Settles-pure, Settles-if, Settles-bind}
use mini_ftpd.System.Calls.{Env, Proc, call}
use mini_ftpd.System.Retry.{settle_rules, IsCalm, Settles-call, Settles-until_done}
use mini_ftpd.System.Timeout.Defs.{
  change_flags, activate_nonblock, deactivate_nonblock, Status, success, is_in_progress,
  read_socket_error, when_waiting, finish_connect, await_connect, connect_with_timeout, accept_now,
  await_accept, accept_with_timeout,
}

change_flags-Settles : {env : Env} (change : ℕ → ℕ) (fd : ℕ) → Settles env (change_flags change fd)
unfolding change_flags
change_flags-Settles change fd = search settle_rules depth 30

module _ {env : Env} (fd : ℕ) where
  result-Settles : (s : Status) → Settles env (do deactivate_nonblock fd; pure s)
  unfolding deactivate_nonblock
  result-Settles s = search (settle_rules, change_flags-Settles) depth 30

  when_waiting-Settles : (wait : ℕ) (p : Proc ⊤) → Settles env p → Settles env (when_waiting wait p)
  unfolding when_waiting
  when_waiting-Settles wait p k = search settle_rules depth 30

  finish_connect-Settles : (wait : ℕ) (s : Status) → Settles env (finish_connect fd wait s)
  unfolding finish_connect deactivate_nonblock
  finish_connect-Settles wait s =
      search (settle_rules, change_flags-Settles, when_waiting-Settles) depth 30

  read_socket_error-Settles : Settles env (read_socket_error fd)
  unfolding read_socket_error
  read_socket_error-Settles = search (settle_rules, result-Settles) depth 30

module _ {env : Env} (n rounds : ℕ) (calm : IsCalm n env) (enough : n < rounds) where
  await_connect-Settles : (fd wait : ℕ) → Settles env (await_connect rounds fd wait)
  unfolding await_connect
  await_connect-Settles fd wait = Settles-bind _ _ (Settles-until_done rounds n _ calm enough) λ s.
      Settles-if s.ok _ _
        (Settles-if (s.value == 0) _ _ (result-Settles fd _) (
          Settles-if (s.value == 1) _ _ (read_socket_error-Settles fd)
            (finish_connect-Settles fd wait success)))
        (result-Settles fd _)

  pub connect_with_timeout-Settles :
      (fd : ℕ) (addr : SockAddr) (wait : ℕ) → Settles env (connect_with_timeout rounds fd addr wait)
  unfolding connect_with_timeout activate_nonblock
  connect_with_timeout-Settles fd addr wait =
      Settles-bind _ _ (when_waiting-Settles fd wait _ (change_flags-Settles _ fd)) λ _.
        Settles-bind (call _) _ (Settles-call _) λ c.
          Settles-if (not c.ok && is_in_progress c.error) _ _ (await_connect-Settles fd wait)
            (finish_connect-Settles fd wait _)

  accept_now-Settles : (listen_fd : Option ℕ) → Settles env (accept_now listen_fd)
  unfolding accept_now
  accept_now-Settles listen_fd = search settle_rules depth 30

  await_accept-Settles : (fd wait : ℕ) → Settles env (await_accept rounds fd wait)
  unfolding await_accept
  await_accept-Settles fd wait = Settles-bind _ _ (Settles-until_done rounds n _ calm enough) λ s.
      Settles-if s.ok _ _
        (Settles-if (s.value == 0) _ _ (Settles-pure none) (accept_now-Settles (some fd)))
        (Settles-pure none)

  pub accept_with_timeout-Settles :
      (fd wait : ℕ) → Settles env (accept_with_timeout rounds (some fd) wait)
  unfolding accept_with_timeout
  accept_with_timeout-Settles fd wait =
      Settles-if (wait == 0) _ _ (accept_now-Settles (some fd)) (await_accept-Settles fd wait)
