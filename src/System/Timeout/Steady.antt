-- ===== src/System/Timeout/Steady.antt =====
-- The waits of socket/block_socket.cpp, in a view that does not show their calls.
use mini_ftpd.Prelude.{ℕ, ⊤}
use mini_ftpd.Session.Address.{SockAddr}
use mini_ftpd.Program.{pure, ◌>>◌}
use mini_ftpd.System.Calls.{Call, Proc, call}
use mini_ftpd.System.Timeout.Defs.{
  change_flags, activate_nonblock, deactivate_nonblock, Status, success, read_socket_error,
  when_waiting, finish_connect, await_connect, connect_with_timeout,
}
use mini_ftpd.System.View.{
  View, IsNeutral, Steady, call-Steady, until_done-Steady, bind-Steady, if-Steady, pure-Steady,
  exit-Steady,
}

-- A view that does not show the calls of the waits.
pub record IsBlind (v : View) : Type 0 where
  pub get_flags : (fd : ℕ) → IsNeutral v (Call.get_flags fd)
  pub set_flags : (fd flags : ℕ) → IsNeutral v (Call.set_flags fd flags)
  pub connect : (fd : ℕ) (addr : SockAddr) → IsNeutral v (Call.connect fd addr)
  pub socket_error : (fd : ℕ) → IsNeutral v (Call.socket_error fd)
  pub select_read : (fd wait : ℕ) → IsNeutral v (Call.select_read fd wait)
  pub select_write : (fd wait : ℕ) → IsNeutral v (Call.select_write fd wait)

module _ (v : View) (blind : IsBlind v) where
  open blind use {get_flags, set_flags, connect, socket_error, select_write}

  change_flags-Steady : (change : ℕ → ℕ) (fd : ℕ) → Steady v (change_flags change fd)
  unfolding change_flags
  change_flags-Steady change fd = bind-Steady v (call _) _ (call-Steady v _ (get_flags fd)) λ old.
      if-Steady v old.ok _ _
        (bind-Steady v (call _) _ (call-Steady v _ (set_flags fd _))
          λ new. if-Steady v new.ok _ _ (pure-Steady v tt) (exit-Steady v 1))
        (exit-Steady v 1)

  result-Steady : (fd : ℕ) (s : Status) → Steady v (do deactivate_nonblock fd; pure s)
  unfolding deactivate_nonblock
  result-Steady fd s = bind-Steady v _ _ (change_flags-Steady _ fd) λ _. pure-Steady v s

  when_waiting-Steady : (wait : ℕ) (p : Proc ⊤) → Steady v p → Steady v (when_waiting wait p)
  unfolding when_waiting
  when_waiting-Steady wait p k = if-Steady v _ _ _ k (pure-Steady v tt)

  finish_connect-Steady : (fd wait : ℕ) (s : Status) → Steady v (finish_connect fd wait s)
  unfolding finish_connect deactivate_nonblock
  finish_connect-Steady fd wait s =
      bind-Steady v _ _ (when_waiting-Steady wait _ (change_flags-Steady _ fd)) λ _. pure-Steady v s

  read_socket_error-Steady : (fd : ℕ) → Steady v (read_socket_error fd)
  unfolding read_socket_error
  read_socket_error-Steady fd =
      bind-Steady v (call _) _ (call-Steady v _ (socket_error fd)) λ e. result-Steady fd _

  await_connect-Steady : (rounds fd wait : ℕ) → Steady v (await_connect rounds fd wait)
  unfolding await_connect
  await_connect-Steady rounds fd wait =
      bind-Steady v _ _ (until_done-Steady v rounds _ (select_write fd wait)) λ s.
        if-Steady v s.ok _ _
          (if-Steady v _ _ _ (result-Steady fd _) (
            if-Steady v _ _ _ (read_socket_error-Steady fd)
              (finish_connect-Steady fd wait success)))
          (result-Steady fd _)

  pub connect_with_timeout-Steady :
      (rounds fd : ℕ) (addr : SockAddr) (wait : ℕ)
      → Steady v (connect_with_timeout rounds fd addr wait)
  unfolding connect_with_timeout activate_nonblock
  connect_with_timeout-Steady rounds fd addr wait =
      bind-Steady v _ _ (when_waiting-Steady wait _ (change_flags-Steady _ fd)) λ _.
        bind-Steady v (call _) _ (call-Steady v _ (connect fd addr)) λ c.
          if-Steady v _ _ _ (await_connect-Steady rounds fd wait) (finish_connect-Steady fd wait _)
