-- ===== src/Main/Handler.antt =====
-- `sigchld_handler` of main.cpp.
use mini_ftpd.Prelude.{ℕ, zero, suc, ◌<◌, ◌≡◌, refl, true, Option, List, length, arith, ⊤}
use mini_ftpd.Config.Defs.{Config}
use mini_ftpd.Program.{undefined, ◌>>=◌, stop, pure}
use mini_ftpd.Program.Leads.{Leads, Leads-bind, Leads-if, Leads-case_option, Leads-undefined}
use mini_ftpd.System.Calls.{Call, Answer}
use mini_ftpd.System.View.{viewed}
use mini_ftpd.System.Held.{held_after}
use mini_ftpd.ConnectionLimit.Defs.{decrease_connection}
use mini_ftpd.ConnectionLimit.Master.{Child, Master}
use mini_ftpd.Main.Defs.{
  Kernel, MainState, get_state, put_tables, reap_child, has_reaped, sigchld_handler, handle_signal,
  handle_signals, take_signals,
}
use mini_ftpd.Main.Children.{children_after, alive, has, IsParent, length-remove-lt, length-alive}
use mini_ftpd.Main.Follows.{
  Follows, Stops, Still, after-IsRace, after-Still, after_quiet-Still, waited,
}
use mini_ftpd.Main.Rules.{calls-Leads}

module _ (config : Config) (fds : List ℕ) (k : Kernel) (parent : IsParent k.answers) where
  -- There are fewer children than before.
  abbrev Fewer : MainState → Option Child → ⊤ → MainState → Type 0
  Fewer s f u t = Still config fds f u t × (length (alive t.log) < length (alive s.log))

  reap_child-Leads :
      (a : Answer) (m : Master) (s : MainState)
      → Follows config fds m s
      → has_reaped a ≡ true
      → has a.value (alive s.log) ≡ true
      → Leads
          (Stops config)
          (Fewer s m.forked)
          (reap_child a.value k (record s { log = waited a s.log }))
  unfolding reap_child ◌>>=◌ get_state put_tables viewed children_after
  reap_child-Leads a m s f positive known =
      Leads-case_option (Stops config) (Fewer s m.forked) (decrease_connection a.value s.tables)
        (stop undefined) put_tables k (record s { log = waited a s.log })
        (λ e.
          Leads-undefined (Stops config) (Fewer s m.forked) k (record s { log = waited a s.log })
            (after-IsRace a m s f known e))
        λ t e. (
          after-Still a m s f t positive known e,
          rw positive (length-remove-lt a.value (alive s.log) known),
        )

  pub sigchld_handler-Leads :
      (n : ℕ) (m : Master) (s : MainState)
      → Follows config fds m s
      → length (alive s.log) < n
      → Leads (Stops config) (Still config fds m.forked) (sigchld_handler n k s)
  unfolding sigchld_handler
  sigchld_handler-Leads zero m s f l = absurd (omega arith)
  sigchld_handler-Leads (suc n) m s f l =
      let a = k.answers s.log Call.waitpid in
      let R = Still config fds m.forked in
      let s' : MainState = record s { log = waited a s.log } in
      calls-Leads (Stops config) R Call.waitpid _ k s (
        Leads-if (Stops config) R (has_reaped a) _ (pure tt) k s'
          (λ yes.
            Leads-bind (Stops config) (Fewer s m.forked) R (reap_child a.value) _ k s'
              (reap_child-Leads a m s f yes (parent.waits s.log yes))
              λ u t ((m', f', same), less).
                rw (← same) (sigchld_handler-Leads n m' t f' (omega (arith, less, l))))
          (λ no.
            unfold pure children_after held_after in
            after_quiet-Still a m s f Call.waitpid (rw no refl) refl))

  handle_signal-Leads :
      (m : Master) (s : MainState)
      → Follows config fds m s
      → Leads (Stops config) (Still config fds m.forked) (handle_signal k s)
  unfolding handle_signal get_state ◌>>=◌
  handle_signal-Leads m s f =
      sigchld_handler-Leads (suc (length s.log)) m s f (omega (arith, length-alive s.log))

  handle_signals-Leads :
      (n : ℕ) (m : Master) (s : MainState)
      → Follows config fds m s
      → Leads (Stops config) (Still config fds m.forked) (handle_signals n k s)
  unfolding handle_signals pure
  handle_signals-Leads zero m s f = (m, f, refl)
  handle_signals-Leads (suc n) m s f =
      let R = Still config fds m.forked in
      Leads-bind (Stops config) R R handle_signal _ k s (handle_signal-Leads m s f)
        λ u t (m', f', same). rw (← same) (handle_signals-Leads n m' t f')

  -- The signals behind a call.
  pub take_signals-Leads :
      (m : Master) (s : MainState)
      → Follows config fds m s
      → Leads (Stops config) (Still config fds m.forked) (take_signals k s)
  unfolding take_signals
  take_signals-Leads m s f = handle_signals-Leads (k.sigchld s.log) m s f
