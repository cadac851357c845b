-- ===== src/Main/Rounds.antt =====
-- The rounds of main.cpp against the steps of ConnectionLimit/Master.
use mini_ftpd.Prelude.{
  ℕ, zero, suc, ◌≡◌, refl, true, false, none, some, [], ◌∷◌, arith, if◌then◌else◌, inl,
}
use mini_ftpd.Config.Defs.{Config}
use mini_ftpd.Program.{◌>>=◌, ◌>>◌, pure, exit}
use mini_ftpd.Program.Leads.{Leads, Leads-bind, Leads-case_option, Leads-exit}
use mini_ftpd.System.Calls.{Call, Answer, call}
use mini_ftpd.System.View.{viewed}
use mini_ftpd.System.Held.{held_after}
use mini_ftpd.System.Timeout.Defs.{accept_with_timeout, accept_now}
use mini_ftpd.ConnectionLimit.Master.{Master}
use mini_ftpd.Main.Defs.{
  Kernel, MainState, calls, get_state, take_signals, master, fork_child, s_addr, main_round,
  main_loop,
}
use mini_ftpd.Main.Children.{children_after, IsParent}
use mini_ftpd.Main.Follows.{Follows, Stops}
use mini_ftpd.Main.Forks.{Rests, serve_client-Leads}

refused_fd : (a : Answer) → (if a.ok then some a.value else none) ≡ none → a.ok ≡ false
refused_fd a e = ground arith

-- The descriptor that `accept` gives.
accepted_fd :
    (a : Answer) (fd : ℕ)
    → (if a.ok then some a.value else none) ≡ some fd
    → (a.ok ≡ true) × (a.value ≡ fd)
accepted_fd a fd e = ground arith

module _ (config : Config) (k : Kernel) (parent : IsParent k.answers) (listen_fd : ℕ) where
  accepted-Follows :
      (m : Master) (s : MainState) (a : Answer) (fd : ℕ)
      → Follows config (listen_fd ∷ []) m s
      → (a.ok ≡ true) × (a.value ≡ fd)
      → Follows config
          (fd ∷ listen_fd ∷ [])
          m
          (record s { log = record { call = Call.accept (some listen_fd); answer = a } ∷ s.log })
  unfolding viewed children_after held_after
  accepted-Follows m s a fd f (ok, same) = record {
    reach = f.reach;
    tables = f.tables;
    children = f.children;
    descriptors = rw ok (rw (same, f.descriptors) refl);
  }

  main_round-Leads :
      (m : Master) (s : MainState)
      → Follows config (listen_fd ∷ []) m s
      → m.forked ≡ none
      → Leads (Stops config) (Rests config listen_fd) (main_round config listen_fd k s)
  unfolding main_round ◌>>=◌ calls get_state accept_with_timeout accept_now call pure
  main_round-Leads m s f idle =
      let a = k.answers s.log (Call.accept (some listen_fd)) in
      let t : MainState = record s {
        log = record { call = Call.accept (some listen_fd); answer = a } ∷ s.log;
      } in
      let ip = s_addr a.addr in
      Leads-case_option (Stops config) (Rests config listen_fd)
        (if a.ok then some a.value else none) (exit 1)
        (λ fd. take_signals >> fork_child config listen_fd fd ip) k t
        (λ e. Leads-exit (Stops config) (Rests config listen_fd) 1 k t (inl (refused_fd a e)))
        λ fd e.
          serve_client-Leads config k parent listen_fd fd ip m t
            (accepted-Follows m s a fd f (accepted_fd a fd e)) idle

  pub main_loop-Leads :
      (n : ℕ) (s : MainState)
      → Rests config listen_fd master s
      → Leads (Stops config) (Rests config listen_fd) (main_loop n config listen_fd k s)
  unfolding main_loop pure
  main_loop-Leads zero s r = r
  main_loop-Leads (suc n) s r =
      Leads-bind (Stops config) (Rests config listen_fd) (Rests config listen_fd)
        (main_round config listen_fd) _ k s (main_round-Leads r.state s r.follows r.idle)
        λ role t q. rw q.goes_on (main_loop-Leads n t (rw q.goes_on at q))
