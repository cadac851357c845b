-- ===== src/Main/Refines.antt =====
-- `main` as a whole.
use mini_ftpd.Prelude.{ℕ, refl, sym, Option, some, [], ◌∷◌, arith, ◌==◌, inl, inr}
use mini_ftpd.Config.Defs.{Config}
use mini_ftpd.Program.{◌>>=◌, exit}
use mini_ftpd.Program.Leads.{
  Early, by_exit, by_undefined, Comes-Leads, Leads, Leads-if, Leads-exit, Leads-into,
}
use mini_ftpd.System.Calls.{Call, Log, Env}
use mini_ftpd.System.Create.Fails.{HasFailed, create_server-Fails}
use mini_ftpd.System.View.{viewed, Sees}
use mini_ftpd.System.Held.{held_after, Holds}
use mini_ftpd.Text.Bytes.{Bytes}
use mini_ftpd.System.Create.Defs.{create_server_or_exit}
use mini_ftpd.System.Create.Steady.{IsServerBlind, create_server-Steady}
use mini_ftpd.System.Nobody.Ends.{create_server_or_exit-Settles}
use mini_ftpd.System.Nobody.Passive.{create_server-Gives}
use mini_ftpd.Program.Settles.{Comes-both, settled-Comes}
use mini_ftpd.ConnectionLimit.Master.{start, here}
use mini_ftpd.Main.Defs.{Kernel, MainState, calls, Role, master, main_loop, main, initial}
use mini_ftpd.Main.Children.{children_after, children_view, IsParent}
use mini_ftpd.Main.Follows.{Stops}
use mini_ftpd.Main.Rules.{calls-Leads, function-Leads, call_or_exit-Leads}
use mini_ftpd.Main.Forks.{Rests}
use mini_ftpd.Main.Rounds.{main_loop-Leads}

children_blind : IsServerBlind children_view
unfolding children_after
children_blind = record {
  socket = λ _ _. refl;
  inet_aton = λ _ _ _. refl;
  reuse_addr = λ _ _ _. refl;
  bind = λ _ _ _ _. refl;
  listen = λ _ _ _. refl;
}

-- The process before its first round: the listening socket is open.
abbrev IsReady : ℕ → Log → Type 0
IsReady fd log = Holds (fd ∷ []) log × Sees children_view [] log

abbrev IsLost : Early → Log → Type 0
IsLost by_exit log = HasFailed log
IsLost by_undefined log = ⊥

IsLost-Stops :
    (config : Config) (e : Early) (log : Log)
    → IsLost e log
    → Stops config e (record initial { log = log })
IsLost-Stops config by_exit log h = inl h
IsLost-Stops config by_undefined log h = absurd h

create_server-Leads :
    (env : Env) (host : Option Bytes) (port : ℕ) (log : Log)
    → Holds [] log
    → Sees children_view [] log
    → Leads IsLost IsReady (create_server_or_exit host port env log)
create_server-Leads env host port log fds ps =
    let settled = create_server_or_exit-Settles host port in
    let run = create_server_or_exit host port env log in
    Comes-Leads IsLost IsReady run.0 run.1
      (Comes-both _ _ run.0 run.1 (settled-Comes settled (create_server-Gives host port []) log fds)
        (settled-Comes settled (create_server-Steady children_view children_blind host port []) log
          ps))
      ((create_server-Fails host port).at env log tt)

ready-Rests :
    (config : Config) (fd : ℕ) (log : Log)
    → IsReady fd log
    → Rests config fd master (record initial { log = log })
ready-Rests config fd log (fds, ps) = record {
  goes_on = refl;
  state = start;
  follows = record { reach = here; tables = refl; children = sym ps; descriptors = fds };
  idle = refl;
}

-- Behind the rounds, with the listening socket that was made.
abbrev pub Runs : Config → Role → MainState → Type 0
Runs config role s = (listen_fd : ℕ) × Rests config listen_fd role s

module _ (n : ℕ) (config : Config) (k : Kernel) (parent : IsParent k.answers) where
  serving-Leads :
      (fd : ℕ) (log : Log)
      → IsReady fd log
      → Leads (Stops config) (Runs config) (main_loop n config fd k (record initial { log = log }))
  serving-Leads fd log ready =
      let s : MainState = record initial { log = log } in
      let (o, t) = main_loop n config fd k s in
      Leads-into (Stops config) (Rests config fd) (Runs config) o t (λ role u r. (fd, r))
        (main_loop-Leads config k parent fd n s (ready-Rests config fd log ready))

  server-Leads :
      (log : Log)
      → Holds [] log
      → Sees children_view [] log
      → Leads (Stops config) (Runs config) (
          (calls (create_server_or_exit (some config.listen_address) config.listen_port) >>= λ fd.
          main_loop n config fd)
            k
            (record initial { log = log }))
  server-Leads log fds ps =
      function-Leads (Stops config) IsLost IsReady (Runs config) (λ fd. main_loop n config fd) k
        (record initial { log = log })
        (create_server_or_exit (some config.listen_address) config.listen_port)
        (create_server-Leads k.answers (some config.listen_address) config.listen_port log fds ps)
        (λ e l lost. IsLost-Stops config e l lost) serving-Leads

-- The process that accepts keeps to the transition system over any number of rounds, whatever its
-- calls answer and whenever SIGCHLD arrives, where `fork` gives it the number of a new child and
-- `waitpid` that of a child. Behind the rounds its tables are those of a state that can be reached,
-- its children are the children of that state, none of them waits to be registered, and it holds no
-- descriptor but the listening socket. It ends early only by `exit`, where it is not root or a call
-- has just failed, or where the handler has waited for a child that is forked and not registered.
pub main-Rests :
    (n : ℕ) (config : Config) (k : Kernel)
    → IsParent k.answers
    → Leads (Stops config) (Runs config) (main n config k initial)
unfolding main viewed children_after held_after
main-Rests n config k parent =
    let U = Stops config in
    let R = Runs config in
    let a = k.answers [] Call.getuid in
    let s : MainState = record initial { log = record { call = Call.getuid; answer = a } ∷ [] } in
    calls-Leads U R Call.getuid _ k initial (
      Leads-if U R (a.value == 0) _ (exit 1) k s
        (λ _.
          call_or_exit-Leads U R _ k Call.catch_sigchld s
            (λ ok. server-Leads n config k parent _ refl refl) (λ bad. inl bad))
        (λ other. Leads-exit U R 1 k s (inr (refl, λ root. ground arith))))
