-- ===== src/Main/Follows.antt =====
-- The process of main.cpp in a state of the transition system, and a child that is waited for: the steps of ConnectionLimit/Master.
use mini_ftpd.Prelude.{
  ℕ, ◌≡◌, ◌≢◌, ◌⊎◌, refl, sym, ap, ◌∙◌, true, false, Option, none, some, List, [], ◌∷◌, ⊤,
}
use mini_ftpd.Config.Defs.{Config}
use mini_ftpd.Program.Leads.{Early, by_exit, by_undefined}
use mini_ftpd.System.Calls.{Call, Answer, Log}
use mini_ftpd.System.Create.Fails.{HasFailed}
use mini_ftpd.System.View.{viewed}
use mini_ftpd.System.Held.{held, held_after}
use mini_ftpd.ConnectionLimit.Defs.{Tables, decrease_connection}
use mini_ftpd.ConnectionLimit.Master.{
  Child, find, remove, stop as stop_child, Master, reap, exits, reaps, Reach, next,
}
use mini_ftpd.ConnectionLimit.Safety.{reap_undefined}
use mini_ftpd.Main.Defs.{MainState, has_reaped}
use mini_ftpd.Main.Children.{
  children_after, alive, has, pids, has-find, pids-stop, pids-remove, find-stopped,
}

-- The process is in the state `m`, which it can be in, and holds the descriptors `fds`.
pub record Follows (config : Config) (fds : List ℕ) (m : Master) (s : MainState) : Type 0 where
  pub reach : Reach config m
  pub tables : s.tables ≡ m.tables
  pub children : pids m.children ≡ alive s.log
  pub descriptors : held s.log ≡ fds

-- The child that has just been waited for is forked and not registered.
pub record IsRace (config : Config) (s : MainState) : Type 0 where
  pub master : Master
  pub child : Child
  pub answer : Answer
  pub before : Log
  pub reach : Reach config master
  pub tables : s.tables ≡ master.tables
  pub waits : master.forked ≡ some child
  pub last : s.log ≡ record { call = Call.waitpid; answer = answer } ∷ before
  pub reaped : answer.value ≡ child.pid

abbrev IsRefused : Log → Type 0
IsRefused [] = ⊥
IsRefused (e ∷ log) = (e.call ≡ Call.getuid) × (e.answer.value ≢ 0)

-- How the process may end: by `exit` where it is not root or a call has just failed, and in
-- undefined behaviour.
abbrev pub Stops : Config → Early → MainState → Type 0
Stops config by_exit s = HasFailed s.log ⊎ IsRefused s.log
Stops config by_undefined s = IsRace config s

-- The process is as it was, but for children that are gone.
abbrev pub Still : Config → List ℕ → Option Child → ⊤ → MainState → Type 0
Still config fds f _ s = (m : Master) × Follows config fds m s × (m.forked ≡ f)

reap-decrease :
    (pid : ℕ) (m : Master) (t : Tables)
    → decrease_connection pid m.tables ≡ some t
    → reap pid m ≡ some (record m { tables = t; children = remove pid m.children })
unfolding reap
reap-decrease pid m t e = rw (e, reap) refl

reap-decrease_none :
    (pid : ℕ) (m : Master) → decrease_connection pid m.tables ≡ none → reap pid m ≡ none
unfolding reap
reap-decrease_none pid m e = rw (e, reap) refl

-- The event of a `waitpid`.
abbrev pub waited : Answer → Log → Log
waited a log = record { call = Call.waitpid; answer = a } ∷ log

module _ {config : Config} {fds : List ℕ} (a : Answer) (m : Master) (s : MainState)
    (f : Follows config fds m s) where
  -- The child has exited.
  stopped : Master
  stopped = record m { children = stop_child a.value m.children }

  stopped-Reach : Reach config stopped
  unfolding stopped
  stopped-Reach = next f.reach (exits m a.value)

  abbrev dead : ℕ → Child
  dead ip = record { pid = a.value; ip = ip; serving = false }

  stopped-find :
      has a.value (alive s.log) ≡ true → (ip : ℕ) × (find a.value stopped.children ≡ some (dead ip))
  unfolding stopped
  stopped-find known =
      let (c, found, same) = has-find a.value m.children (rw f.children known) in
      (
        c.ip,
        find-stopped a.value m.children c found
            ∙ ap (λ p. some (record { pid = p; ip = c.ip; serving = false })) same,
      )

  pub after-IsRace :
      has a.value (alive s.log) ≡ true
      → decrease_connection a.value s.tables ≡ none
      → IsRace config (record s { log = waited a s.log })
  unfolding stopped
  after-IsRace known e =
      let (ip, found) = stopped-find known in
      let missing = reap-decrease_none a.value stopped (rw (← f.tables) e) in
      let (g, forked, same) = (reap_undefined stopped (dead ip) stopped-Reach found).0 missing in
      record {
        master = stopped;
        child = g;
        answer = a;
        before = s.log;
        reach = stopped-Reach;
        tables = f.tables;
        waits = forked;
        last = refl;
        reaped = sym same;
      }

  pub after-Still :
      (t : Tables)
      → has_reaped a ≡ true
      → has a.value (alive s.log) ≡ true
      → decrease_connection a.value s.tables ≡ some t
      → Still config fds m.forked tt (record s { tables = t; log = waited a s.log })
  unfolding stopped viewed children_after held_after
  after-Still t positive known e =
      let (ip, found) = stopped-find known in
      let m' : Master = record m { tables = t; children = remove a.value stopped.children } in
      let gone = reap-decrease a.value stopped t (rw (← f.tables) e) in
      (
        m',
        record {
          reach = next stopped-Reach (reaps stopped m' (dead ip) found refl gone);
          tables = refl;
          children =
              pids-remove a.value stopped.children
              ∙ rw (positive, pids-stop a.value m.children, f.children) refl;
          descriptors = f.descriptors;
        },
        refl,
      )

  -- The log has one event more.
  pub after_quiet-Still :
      (c : Call)
      → children_after c a (alive s.log) ≡ alive s.log
      → held_after c a (held s.log) ≡ held s.log
      → Still config fds m.forked tt (record s { log = record { call = c; answer = a } ∷ s.log })
  unfolding viewed
  after_quiet-Still c kids fds' = (
    m,
    record {
      reach = f.reach;
      tables = f.tables;
      children = f.children ∙ sym kids;
      descriptors = fds' ∙ f.descriptors;
    },
    refl,
  )
