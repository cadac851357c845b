-- ===== src/Tests/Main.antt =====
-- Runs of main.cpp with a kernel whose children have exited whenever SIGCHLD arrives.
use mini_ftpd.Prelude.{
  ℕ, suc, ◌+◌, ◌<◌, ◌≡◌, refl, Bool, true, false, some, List, [], ◌∷◌, length, arith, ltb,
}
use mini_ftpd.Config.Defs.{Config, default_config}
use mini_ftpd.Session.Address.{no_addr}
use mini_ftpd.Program.Leads.{Leads}
use mini_ftpd.System.Calls.{Call, Answer, Log, Env, other, call}
use mini_ftpd.System.View.{viewed}
use mini_ftpd.System.Held.{held_after}
use mini_ftpd.ConnectionLimit.Defs.{
  too_many_of_ip, increase_connection, check_connection_limit, size_mod, increase_connection,
  decrease_connection,
}
use mini_ftpd.ConnectionLimit.Master.{
  serves, Child, Master, start, accept, register, accepts, registers, here, next,
}
use mini_ftpd.Program.{◌>>=◌, pure, stop, case_option}
use mini_ftpd.System.Timeout.Defs.{accept_with_timeout, accept_now}
use mini_ftpd.System.Create.Defs.{call_or_exit, host_addr, create_server_or_exit}
use mini_ftpd.Main.Defs.{
  Kernel, MainState, initial, main, main_loop, main_round, fork_child, after_fork, leave_child,
  register_child, take_signals, handle_signals, handle_signal, sigchld_handler, reap_child,
  put_tables, get_state, calls,
}
use mini_ftpd.Main.Children.{children_after, alive, has, IsParent}
use mini_ftpd.Main.Follows.{Follows, Stops}
use mini_ftpd.Main.Refines.{Runs, main-Rests}
use mini_ftpd.Main.Served.{Goes, fork_child-Goes}

abbrev sum : List ℕ → ℕ
sum [] = 0
sum (p ∷ ps) = p + sum ps

abbrev answer : Bool → ℕ → Answer
answer ok value = record {
  ok = ok;
  value = value;
  second = 0;
  error = other 1;
  addr = no_addr;
  text = [];
  rights = some (some 9);
}

-- The latest child.
abbrev latest : List ℕ → ℕ
latest [] = 0
latest (p ∷ ps) = p

abbrev answers : Env
answers log Call.getuid = answer true 0
answers log Call.fork = answer (ltb (length (alive log) + 1) size_mod) (suc (sum (alive log)))
answers log Call.waitpid = answer (ltb 0 (length (alive log))) (latest (alive log))
answers log Call.socket = answer true 3
answers log c = answer true 7

-- A child exits while the next client is awaited.
abbrev arrivals : Log → ℕ
arrivals [] = 0
arrivals (e ∷ log) = elim e.call [ Call.accept fd ↦ 1 | _ ↦ 0 ]

abbrev kernel : Kernel
kernel = record { answers = answers; sigchld = arrivals }

has-fresh : (n : ℕ) (ps : List ℕ) → sum ps < n → has n ps ≡ false
has-fresh n [] h = refl
has-fresh n (p ∷ ps) h = ground (arith, has-fresh n ps)

has-latest : (ps : List ℕ) → ltb 0 (length ps) ≡ true → has (latest ps) ps ≡ true
has-latest [] h = ground arith
has-latest (p ∷ ps) h = ground arith

kernel-IsParent : IsParent answers
kernel-IsParent = record {
  forks = λ log ok.
      ((λ e. absurd (omega (arith, e))), has-fresh _ (alive log) (omega arith), ground arith);
  waits = λ log h. has-latest (alive log) (ground arith);
}

main-Rests_example :
    Leads (Stops default_config) (Runs default_config) (main 2 default_config kernel initial)
main-Rests_example = main-Rests 2 default_config kernel kernel-IsParent

-- Two rounds: the first child is gone when the second client comes.
two_rounds :
    let s = (main 2 default_config kernel initial).1 in
    (s.tables.client_count ≡ 1) × (alive s.log ≡ 1 ∷ [])
unfolding main main_loop main_round fork_child after_fork leave_child register_child take_signals
    handle_signals handle_signal sigchld_handler reap_child put_tables get_state calls viewed
    children_after ◌>>=◌ pure stop case_option call call_or_exit create_server_or_exit host_addr
    accept_with_timeout accept_now increase_connection decrease_connection
two_rounds = (refl, refl)

-- One client of an address is served, where no more are allowed.
abbrev one_each : Config
one_each = record default_config { max_conns_per_ip = 1 }

abbrev first : Child
first = record { pid = 100; ip = 7; serving = true }

abbrev served : Master
served = register first (accept one_each 100 7 start)

abbrev after_first : MainState
after_first = record {
  tables = served.tables;
  log = record { call = Call.fork; answer = answer true 100 } ∷ [];
}

-- The second child.
abbrev in_child : Kernel
in_child = record { answers = λ log c. answer true 0; sigchld = λ log. 0 }

served-Follows : Follows one_each [] served after_first
unfolding accept register viewed children_after held_after
served-Follows = record {
  reach =
      next (next here (accepts start 100 7 refl refl (omega arith)))
        (registers (accept one_each 100 7 start) first refl);
  tables = refl;
  children = refl;
  descriptors = refl;
}

fork_child-Goes_example :
    (serves too_many_of_ip ≡ false)
    × Goes too_many_of_ip 5 (fork_child one_each 3 5 7 in_child after_first)
unfolding accept register increase_connection check_connection_limit
fork_child-Goes_example =
    fork_child-Goes 3 5 in_child one_each 7 101 [] served after_first
      (record { pid = 101; ip = 7; serving = false }) served-Follows refl refl refl
