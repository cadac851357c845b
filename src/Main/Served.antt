-- ===== src/Main/Served.antt =====
-- The child of main.cpp against the child of ConnectionLimit/Master.
use mini_ftpd.Prelude.{
  ℕ, ◌≡◌, ◌⊎◌, inl, inr, refl, ap, Bool, true, false, Option, none, some, List, [], ◌∷◌, ⊤,
  if◌then◌else◌,
}
use mini_ftpd.Text.Bytes.{Bytes, codes}
use mini_ftpd.Config.Defs.{Config}
use mini_ftpd.Program.{Outcome, done, exited, ◌>>=◌, ◌>>◌, pure, stop, exit, case_option}
use mini_ftpd.System.Calls.{Call, Answer, Log, call}
use mini_ftpd.System.Create.Defs.{call_or_exit}
use mini_ftpd.System.Create.Fails.{HasFailed}
use mini_ftpd.ConnectionLimit.Defs.{
  Verdict, admitted, too_many_clients, too_many_of_ip, increase_connection, check_connection_limit,
}
use mini_ftpd.ConnectionLimit.Master.{Child, Master, serves, accept}
use mini_ftpd.Main.Defs.{
  Kernel, MainState, MainProc, calls, get_state, put_tables, refusal, check_client, Role, service,
  serve_child, after_fork, fork_child,
}
use mini_ftpd.Main.Follows.{Follows}

-- The last call has written this text to the client.
abbrev pub HasWritten : ℕ → Bytes → Log → Type 0
HasWritten conn_fd text [] = ⊥
HasWritten conn_fd text (e ∷ log) = e.call ≡ Call.write_text conn_fd text

-- A child that is admitted goes on to `start_ftp_service`, unless a call has just failed; another one
-- has sent the text of its verdict and exits.
abbrev pub Goes : Verdict → ℕ → Outcome Role × MainState → Type 0
Goes admitted conn_fd (o, t) = (o ≡ done (service conn_fd)) ⊎ ((o ≡ exited 1) × HasFailed t.log)
Goes too_many_clients conn_fd (o, t) =
    (o ≡ exited 0)
    × HasWritten conn_fd (codes "421 There are too many connected users. please try later.\r\n")
        t.log
Goes too_many_of_ip conn_fd (o, t) =
    (o ≡ exited 0)
    × HasWritten conn_fd
        (codes "421 There are too many connections from your internet address.\r\n") t.log

abbrev serving_of : Option Child → Bool
serving_of none = false
serving_of (some c) = c.serving

module _ (listen_fd conn_fd : ℕ) (k : Kernel) where
  -- Behind `signal`.
  leave_listening : MainProc Role
  leave_listening = calls (call (Call.close (some listen_fd))) >> pure (service conn_fd)

  signalled-Goes :
      (b : Bool) (a : Answer) (s : MainState)
      → (b ≡ false → HasFailed s.log)
      → Goes admitted conn_fd ((calls (if b then pure a else exit 1) >>= λ _. leave_listening) k s)
  unfolding leave_listening ◌>>=◌ calls call pure stop
  signalled-Goes true a s h = inl refl
  signalled-Goes false a s h = inr (refl, h refl)

  admitted_child-Goes :
      (s : MainState)
      → Goes admitted conn_fd
          ((calls (call_or_exit Call.ignore_sigchld) >>= λ _. leave_listening) k s)
  unfolding ◌>>=◌ calls call_or_exit call
  admitted_child-Goes s =
      let a = k.answers s.log Call.ignore_sigchld in
      signalled-Goes a.ok a
        (record s { log = record { call = Call.ignore_sigchld; answer = a } ∷ s.log }) (λ bad. bad)

  -- The branches of `check_connection_limit`.
  judged : Verdict → MainProc ⊤
  judged v =
      case_option (refusal v) (pure tt)
        (λ text. (do calls (call (Call.write_text conn_fd text)); exit 0))

  judged-Goes :
      (v : Verdict) (s : MainState)
      → Goes v conn_fd (
          (judged v >>= λ _. calls (call_or_exit Call.ignore_sigchld) >>= λ _. leave_listening) k s)
  unfolding judged ◌>>=◌ calls call pure stop case_option
  judged-Goes admitted s = admitted_child-Goes s
  judged-Goes too_many_clients s = (refl, refl)
  judged-Goes too_many_of_ip s = (refl, refl)

  serve_child-Goes :
      (config : Config) (ip : ℕ) (s : MainState)
      → Goes
          (check_connection_limit config ip s.tables)
          conn_fd
          (serve_child config listen_fd conn_fd ip k s)
  unfolding serve_child check_client judged leave_listening ◌>>=◌ get_state
  serve_child-Goes config ip s = judged-Goes (check_connection_limit config ip s.tables) s

  forked-Goes :
      (config : Config) (ip : ℕ) (v : Verdict) (b : Bool) (a : Answer) (s : MainState)
      → b ≡ true
      → a.value ≡ 0
      → Goes v conn_fd (serve_child config listen_fd conn_fd ip k s)
      → Goes v conn_fd (
          (calls (if b then pure a else exit 1) >>= λ f.
          after_fork config listen_fd conn_fd ip f.value)
            k s)
  unfolding after_fork ◌>>=◌ calls pure
  forked-Goes config ip v true a s ok child h = rw child h
  forked-Goes config ip v false a s ok child h = cc ok

  -- In the child, where `fork` has given 0, the verdict is that of `check_connection_limit` on the
  -- counters of the transition system, one more for this client, and the transition system counts
  -- the child as one that serves just where it is admitted. Where it is, the child goes on to
  -- `start_ftp_service`, or exits with 1 behind a call that has just failed; where there are too many
  -- clients, or too many of its address, its last call has written the 421 for just that to the
  -- client, and it exits with 0.
  pub fork_child-Goes :
      (config : Config) (ip pid : ℕ) (fds : List ℕ) (m : Master) (s : MainState) (c : Child)
      → Follows config fds m s
      → (k.answers s.log Call.fork).ok ≡ true
      → (k.answers s.log Call.fork).value ≡ 0
      → (accept config pid ip m).forked ≡ some c
      → let v = check_connection_limit config ip (increase_connection ip m.tables) in
        (serves v ≡ c.serving) × Goes v conn_fd (fork_child config listen_fd conn_fd ip k s)
  unfolding fork_child accept ◌>>=◌ get_state put_tables calls call_or_exit call
  fork_child-Goes config ip pid fds m s c f ok child e =
      let a = k.answers s.log Call.fork in
      let t : MainState = record {
        tables = increase_connection ip s.tables;
        log = record { call = Call.fork; answer = a } ∷ s.log;
      } in
      let v = check_connection_limit config ip t.tables in
      (
        ap serving_of e,
        rw (← f.tables) (forked-Goes config ip v a.ok a t ok child (serve_child-Goes config ip t)),
      )
