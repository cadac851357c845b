-- ===== src/Main/Forks.antt =====
-- A client of main.cpp in the parent: `fork` and the registration of the child.
use mini_ftpd.Prelude.{
  ℕ, ◌≡◌, ◌≢◌, refl, ap, ◌∙◌, true, none, some, List, [], ◌∷◌, arith, ◌==◌, inl, ==_self,
}
use mini_ftpd.Config.Defs.{Config}
use mini_ftpd.Program.{◌>>=◌, ◌>>◌, pure}
use mini_ftpd.Program.Leads.{Leads, Leads-bind, Leads-if}
use mini_ftpd.System.Calls.{Call, Answer, call}
use mini_ftpd.System.View.{viewed}
use mini_ftpd.System.Held.{held_after, remove}
use mini_ftpd.ConnectionLimit.Defs.{increase_connection, check_connection_limit}
use mini_ftpd.ConnectionLimit.Master.{
  Child, Master, serves, accept, register, accepts, registers, next,
}
use mini_ftpd.Main.Defs.{
  Kernel, MainState, calls, get_state, put_tables, take_signals, Role, master, register_child,
  serve_child, leave_child, after_fork, fork_child,
}
use mini_ftpd.Main.Children.{children_after, IsParent, has-find-none, length-pids}
use mini_ftpd.Main.Follows.{Follows, Stops, Still}
use mini_ftpd.Main.Handler.{take_signals-Leads}
use mini_ftpd.Main.Rules.{calls-Leads, call_or_exit-Leads}

-- Behind a round of the parent: no child waits to be registered, and nothing but the listening
-- socket is open.
pub record Rests (config : Config) (listen_fd : ℕ) (role : Role) (s : MainState) : Type 0 where
  pub goes_on : role ≡ master
  pub state : Master
  pub follows : Follows config (listen_fd ∷ []) state s
  pub idle : state.forked ≡ none

module _ (config : Config) (k : Kernel) (parent : IsParent k.answers)
    (listen_fd conn_fd ip : ℕ) where
  abbrev both : List ℕ
  both = conn_fd ∷ listen_fd ∷ []

  -- `increase_connection` and `fork` are the step `accepts`.
  forked-Follows :
      (m : Master) (s : MainState)
      → Follows config both m s
      → m.forked ≡ none
      → (let a = k.answers s.log Call.fork in
          a.ok ≡ true
          → Follows config both (accept config a.value ip m) (record {
            tables = increase_connection ip s.tables;
            log = record { call = Call.fork; answer = a } ∷ s.log;
          }))
  unfolding accept viewed children_after held_after
  forked-Follows m s f idle ok =
      let pid = (k.answers s.log Call.fork).value in
      let (_, fresh, room) = parent.forks s.log ok in
      record {
        reach =
            unfold accept in
            next f.reach (
              accepts m pid ip idle (has-find-none pid m.children (rw f.children fresh))
                (rw (← length-pids m.children) (rw f.children room)));
        tables = ap (increase_connection ip) f.tables;
        children = rw ok (ap (λ ps. pid ∷ ps) f.children);
        descriptors = f.descriptors;
      }

  -- `pid2ip[pid] = ip` is the step `registers`.
  register_child-Leads :
      (m : Master) (s : MainState) (c : Child)
      → Follows config both m s
      → m.forked ≡ some c
      → Leads (Stops config) (Still config both none) (register_child c.pid c.ip k s)
  unfolding register_child ◌>>=◌ get_state put_tables register
  register_child-Leads m s c f e = (
    register c m,
    record {
      reach = next f.reach (registers m c e);
      tables = rw f.tables refl;
      children = f.children;
      descriptors = f.descriptors;
    },
    refl,
  )

  closed-Follows :
      (m : Master) (s : MainState) (a : Answer)
      → Follows config both m s
      → Follows config
          (listen_fd ∷ [])
          m
          (record s { log = record { call = Call.close (some conn_fd); answer = a } ∷ s.log })
  unfolding viewed children_after held_after remove
  closed-Follows m s a f = record {
    reach = f.reach;
    tables = f.tables;
    children = f.children;
    descriptors = ap (remove conn_fd) f.descriptors ∙ rw (==_self conn_fd) refl;
  }

  -- Behind the registration.
  close_client-Leads :
      (m : Master) (s : MainState)
      → Follows config both m s
      → m.forked ≡ none
      → Leads
          (Stops config)
          (Rests config listen_fd)
          ((calls (call (Call.close (some conn_fd))) >> (take_signals >> pure master)) k s)
  unfolding pure
  close_client-Leads m s f idle =
      let U = Stops config in
      let R = Rests config listen_fd in
      let a = k.answers s.log (Call.close (some conn_fd)) in
      calls-Leads U R (Call.close (some conn_fd)) _ k s (
        Leads-bind U (Still config (listen_fd ∷ []) m.forked) R take_signals _ k _
          (take_signals-Leads config _ k parent m _ (closed-Follows m s a f))
          λ _ t (m', f', same). record {
            goes_on = refl;
            state = m';
            follows = f';
            idle = same ∙ idle;
          })

  leave_child-Leads :
      (m : Master) (s : MainState) (c : Child)
      → Follows config both m s
      → m.forked ≡ some c
      → Leads (Stops config) (Rests config listen_fd) (leave_child c.pid c.ip conn_fd k s)
  unfolding leave_child
  leave_child-Leads m s c f e =
      let U = Stops config in
      let R = Rests config listen_fd in
      Leads-bind U (Still config both m.forked) R take_signals _ k s
        (take_signals-Leads config both k parent m s f)
        λ _ t (m', f', same).
          Leads-bind U (Still config both none) R (register_child c.pid c.ip) _ k t
            (register_child-Leads m' t c f' (same ∙ e))
            λ _ u (m'', f'', idle). close_client-Leads m'' u f'' idle

  -- Behind `fork`, in the parent.
  after_fork-Leads :
      (m : Master) (s : MainState) (c : Child)
      → Follows config both m s
      → m.forked ≡ some c
      → c.pid ≢ 0
      → Leads
          (Stops config)
          (Rests config listen_fd)
          (after_fork config listen_fd conn_fd c.ip c.pid k s)
  unfolding after_fork
  after_fork-Leads m s c f e positive =
      Leads-if (Stops config) (Rests config listen_fd) (c.pid == 0)
        (serve_child config listen_fd conn_fd c.ip) (leave_child c.pid c.ip conn_fd) k s
        (λ child. absurd (positive (ground arith))) λ _. leave_child-Leads m s c f e

  fork_child-Leads :
      (m : Master) (s : MainState)
      → Follows config both m s
      → m.forked ≡ none
      → Leads (Stops config) (Rests config listen_fd) (fork_child config listen_fd conn_fd ip k s)
  unfolding fork_child ◌>>=◌ get_state put_tables accept
  fork_child-Leads m s f idle =
      let t : MainState = record s { tables = increase_connection ip s.tables } in
      let pid = (k.answers s.log Call.fork).value in
      call_or_exit-Leads (Stops config) (Rests config listen_fd)
        (λ a. after_fork config listen_fd conn_fd ip a.value) k Call.fork t
        (λ ok.
          let child : Child = record {
            pid = pid;
            ip = ip;
            serving = serves (check_connection_limit config ip (increase_connection ip m.tables));
          } in
          after_fork-Leads (accept config pid ip m) _ child (forked-Follows m s f idle ok) refl
            (parent.forks s.log ok).0)
        (λ bad. inl bad)

  -- Behind `accept`.
  pub serve_client-Leads :
      (m : Master) (s : MainState)
      → Follows config both m s
      → m.forked ≡ none
      → Leads
          (Stops config)
          (Rests config listen_fd)
          ((take_signals >> fork_child config listen_fd conn_fd ip) k s)
  serve_client-Leads m s f idle =
      Leads-bind (Stops config) (Still config both m.forked) (Rests config listen_fd) take_signals _
        k s (take_signals-Leads config both k parent m s f)
        λ _ t (m', f', same). fork_child-Leads m' t f' (same ∙ idle)
