-- ===== src/System/Nobody/Gate.antt =====
-- The nobody process of ftp_protocol.cpp serves nothing before it has changed its user, its group and
-- its rights.
use mini_ftpd.Prelude.{
  ℕ, ◌≡◌, ◌⊎◌, inl, inr, refl, Bool, true, false, none, some, [], ◌∷◌, ⊤, if◌then◌else◌,
}
use mini_ftpd.Text.Bytes.{codes}
use mini_ftpd.Config.Defs.{Config}
use mini_ftpd.Program.{
  Outcome, done, exited, aborted, undefined, unfinished, pure, stop, exit, go_on, ◌>>=◌, ◌>>◌,
}
use mini_ftpd.Program.Triple.{Ends}
use mini_ftpd.System.Calls.{CapData, Call, Answer, Event, Log, Env, Proc, call}
use mini_ftpd.System.Create.Defs.{call_or_exit}
use mini_ftpd.System.Keeps.{OfLog}
use mini_ftpd.System.Nobody.Keeps.{Keeps-serve_nobody}
use mini_ftpd.System.Nobody.Defs.{cap_data, create_nobody_process, serve_nobody, start_nobody}

-- The calls that serve the ftp process: its commands, and what is done on sockets for them.
abbrev pub is_service : Call → Bool
is_service (Call.get_char fd) = true
is_service Call.socket = true
is_service (Call.bind fd addr) = true
is_service (Call.connect fd addr) = true
is_service (Call.listen fd) = true
is_service (Call.accept fd) = true
is_service (Call.send_rights s fd) = true
is_service _ = false

abbrev event : Call → Answer → Event
event c a = record { call = c; answer = a }

-- The last four calls have made the process the user `nobody`, with its group, and have set its rights:
-- of the rights 0 to 31, to the one to bind low ports, and those from 32 on to `memory`.
pub record Drops (memory : CapData) (log : Log) : Type 0 where
  pub user : Answer
  pub group : Answer
  pub changed : Answer
  pub rights : Answer
  pub before : Log
  pub calls :
      log
      ≡ event
          (Call.capset (record { effective = 1024; permitted = 1024; inheritable = 0 }) memory)
          rights
        ∷ event (Call.seteuid user.value) changed
        ∷ event (Call.setegid user.second) group
        ∷ event (Call.getpwnam (codes "nobody")) user
        ∷ before
  pub granted : (user.ok ≡ true) × (group.ok ≡ true) × (changed.ok ≡ true) × (rights.ok ≡ true)

abbrev pub HasDropped : CapData → Log → Type 0
HasDropped memory [] = ⊥
HasDropped memory (e ∷ log) = Drops memory (e ∷ log) ⊎ HasDropped memory log

-- Behind each call that serves, that is, further down the log, user, group and rights are changed.
abbrev pub IsGuarded : CapData → Log → Type 0
IsGuarded memory [] = ⊤
IsGuarded memory (e ∷ log) =
    IsGuarded memory log × (is_service e.call ≡ true → HasDropped memory log)

abbrev IsReady : CapData → Log → Type 0
IsReady memory log = IsGuarded memory log × HasDropped memory log

IsReady-OfLog : (memory : CapData) → OfLog (IsReady memory)
IsReady-OfLog memory = record { after = λ e log (g, d). ((g, λ _. d), inr d) }

module _ {A : Type 0} (E : Log → Type 0) (R : A → Log → Type 0) (f : Answer → Proc A)
    (env : Env) where
  decided :
      (b : Bool) (a : Answer) (log : Log)
      → (b ≡ false → E log)
      → (b ≡ true → Ends E R (f a env log))
      → Ends E R (((if b then pure a else exit 1) >>= f) env log)
  unfolding ◌>>=◌ pure stop
  decided true a log bad ok = ok refl
  decided false a log bad ok = bad refl

  -- A call behind which the process goes on where it succeeds.
  call_or_exit-Ends :
      (c : Call) (log : Log)
      → E (event c (env log c) ∷ log)
      → ((env log c).ok ≡ true → Ends E R (f (env log c) env (event c (env log c) ∷ log)))
      → Ends E R ((call_or_exit c >>= f) env log)
  unfolding ◌>>=◌ call_or_exit call
  call_or_exit-Ends c log bad ok =
      let a = env log c in decided a.ok a (event c a ∷ log) (λ _. bad) ok

quiet :
    (memory : CapData) (c : Call) (a : Answer) (log : Log)
    → is_service c ≡ false
    → IsGuarded memory log
    → IsGuarded memory (event c a ∷ log)
quiet memory c a log other g = (g, λ yes. cc (yes, other))

create_nobody-Ends :
    (memory : CapData) (env : Env) (log : Log)
    → IsGuarded memory log
    → Ends (IsGuarded memory) (λ _. IsReady memory) (create_nobody_process memory env log)
unfolding create_nobody_process pure
create_nobody-Ends memory env log g =
    let R : ⊤ → Log → Type 0 = λ _. IsReady memory in
    let c1 = Call.getpwnam (codes "nobody") in
    let user = env log c1 in
    let log1 = event c1 user ∷ log in
    let g1 : IsGuarded memory log1 = quiet memory c1 user log refl g in
    let c2 = Call.setegid user.second in
    let log2 = event c2 (env log1 c2) ∷ log1 in
    let g2 : IsGuarded memory log2 = quiet memory c2 (env log1 c2) log1 refl g1 in
    let c3 = Call.seteuid user.value in
    let log3 = event c3 (env log2 c3) ∷ log2 in
    let g3 : IsGuarded memory log3 = quiet memory c3 (env log2 c3) log2 refl g2 in
    let c4 = Call.capset cap_data memory in
    let g4 : IsGuarded memory (event c4 (env log3 c4) ∷ log3) =
      quiet memory c4 (env log3 c4) log3 refl g3 in
    let p4 = call_or_exit c4 >> pure tt in
    let p3 = call_or_exit c3 >> p4 in
    call_or_exit-Ends (IsGuarded memory) R
      (λ pw. call_or_exit (Call.setegid pw.second) >> (call_or_exit (Call.seteuid pw.value) >> p4))
      env c1 log g1
      λ ok1.
        call_or_exit-Ends (IsGuarded memory) R (λ _. p3) env c2 log1 g2
          λ ok2.
            call_or_exit-Ends (IsGuarded memory) R (λ _. p4) env c3 log2 g3
              λ ok3.
                call_or_exit-Ends (IsGuarded memory) R (λ _. pure tt) env c4 log3 g4
                  λ ok4. (
                    g4,
                    inl (record {
                      user = user;
                      group = env log1 c2;
                      changed = env log2 c3;
                      rights = env log3 c4;
                      before = log;
                      calls = refl;
                      granted = (ok1, ok2, ok3, ok4);
                    }),
                  )

-- Behind the drop.
behind-IsGuarded :
    (memory : CapData) (p : Proc ⊤) (env : Env) (o : Outcome ⊤) (log : Log)
    → ((l : Log) → IsReady memory l → IsReady memory (p env l).1)
    → Ends (IsGuarded memory) (λ _. IsReady memory) (o, log)
    → IsGuarded memory (go_on (λ _. p) env (o, log)).1
behind-IsGuarded memory p env (done a) log k h = (k log h).0
behind-IsGuarded memory p env (exited n) log k h = h
behind-IsGuarded memory p env aborted log k h = h
behind-IsGuarded memory p env undefined log k h = h
behind-IsGuarded memory p env unfinished log k h = h

-- However the ftp process, the client and the kernel behave, over any number of rounds and however
-- it ends: the nobody process reads a command, makes, binds, connects or listens on a socket,
-- accepts a client or hands over a descriptor only behind `setegid` and `seteuid` to the ids that
-- `getpwnam` gives for "nobody", and a `capset` that asks, of the rights 0 to 31, for the one to bind
-- low ports (effective and permitted) and for no other. They come in this order and have all
-- succeeded. For the rights from 32 on that `capset` asks for whatever the memory behind `cap_data`
-- holds.
pub start_nobody-IsGuarded :
    (memory : CapData) (n rounds : ℕ) (config : Config) (pic_fd ftp_fd : ℕ) (env : Env)
    → IsGuarded memory (start_nobody memory n rounds config pic_fd ftp_fd env []).1
unfolding start_nobody ◌>>=◌ call
start_nobody-IsGuarded memory n rounds config pic_fd ftp_fd env =
    let log : Log = event (Call.close (some ftp_fd)) (env [] (Call.close (some ftp_fd))) ∷ [] in
    let (o, log') = create_nobody_process memory env log in
    let serve = serve_nobody n rounds config pic_fd none in
    behind-IsGuarded memory serve env o log'
      (λ l h. (Keeps-serve_nobody (IsReady-OfLog memory) n rounds config pic_fd none).at env l h)
      (create_nobody-Ends memory env log
        (quiet memory (Call.close (some ftp_fd)) (env [] (Call.close (some ftp_fd))) [] refl tt))
