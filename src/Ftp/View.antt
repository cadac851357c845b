-- ===== src/Ftp/View.antt =====
-- What the calls of the ftp process have brought about, as far as a view of them looks, and the parts
-- of a transfer that keep it.
use mini_ftpd.Prelude.{ℕ, suc, ◌≤◌, ◌≡◌, ap, ◌∙◌, arith, Bool, List, [], ◌∷◌, length, if◌then◌else◌}
use mini_ftpd.Text.Bytes.{Bytes}
use mini_ftpd.Session.Defs.{Session}
use mini_ftpd.Ftp.Proc.{
  Fd, Call, Answer, Event, Env, Machine, Proc, pure, exit, ◌>>=◌, call, get_session, get_config,
  put_session, reply,
}
use mini_ftpd.Ftp.Triple.{
  Gives, Gives-pure, Gives-exit, Gives-if, Gives-bind, Gives-into, Anything, Gives-get_session,
  Gives-get_config, Gives-call, Gives-put_session,
}
use mini_ftpd.Ftp.Transfer.{
  control_alarm_handler, parse_command, sigurg_handler, deliver, await_data,
}

-- What a view shows at first, and behind one more call. It does not show what a transfer does while
-- it waits.
pub record View : Type 1 where
  pub State : Type 0
  pub start : State
  pub after : Call → Answer → State → State
  pub write_n : (fd : Fd) (bs : Bytes) (a : Answer) (s : State) → after (Call.write_n fd bs) a s ≡ s
  pub readline : (fd : ℕ) (a : Answer) (s : State) → after (Call.readline fd) a s ≡ s
  pub shutdown : (fd : Fd) (a : Answer) (s : State) → after (Call.shutdown fd) a s ≡ s
  pub read_timeout :
      (fd : Fd) (n : ℕ) (a : Answer) (s : State) → after (Call.read_timeout fd n) a s ≡ s
  pub write_timeout :
      (fd : Fd) (n : ℕ) (a : Answer) (s : State) → after (Call.write_timeout fd n) a s ≡ s
  pub limit_speed :
      (n : ℕ) (up : Bool) (a : Answer) (s : State) → after (Call.limit_speed n up) a s ≡ s

module _ (v : View) where
  open v use {State, start, after}

  unfoldable pub viewed : List Event → State
  viewed [] = start
  viewed (e ∷ log) = after e.call e.answer (viewed log)

  -- At least `k` events, and what they show.
  pub record At (k : ℕ) (s : State) (m : Machine) : Type 0 where
    pub events : k ≤ length m.log
    pub shown : viewed m.log ≡ s

  pub record Steady {A : Type 0} (p : Proc A) : Type 0 where
    pub at : (k : ℕ) (s : State) → Gives {X = Env} Anything (At k s) p (λ _. At k s)

  -- A call, by what it shows.
  pub call-At :
      (c : Call) (k : ℕ) (s : State)
      → Gives {X = Env} Anything (At k s) (call c) (λ a. At (suc k) (after c a s))
  unfolding viewed
  call-At c k s =
      Gives-call {R = λ a. At (suc k) (after c a s)} c
        (λ m a h. record { events = omega (arith, h.events); shown = ap (after c a) h.shown })

  pub neutral-Steady : (c : Call) → ((a : Answer) (s : State) → after c a s ≡ s) → Steady (call c)
  unfolding viewed
  neutral-Steady c n = record {
    at = λ k s. Gives-call {R = λ _. At k s} c (λ m a h. record {
      events = omega (arith, h.events);
      shown = ap (after c a) h.shown ∙ n a s;
    });
  }

  pub get_session-Steady : Steady get_session
  get_session-Steady = record {
    at = λ k s. Gives-into (λ _ m h. h.0) (Gives-get_session {E = Anything} {P = At k s});
  }

  pub get_config-Steady : Steady get_config
  get_config-Steady = record { at = λ k s. Gives-get_config }

  pub put_session-Steady : (x : Session) → Steady (put_session x)
  put_session-Steady x = record {
    at = λ k s.
        Gives-put_session {R = λ _. At k s} x
          (λ m h. record { events = h.events; shown = h.shown });
  }

  module _ {A : Type 0} where
    pub pure-Steady : (a : A) → Steady (pure a)
    pure-Steady a = record { at = λ k s. Gives-pure a (λ m h. h) }

    pub exit-Steady : (n : ℕ) → Steady (exit {A = A} n)
    exit-Steady n = record { at = λ k s. Gives-exit n (λ _ _. tt) }

    pub if-Steady : (b : Bool) (p q : Proc A) → Steady p → Steady q → Steady (if b then p else q)
    if-Steady b p q kp kq = record { at = λ k s. Gives-if b p q (λ _. kp.at k s) (λ _. kq.at k s) }

  pub bind-Steady :
      {A B : Type 0} (p : Proc A) (f : A → Proc B)
      → Steady p
      → ((a : A) → Steady (f a))
      → Steady (p >>= f)
  bind-Steady p f kp kf = record { at = λ k s. Gives-bind p f (kp.at k s) (λ a. (kf a).at k s) }

  pub write_n-Steady : (fd : Fd) (bs : Bytes) → Steady (call (Call.write_n fd bs))
  write_n-Steady fd bs = neutral-Steady _ (v.write_n fd bs)

  pub readline-Steady : (fd : ℕ) → Steady (call (Call.readline fd))
  readline-Steady fd = neutral-Steady _ (v.readline fd)

  pub shutdown-Steady : (fd : Fd) → Steady (call (Call.shutdown fd))
  shutdown-Steady fd = neutral-Steady _ (v.shutdown fd)

  pub read_timeout-Steady : (fd : Fd) (n : ℕ) → Steady (call (Call.read_timeout fd n))
  read_timeout-Steady fd n = neutral-Steady _ (v.read_timeout fd n)

  pub write_timeout-Steady : (fd : Fd) (n : ℕ) → Steady (call (Call.write_timeout fd n))
  write_timeout-Steady fd n = neutral-Steady _ (v.write_timeout fd n)

  pub limit_speed-Steady : (n : ℕ) (up : Bool) → Steady (call (Call.limit_speed n up))
  limit_speed-Steady n up = neutral-Steady _ (v.limit_speed n up)

  pub ruleset steady_rules = (
    pure-Steady, exit-Steady, if-Steady, bind-Steady, get_session-Steady, get_config-Steady,
    put_session-Steady, write_n-Steady, readline-Steady, shutdown-Steady, read_timeout-Steady,
    write_timeout-Steady, limit_speed-Steady,
  )

  pub reply-Steady : (text : Bytes) → Steady (reply text)
  unfolding reply
  reply-Steady text = search steady_rules depth 20

  control_alarm_handler-Steady : Steady control_alarm_handler
  unfolding control_alarm_handler
  control_alarm_handler-Steady = search (steady_rules, reply-Steady) depth 20

  parse_command-Steady : Steady parse_command
  unfolding parse_command
  parse_command-Steady = search (steady_rules, control_alarm_handler-Steady) depth 20

  sigurg_handler-Steady : Steady sigurg_handler
  unfolding sigurg_handler
  sigurg_handler-Steady = search (steady_rules, reply-Steady, parse_command-Steady) depth 20

  pub deliver-Steady : (a : Answer) → Steady (deliver a)
  unfolding deliver
  deliver-Steady a = search (steady_rules, sigurg_handler-Steady) depth 20

  pub await_read-Steady : Steady (await_data Call.read_timeout)
  unfolding await_data
  await_read-Steady = search (steady_rules, reply-Steady) depth 20

  pub await_write-Steady : Steady (await_data Call.write_timeout)
  unfolding await_data
  await_write-Steady = search (steady_rules, reply-Steady) depth 20
