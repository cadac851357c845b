-- ===== src/Ftp/Keeps.antt =====
-- Properties of the machine that a program keeps, by the way the program is built.
use mini_ftpd.Prelude.{ℕ, Bool, true, false, Option, none, some, ◌∷◌, if◌then◌else◌}
use mini_ftpd.Text.Bytes.{Bytes}
use mini_ftpd.Session.Defs.{Session}
use mini_ftpd.Config.Defs.{Config}
use mini_ftpd.Ftp.Proc.{
  Call, Event, Env, Machine, Outcome, done, exited, aborted, undefined, unfinished, Proc, pure,
  stop, go_on, ◌>>=◌, case_option, call, get_session, get_config, put_session, put_config, reply,
  reply_buffer,
}

-- `p` keeps `P`, however it ends.
pub record Keeps {A : Type 0} (P : Machine → Type 0) (p : Proc A) : Type 0 where
  pub at : (env : Env) (m : Machine) → P m → P (p env m).1

-- A property of the log that every call keeps, and nothing else touches.
pub record OfLog (P : Machine → Type 0) : Type 0 where
  pub after_call : (m : Machine) (e : Event) → P m → P (record m { log = e ∷ m.log })
  pub after_session : (m : Machine) (s : Session) → P m → P (record m { session = s })
  pub after_config : (m : Machine) (c : Config) → P m → P (record m { config = c })

module _ {A : Type 0} {P : Machine → Type 0} where
  pub Keeps-pure : (a : A) → Keeps P (pure a)
  unfolding pure
  Keeps-pure a = record { at = λ env m h. h }

  pub Keeps-stop : (o : Outcome A) → Keeps P (stop o)
  unfolding stop
  Keeps-stop o = record { at = λ env m h. h }

  pub Keeps-if : (b : Bool) (p q : Proc A) → Keeps P p → Keeps P q → Keeps P (if b then p else q)
  Keeps-if true p q kp kq = kp
  Keeps-if false p q kp kq = kq

module _ {A B : Type 0} {P : Machine → Type 0} where
  go_on-keeps :
      (f : A → Proc B) (env : Env) (o : Outcome A) (m : Machine)
      → ((a : A) → Keeps P (f a))
      → P m
      → P (go_on f env (o, m)).1
  go_on-keeps f env (done a) m k h = (k a).at env m h
  go_on-keeps f env (exited n) m k h = h
  go_on-keeps f env aborted m k h = h
  go_on-keeps f env undefined m k h = h
  go_on-keeps f env unfinished m k h = h

  pub Keeps-bind :
      (p : Proc A) (f : A → Proc B) → Keeps P p → ((a : A) → Keeps P (f a)) → Keeps P (p >>= f)
  unfolding ◌>>=◌
  Keeps-bind p f kp kf = record {
    at = λ env m h. let (o, m') = p env m in go_on-keeps f env o m' kf (kp.at env m h);
  }

  pub Keeps-case_option :
      (o : Option A) (p : Proc B) (q : A → Proc B)
      → Keeps P p
      → ((a : A) → Keeps P (q a))
      → Keeps P (case_option o p q)
  unfolding case_option
  Keeps-case_option none p q kp kq = kp
  Keeps-case_option (some a) p q kp kq = kq a

module _ {P : Machine → Type 0} where
  pub Keeps-get_session : Keeps P get_session
  unfolding get_session
  Keeps-get_session = record { at = λ env m h. h }

  pub Keeps-get_config : Keeps P get_config
  unfolding get_config
  Keeps-get_config = record { at = λ env m h. h }

-- The steps that change the machine, for a property of the log.
module _ {P : Machine → Type 0} (l : OfLog P) where
  pub Keeps-call : (c : Call) → Keeps P (call c)
  unfolding call
  Keeps-call c = record {
    at = λ env m h. l.after_call m (record { call = c; answer = env m.log c }) h;
  }

  pub Keeps-put_session : (s : Session) → Keeps P (put_session s)
  unfolding put_session
  Keeps-put_session s = record { at = λ env m h. l.after_session m s h }

  pub Keeps-put_config : (c : Config) → Keeps P (put_config c)
  unfolding put_config
  Keeps-put_config c = record { at = λ env m h. l.after_config m c h }

pub ruleset keeps_rules = (
  Keeps-pure, Keeps-stop, Keeps-if, Keeps-bind, Keeps-case_option, Keeps-get_session,
  Keeps-get_config, Keeps-call, Keeps-put_session, Keeps-put_config,
)

module _ {P : Machine → Type 0} (l : OfLog P) where
  pub Keeps-reply : (t : Bytes) → Keeps P (reply t)
  unfolding reply
  Keeps-reply t = search keeps_rules depth 9

  pub Keeps-reply_buffer : (n : ℕ) (t : Bytes) → Keeps P (reply_buffer n t)
  unfolding reply_buffer
  Keeps-reply_buffer n t = search keeps_rules depth 9

pub ruleset step_rules = (keeps_rules, Keeps-reply, Keeps-reply_buffer)
