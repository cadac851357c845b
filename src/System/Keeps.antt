-- ===== src/System/Keeps.antt =====
-- Properties of the log that a program keeps, however it ends.
use mini_ftpd.Prelude.{ℕ, zero, suc, Bool, true, false, Option, none, some, ◌∷◌, if◌then◌else◌}
use mini_ftpd.Program.{
  Outcome, done, exited, aborted, undefined, unfinished, pure, stop, go_on, ◌>>=◌, case_option,
}
use mini_ftpd.System.Calls.{Call, Event, Log, Env, Proc, call}
use mini_ftpd.System.Retry.{is_interrupted, until_done}

pub record Keeps {A : Type 0} (P : Log → Type 0) (p : Proc A) : Type 0 where
  pub at : (env : Env) (log : Log) → P log → P (p env log).1

module _ {A : Type 0} {P : Log → Type 0} where
  pub Keeps-pure : (a : A) → Keeps P (pure a)
  unfolding pure
  Keeps-pure a = record { at = λ env log h. h }

  pub Keeps-stop : (o : Outcome A) → Keeps P (stop o)
  unfolding stop
  Keeps-stop o = record { at = λ env log h. h }

  pub Keeps-if : (b : Bool) (p q : Proc A) → Keeps P p → Keeps P q → Keeps P (if b then p else q)
  Keeps-if true p q kp kq = kp
  Keeps-if false p q kp kq = kq

module _ {A B : Type 0} {P : Log → Type 0} where
  go_on-keeps :
      (f : A → Proc B) (env : Env) (o : Outcome A) (log : Log)
      → ((a : A) → Keeps P (f a))
      → P log
      → P (go_on f env (o, log)).1
  go_on-keeps f env (done a) log k h = (k a).at env log h
  go_on-keeps f env (exited n) log k h = h
  go_on-keeps f env aborted log k h = h
  go_on-keeps f env undefined log k h = h
  go_on-keeps f env unfinished log k h = h

  pub Keeps-bind :
      (p : Proc A) (f : A → Proc B) → Keeps P p → ((a : A) → Keeps P (f a)) → Keeps P (p >>= f)
  unfolding ◌>>=◌
  Keeps-bind p f kp kf = record {
    at = λ env log h. let (o, log') = p env log in go_on-keeps f env o log' kf (kp.at env log h);
  }

  pub Keeps-case_option :
      (o : Option A) (p : Proc B) (q : A → Proc B)
      → Keeps P p
      → ((a : A) → Keeps P (q a))
      → Keeps P (case_option o p q)
  unfolding case_option
  Keeps-case_option none p q kp kq = kp
  Keeps-case_option (some a) p q kp kq = kq a

-- A property that every call keeps.
pub record OfLog (P : Log → Type 0) : Type 0 where
  pub after : (e : Event) (log : Log) → P log → P (e ∷ log)

module _ {P : Log → Type 0} (l : OfLog P) where
  pub Keeps-call : (c : Call) → Keeps P (call c)
  unfolding call
  Keeps-call c = record {
    at = λ env log h. l.after (record { call = c; answer = env log c }) log h;
  }

  pub Keeps-until_done : (f : ℕ) (c : Call) → Keeps P (until_done f c)
  unfolding until_done
  Keeps-until_done zero c = Keeps-stop unfinished
  Keeps-until_done (suc f) c =
      Keeps-bind (call c) _ (Keeps-call c)
        λ a. Keeps-if (is_interrupted a) _ _ (Keeps-until_done f c) (Keeps-pure a)

pub ruleset keeps_rules =
    (Keeps-pure, Keeps-stop, Keeps-if, Keeps-bind, Keeps-case_option, Keeps-call, Keeps-until_done)
