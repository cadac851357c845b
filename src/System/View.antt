-- ===== src/System/View.antt =====
-- What the calls of a process have brought about, as far as a view of them looks, and the programs
-- that keep it.
use mini_ftpd.Prelude.{ℕ, ◌≡◌, ap, ◌∙◌, Bool, Option, [], ◌∷◌, if◌then◌else◌}
use mini_ftpd.Program.{pure, exit, ◌>>=◌, case_option}
use mini_ftpd.Program.Triple.{
  Gives, Gives-pure, Gives-exit, Gives-if, Gives-bind, Gives-case_option, Anything,
}
use mini_ftpd.System.Calls.{Call, Answer, Log, Env, Proc, call}
use mini_ftpd.System.Retry.{until_done, Gives-call, Gives-until_done}
use mini_ftpd.System.Create.Defs.{call_or_exit}

-- What a view shows at first, and behind one more call.
pub record View : Type 1 where
  pub State : Type 0
  pub start : State
  pub after : Call → Answer → State → State

module _ (v : View) where
  open v use {State, start, after}

  unfoldable pub viewed : Log → State
  viewed [] = start
  viewed (e ∷ log) = after e.call e.answer (viewed log)

  abbrev pub Sees : State → Log → Type 0
  Sees s log = viewed log ≡ s

  -- Calls and programs that the view does not show.
  abbrev pub IsNeutral : Call → Type 0
  IsNeutral c = (a : Answer) (s : State) → after c a s ≡ s

  abbrev pub Steady : {A : Type 0} → Proc A → Type 0
  Steady {A} p = (s : State) → Gives {X = Env} Anything (Sees s) p (λ _. Sees s)

  -- A call, by what it shows.
  pub call-Sees :
      (c : Call) (s : State) → Gives {X = Env} Anything (Sees s) (call c) (λ a. Sees (after c a s))
  unfolding viewed
  call-Sees c s = Gives-call {R = λ a. Sees (after c a s)} c (λ log a h. ap (after c a) h)

  pub call-Steady : (c : Call) → IsNeutral c → Steady (call c)
  unfolding viewed
  call-Steady c k s = Gives-call {R = λ _. Sees s} c (λ log a h. ap (after c a) h ∙ k a s)

  pub until_done-Steady : (f : ℕ) (c : Call) → IsNeutral c → Steady (until_done f c)
  unfolding viewed
  until_done-Steady f c k s =
      Gives-until_done {E = Anything} {P = Sees s} {R = λ _. Sees s} f c (λ log h. tt)
        (λ log a e h. ap (after c a) h ∙ k a s) (λ log a e h. ap (after c a) h ∙ k a s)

  pub bind-Steady :
      {A B : Type 0} (p : Proc A) (q : A → Proc B)
      → Steady p
      → ((a : A) → Steady (q a))
      → Steady (p >>= q)
  bind-Steady p q kp kq s = Gives-bind p q (kp s) (λ a. kq a s)

  pub if-Steady :
      {A : Type 0} (b : Bool) (p q : Proc A) → Steady p → Steady q → Steady (if b then p else q)
  if-Steady b p q kp kq s = Gives-if b p q (λ _. kp s) (λ _. kq s)

  pub case_option-Steady :
      {A B : Type 0} (o : Option A) (p : Proc B) (q : A → Proc B)
      → Steady p
      → ((a : A) → Steady (q a))
      → Steady (case_option o p q)
  case_option-Steady o p q kp kq s = Gives-case_option o p q (kp s) (λ a. kq a s)

  pub pure-Steady : {A : Type 0} (a : A) → Steady {A = A} (pure a)
  pure-Steady a s = Gives-pure a (λ _ h. h)

  pub exit-Steady : {A : Type 0} (n : ℕ) → Steady {A = A} (exit n)
  exit-Steady n s = Gives-exit n (λ _ _. tt)

  pub call_or_exit-Steady : (c : Call) → IsNeutral c → Steady (call_or_exit c)
  unfolding call_or_exit
  call_or_exit-Steady c k =
      bind-Steady (call c) _ (call-Steady c k)
        λ a. if-Steady a.ok _ _ (pure-Steady a) (exit-Steady 1)
