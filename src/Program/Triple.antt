-- ===== src/Program/Triple.antt =====
-- Programs with what holds before and what holds behind them. `E` holds where a run
-- ends early.
use mini_ftpd.Prelude.{ℕ, Bool, true, false, Option, none, some, ⊤, ◌≡◌, refl, if◌then◌else◌}
use mini_ftpd.Program.{
  Outcome, done, exited, aborted, undefined, unfinished, Program, pure, stop, exit, go_on, ◌>>=◌,
  case_option,
}

-- What holds at the end of a run.
abbrev pub Ends : {M A : Type 0} → (M → Type 0) → (A → M → Type 0) → Outcome A × M → Type 0
Ends E R (done a, m) = R a m
Ends E R (exited n, m) = E m
Ends E R (aborted, m) = E m
Ends E R (undefined, m) = E m
Ends E R (unfinished, m) = E m

pub record Gives {X M A : Type 0} (E : M → Type 0) (P : M → Type 0) (p : Program X M A)
    (R : A → M → Type 0) : Type 0 where
  pub at : (env : X) (m : M) → P m → Ends E R (p env m)

module _ {X M A : Type 0} {E P : M → Type 0} {R : A → M → Type 0} where
  pub Gives-pure : (a : A) → ((m : M) → P m → R a m) → Gives {X = X} E P (pure a) R
  unfolding pure
  Gives-pure a k = record { at = λ env m h. k m h }

  pub Gives-exit : (n : ℕ) → ((m : M) → P m → E m) → Gives {X = X} E P (exit n) R
  unfolding stop
  Gives-exit n k = record { at = λ env m h. k m h }

  pub Gives-unfinished : ((m : M) → P m → E m) → Gives {X = X} E P (stop unfinished) R
  unfolding stop
  Gives-unfinished k = record { at = λ env m h. k m h }

  pub Gives-undefined : ((m : M) → P m → E m) → Gives {X = X} E P (stop undefined) R
  unfolding stop
  Gives-undefined k = record { at = λ env m h. k m h }

  pub Gives-if :
      (b : Bool) (p q : Program X M A)
      → (b ≡ true → Gives E P p R)
      → (b ≡ false → Gives E P q R)
      → Gives E P (if b then p else q) R
  Gives-if true p q kp kq = kp refl
  Gives-if false p q kp kq = kq refl

module _ {X M A B : Type 0} {E : M → Type 0} {R : A → M → Type 0} {S : B → M → Type 0} where
  go_on-gives :
      (f : A → Program X M B) (env : X) (o : Outcome A) (m : M)
      → ((a : A) → Gives E (R a) (f a) S)
      → Ends E R (o, m)
      → Ends E S (go_on f env (o, m))
  go_on-gives f env (done a) m k h = (k a).at env m h
  go_on-gives f env (exited n) m k h = h
  go_on-gives f env aborted m k h = h
  go_on-gives f env undefined m k h = h
  go_on-gives f env unfinished m k h = h

module _ {X M A B : Type 0} {E P : M → Type 0} {R : A → M → Type 0} {S : B → M → Type 0} where
  pub Gives-bind :
      (p : Program X M A) (f : A → Program X M B)
      → Gives E P p R
      → ((a : A) → Gives E (R a) (f a) S)
      → Gives E P (p >>= f) S
  unfolding ◌>>=◌
  Gives-bind p f kp kf = record {
    at = λ env m h. let (o, m') = p env m in go_on-gives f env o m' kf (kp.at env m h);
  }

pub Gives-case_option :
    {X M A B : Type 0} {E P : M → Type 0} {R : B → M → Type 0} (o : Option A) (p : Program X M B)
    (q : A → Program X M B)
    → Gives E P p R
    → ((a : A) → Gives E P (q a) R)
    → Gives E P (case_option o p q) R
unfolding case_option
Gives-case_option none p q kp kq = kp
Gives-case_option (some a) p q kp kq = kq a

pub Gives-from :
    {X M A : Type 0} {E P Q : M → Type 0} {R : A → M → Type 0} {p : Program X M A}
    → ((m : M) → Q m → P m)
    → Gives E P p R
    → Gives E Q p R
Gives-from k g = record { at = λ env m h. g.at env m (k m h) }

Ends-into :
    {M A : Type 0} (E : M → Type 0) (R S : A → M → Type 0) (o : Outcome A) (m : M)
    → ((a : A) (m : M) → R a m → S a m)
    → Ends E R (o, m)
    → Ends E S (o, m)
Ends-into E R S (done a) m k h = k a m h
Ends-into E R S (exited n) m k h = h
Ends-into E R S aborted m k h = h
Ends-into E R S undefined m k h = h
Ends-into E R S unfinished m k h = h

pub Gives-into :
    {X M A : Type 0} {E P : M → Type 0} {R S : A → M → Type 0} {p : Program X M A}
    → ((a : A) (m : M) → R a m → S a m)
    → Gives E P p R
    → Gives E P p S
Gives-into {E} {R} {S} {p} k g = record {
  at = λ env m h. Ends-into E R S (p env m).0 (p env m).1 k (g.at env m h);
}

-- Nothing is said.
abbrev pub Anything : {M : Type 0} → M → Type 0
Anything m = ⊤

Ends-any : {M A : Type 0} (o : Outcome A) (m : M) → Ends Anything (λ _ n. Anything n) (o, m)
Ends-any (done a) m = tt
Ends-any (exited n) m = tt
Ends-any aborted m = tt
Ends-any undefined m = tt
Ends-any unfinished m = tt

-- What a program ends with is what its last part ends with.
pub Gives-then :
    {X M A B : Type 0} {R : B → M → Type 0} (p : Program X M A) (f : A → Program X M B)
    → ((a : A) → Gives Anything Anything (f a) R)
    → Gives Anything Anything (p >>= f) R
Gives-then p f k =
    Gives-bind p f (record { at = λ env m h. let (o, m') = p env m in Ends-any o m' }) k
