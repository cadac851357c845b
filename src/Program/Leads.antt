-- ===== src/Program/Leads.antt =====
-- Runs that come to an end: with a value, by `exit`, or in undefined behaviour, and what holds there.
use mini_ftpd.Prelude.{ℕ, Bool, true, false, Option, none, some, ⊤, ◌≡◌, refl, if◌then◌else◌}
use mini_ftpd.Program.{
  Outcome, done, exited, aborted, undefined, unfinished, Program, stop, exit, go_on, ◌>>=◌,
  case_option,
}
use mini_ftpd.Program.Triple.{Ends}
use mini_ftpd.Program.Settles.{Comes}

pub data Early : Type 0 where
  by_exit by_undefined : Early

-- `U` holds where a run ends early, and `R` where it does not.
abbrev pub Leads : {M A : Type 0} → (Early → M → Type 0) → (A → M → Type 0) → Outcome A × M → Type 0
Leads U R (done a, m) = R a m
Leads U R (exited n, m) = U by_exit m
Leads U R (aborted, m) = ⊥
Leads U R (undefined, m) = U by_undefined m
Leads U R (unfinished, m) = ⊥

module _ {X M A B : Type 0} (U : Early → M → Type 0) (R : A → M → Type 0) (S : B → M → Type 0) where
  go_on-Leads :
      (f : A → Program X M B) (env : X) (o : Outcome A) (m : M)
      → ((a : A) (m' : M) → R a m' → Leads U S (f a env m'))
      → Leads U R (o, m)
      → Leads U S (go_on f env (o, m))
  go_on-Leads f env (done a) m k h = k a m h
  go_on-Leads f env (exited n) m k h = h
  go_on-Leads f env aborted m k h = h
  go_on-Leads f env undefined m k h = h
  go_on-Leads f env unfinished m k h = h

  pub Leads-bind :
      (p : Program X M A) (f : A → Program X M B) (env : X) (m : M)
      → Leads U R (p env m)
      → ((a : A) (m' : M) → R a m' → Leads U S (f a env m'))
      → Leads U S ((p >>= f) env m)
  unfolding ◌>>=◌
  Leads-bind p f env m h k = go_on-Leads f env (p env m).0 (p env m).1 k h

module _ {X M A : Type 0} (U : Early → M → Type 0) (R : A → M → Type 0) where
  pub Leads-if :
      (b : Bool) (p q : Program X M A) (env : X) (m : M)
      → (b ≡ true → Leads U R (p env m))
      → (b ≡ false → Leads U R (q env m))
      → Leads U R ((if b then p else q) env m)
  Leads-if true p q env m kp kq = kp refl
  Leads-if false p q env m kp kq = kq refl

  pub Leads-exit :
      (n : ℕ) (env : X) (m : M) → U by_exit m → Leads U R (exit {E = X} {A = A} n env m)
  unfolding stop
  Leads-exit n env m u = u

  pub Leads-undefined :
      (env : X) (m : M) → U by_undefined m → Leads U R (stop {E = X} {A = A} undefined env m)
  unfolding stop
  Leads-undefined env m u = u

pub Leads-case_option :
    {X M A B : Type 0} (U : Early → M → Type 0) (R : B → M → Type 0) (o : Option A)
    (p : Program X M B) (q : A → Program X M B) (env : X) (m : M)
    → (o ≡ none → Leads U R (p env m))
    → ((a : A) → o ≡ some a → Leads U R (q a env m))
    → Leads U R (case_option o p q env m)
unfolding case_option
Leads-case_option U R none p q env m kp kq = kp refl
Leads-case_option U R (some a) p q env m kp kq = kq a refl

-- An end that is known, with what holds wherever a run ends early.
pub Comes-Leads :
    {M A : Type 0} (U : Early → M → Type 0) (R : A → M → Type 0) (o : Outcome A) (m : M)
    → Comes R (o, m)
    → Ends (U by_exit) (λ _ _. ⊤) (o, m)
    → Leads U R (o, m)
Comes-Leads U R (done a) m h e = h
Comes-Leads U R (exited n) m h e = e
Comes-Leads U R aborted m h e = h
Comes-Leads U R undefined m h e = absurd h
Comes-Leads U R unfinished m h e = h

pub Leads-into :
    {M A : Type 0} (U : Early → M → Type 0) (R S : A → M → Type 0) (o : Outcome A) (m : M)
    → ((a : A) (n : M) → R a n → S a n)
    → Leads U R (o, m)
    → Leads U S (o, m)
Leads-into U R S (done a) m k h = k a m h
Leads-into U R S (exited n) m k h = h
Leads-into U R S aborted m k h = h
Leads-into U R S undefined m k h = h
Leads-into U R S unfinished m k h = h
