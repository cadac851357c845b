-- ===== src/Program/Settles.antt =====
-- Programs that come to an end, whatever they start from: with a value or by `exit`.
use mini_ftpd.Prelude.{ℕ, Bool, true, false, Option, none, some, ⊤, ◌≡◌, refl, if◌then◌else◌}
use mini_ftpd.Program.{
  Outcome, done, exited, aborted, undefined, unfinished, Program, pure, stop, exit, go_on, ◌>>=◌,
  case_option,
}
use mini_ftpd.Program.Triple.{Ends, Gives}

abbrev pub is_settled : {A : Type 0} → Outcome A → Bool
is_settled (done a) = true
is_settled (exited n) = true
is_settled aborted = false
is_settled undefined = false
is_settled unfinished = false

-- What holds at the end of a run that comes to one.
abbrev pub Comes : {M A : Type 0} → (A → M → Type 0) → Outcome A × M → Type 0
Comes R (done a, m) = R a m
Comes R (exited n, m) = ⊤
Comes R (aborted, m) = ⊥
Comes R (undefined, m) = ⊥
Comes R (unfinished, m) = ⊥

pub record Settles {X M A : Type 0} (env : X) (p : Program X M A) : Type 0 where
  pub at : (m : M) → is_settled (p env m).0 ≡ true

module _ {X M A : Type 0} {env : X} where
  pub Settles-pure : (a : A) → Settles {M = M} env (pure a)
  unfolding pure
  Settles-pure a = record { at = λ m. refl }

  pub Settles-exit : (n : ℕ) → Settles {M = M} {A = A} env (exit n)
  unfolding stop
  Settles-exit n = record { at = λ m. refl }

  pub Settles-if :
      (b : Bool) (p q : Program X M A)
      → Settles env p
      → Settles env q
      → Settles env (if b then p else q)
  Settles-if true p q kp kq = kp
  Settles-if false p q kp kq = kq

module _ {X M A B : Type 0} {env : X} where
  go_on-settled :
      (f : A → Program X M B) (o : Outcome A) (m : M)
      → ((a : A) → Settles env (f a))
      → is_settled o ≡ true
      → is_settled (go_on f env (o, m)).0 ≡ true
  go_on-settled f (done a) m k h = (k a).at m
  go_on-settled f (exited n) m k h = refl
  go_on-settled f aborted m k h = h
  go_on-settled f undefined m k h = h
  go_on-settled f unfinished m k h = h

  pub Settles-bind :
      (p : Program X M A) (f : A → Program X M B)
      → Settles env p
      → ((a : A) → Settles env (f a))
      → Settles env (p >>= f)
  unfolding ◌>>=◌
  Settles-bind p f kp kf = record { at = λ m. go_on-settled f (p env m).0 (p env m).1 kf (kp.at m) }

  pub Settles-case_option :
      (o : Option A) (p : Program X M B) (q : A → Program X M B)
      → Settles env p
      → ((a : A) → Settles env (q a))
      → Settles env (case_option o p q)
  unfolding case_option
  Settles-case_option none p q kp kq = kp
  Settles-case_option (some a) p q kp kq = kq a

Comes-from :
    {M A : Type 0} (E : M → Type 0) (R : A → M → Type 0) (o : Outcome A) (m : M)
    → is_settled o ≡ true
    → Ends E R (o, m)
    → Comes R (o, m)
Comes-from E R (done a) m h k = k
Comes-from E R (exited n) m h k = tt
Comes-from E R aborted m h k = cc h
Comes-from E R undefined m h k = cc h
Comes-from E R unfinished m h k = cc h

pub settled-Comes :
    {X M A : Type 0} {env : X} {p : Program X M A} {E P : M → Type 0} {R : A → M → Type 0}
    → Settles env p
    → Gives E P p R
    → (m : M) → P m
    → Comes R (p env m)
settled-Comes {env} {p} {E} {P} {R} s g m h =
    Comes-from E R (p env m).0 (p env m).1 (s.at m) (g.at env m h)

module _ {X M A B : Type 0} (R : A → M → Type 0) (S : B → M → Type 0) where
  go_on-Comes :
      (f : A → Program X M B) (env : X) (o : Outcome A) (m : M)
      → ((a : A) (m' : M) → R a m' → Comes S (f a env m'))
      → Comes R (o, m)
      → Comes S (go_on f env (o, m))
  go_on-Comes f env (done a) m k h = k a m h
  go_on-Comes f env (exited n) m k h = tt
  go_on-Comes f env aborted m k h = h
  go_on-Comes f env undefined m k h = h
  go_on-Comes f env unfinished m k h = h

  pub Comes-bind :
      (p : Program X M A) (f : A → Program X M B) (env : X) (m : M)
      → Comes R (p env m)
      → ((a : A) (m' : M) → R a m' → Comes S (f a env m'))
      → Comes S ((p >>= f) env m)
  unfolding ◌>>=◌
  Comes-bind p f env m h k = go_on-Comes f env (p env m).0 (p env m).1 k h

pub Comes-if :
    {X M A : Type 0} (R : A → M → Type 0) (b : Bool) (p q : Program X M A) (env : X) (m : M)
    → (b ≡ true → Comes R (p env m))
    → (b ≡ false → Comes R (q env m))
    → Comes R ((if b then p else q) env m)
Comes-if R true p q env m kp kq = kp refl
Comes-if R false p q env m kp kq = kq refl

pub Comes-exit :
    {X M A : Type 0} (R : A → M → Type 0) (n : ℕ) (env : X) (m : M)
    → Comes R (exit {E = X} {A = A} n env m)
unfolding stop
Comes-exit R n env m = tt

pub Comes-into :
    {M A : Type 0} (R S : A → M → Type 0) (o : Outcome A) (m : M)
    → ((a : A) (m' : M) → R a m' → S a m')
    → Comes R (o, m)
    → Comes S (o, m)
Comes-into R S (done a) m k h = k a m h
Comes-into R S (exited n) m k h = tt
Comes-into R S aborted m k h = h
Comes-into R S undefined m k h = h
Comes-into R S unfinished m k h = h

pub Comes-both :
    {M A : Type 0} (R S : A → M → Type 0) (o : Outcome A) (m : M)
    → Comes R (o, m)
    → Comes S (o, m)
    → Comes (λ a n. R a n × S a n) (o, m)
Comes-both R S (done a) m h k = (h, k)
Comes-both R S (exited n) m h k = tt
Comes-both R S aborted m h k = h
Comes-both R S undefined m h k = h
Comes-both R S unfinished m h k = h

pub Comes-settled :
    {M A : Type 0} (R : A → M → Type 0) (o : Outcome A) (m : M)
    → Comes R (o, m)
    → is_settled o ≡ true
Comes-settled R (done a) m h = refl
Comes-settled R (exited n) m h = refl
Comes-settled R aborted m h = absurd h
Comes-settled R undefined m h = absurd h
Comes-settled R unfinished m h = absurd h
