-- ===== src/Program.antt =====
-- Programs that read an environment, change a state, and may end early.
pub mod Leads
pub mod Settles
pub mod Triple
use mini_ftpd.Prelude.{ℕ, Option, none, some, ⊤}

-- How a run ends: with a value; by `exit`; by an exception that nothing catches; in behaviour that
-- C++ leaves undefined; or with its rounds used up.
pub data Outcome (A : Type 0) : Type 0 where
  done : A → Outcome A
  exited : ℕ → Outcome A
  aborted : Outcome A
  undefined : Outcome A
  unfinished : Outcome A

-- `E` is what a program reads, `M` what it changes.
abbrev pub Program : Type 0 → Type 0 → Type 0 → Type 0
Program E M A = E → M → Outcome A × M

unfoldable pub pure : {E M A : Type 0} → A → Program E M A
pure a env m = (done a, m)

unfoldable pub stop : {E M A : Type 0} → Outcome A → Program E M A
stop o env m = (o, m)

-- `exit(status)`.
abbrev pub exit : {E M A : Type 0} → ℕ → Program E M A
exit n = stop (exited n)

abbrev pub go_on : {E M A B : Type 0} → (A → Program E M B) → E → Outcome A × M → Outcome B × M
go_on f env (done a, m) = f a env m
go_on f env (exited n, m) = (exited n, m)
go_on f env (aborted, m) = (aborted, m)
go_on f env (undefined, m) = (undefined, m)
go_on f env (unfinished, m) = (unfinished, m)

infixl 5 ◌>>=◌ ◌>>◌
-- Opening this opens `pure` and `stop` too.
unfoldable pub ◌>>=◌ : {E M A B : Type 0} → Program E M A → (A → Program E M B) → Program E M B
unfolding pure stop
◌>>=◌ p f env m = go_on f env (p env m)

abbrev pub ◌>>◌ : {E M A B : Type 0} → Program E M A → Program E M B → Program E M B
p >> q = p >>= λ _. q

-- A branch on a value that may be missing.
unfoldable pub case_option :
    {E M A B : Type 0} → Option A → Program E M B → (A → Program E M B) → Program E M B
case_option none p q = p
case_option (some a) p q = q a
