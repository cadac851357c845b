-- ===== src/System/Create/Fails.antt =====
-- Where `create_server_or_exit` exits.
use mini_ftpd.Prelude.{ℕ, ◌≡◌, refl, false, Option, [], ◌∷◌}
use mini_ftpd.Text.Bytes.{Bytes}
use mini_ftpd.Program.{pure, exit}
use mini_ftpd.Program.Triple.{
  Gives, Gives-pure, Gives-exit, Gives-if, Gives-bind, Gives-case_option, Anything,
}
use mini_ftpd.System.Calls.{Call, Answer, Log, Env, Proc, call}
use mini_ftpd.System.Retry.{Gives-call}
use mini_ftpd.System.Create.Defs.{call_or_exit, host_addr, create_server_or_exit}

-- The last call has failed.
abbrev pub HasFailed : Log → Type 0
HasFailed [] = ⊥
HasFailed (e ∷ log) = e.answer.ok ≡ false

-- Nothing is said of where it goes on.
abbrev pub Fails : {A : Type 0} → Proc A → Type 0
Fails p = Gives {X = Env} HasFailed Anything p (λ _. Anything)

abbrev IsLast : Answer → Log → Type 0
IsLast a [] = ⊥
IsLast a (e ∷ log) = e.answer ≡ a

IsLast-HasFailed : (a : Answer) (log : Log) → a.ok ≡ false → IsLast a log → HasFailed log
IsLast-HasFailed a [] bad h = h
IsLast-HasFailed a (e ∷ log) bad h = rw h bad

call_or_exit-Fails : (c : Call) → Fails (call_or_exit c)
unfolding call_or_exit
call_or_exit-Fails c = Gives-bind (call c) _ (Gives-call {R = IsLast} c (λ log a h. refl)) λ a.
    Gives-if a.ok (pure a) (exit 1) (λ _. Gives-pure a (λ _ _. tt))
      (λ bad. Gives-exit 1 (λ log h. IsLast-HasFailed a log bad h))

host_addr-Fails : (host : Option Bytes) → Fails (host_addr host)
unfolding host_addr
host_addr-Fails host =
    Gives-case_option host _ _ (Gives-pure _ (λ _ _. tt))
      λ ip. Gives-bind _ _ (call_or_exit-Fails _) λ a. Gives-pure a.addr (λ _ _. tt)

pub create_server-Fails : (host : Option Bytes) (port : ℕ) → Fails (create_server_or_exit host port)
unfolding create_server_or_exit
create_server-Fails host port = Gives-bind _ _ (call_or_exit-Fails _) λ s.
    Gives-bind _ _ (host_addr-Fails host) λ addr. Gives-bind _ _ (call_or_exit-Fails _) λ _.
      Gives-bind _ _ (call_or_exit-Fails _)
        λ _. Gives-bind _ _ (call_or_exit-Fails _) λ _. Gives-pure s.value (λ _ _. tt)
