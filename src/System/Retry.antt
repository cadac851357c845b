-- ===== src/System/Retry.antt =====
-- The loops around calls that a signal may interrupt: `while (call(...) == -1 && errno == EINTR);`.
use mini_ftpd.Prelude.{
  ℕ, zero, suc, ◌+◌, ◌≤◌, ◌<◌, ◌≡◌, refl, arith, Bool, true, false, not, ◌&&◌, ◌∷◌, length,
  if◌then◌else◌, Bool-cases, inl, inr,
}
use native.Mathlib.Decide.{dec_lt}
use mini_ftpd.Program.{done, unfinished, pure, stop, ◌>>=◌}
use mini_ftpd.Program.Settles.{
  Settles, Settles-pure, Settles-exit, Settles-if, Settles-bind, Settles-case_option, is_settled,
}
use mini_ftpd.Program.Triple.{Gives, Gives-pure, Gives-unfinished, Gives-if, Gives-bind}
use mini_ftpd.System.Calls.{Errno, interrupted, Call, Answer, Log, Env, Proc, call}

abbrev pub is_eintr : Errno → Bool
is_eintr interrupted = true
is_eintr _ = false

abbrev pub is_interrupted : Answer → Bool
is_interrupted a = not a.ok && is_eintr a.error

-- The answer that ends the loop. Each interruption takes one of the rounds.
unfoldable pub until_done : ℕ → Call → Proc Answer
until_done zero c = stop unfinished
until_done (suc f) c =
    let rest = until_done f c in call c >>= λ a. if is_interrupted a then rest else pure a

module _ {E P : Log → Type 0} where
  pub Gives-call :
      {R : Answer → Log → Type 0} (c : Call)
      → ((log : Log) (a : Answer) → P log → R a (record { call = c; answer = a } ∷ log))
      → Gives {X = Env} E P (call c) R
  unfolding call
  Gives-call c k = record { at = λ env log h. k log (env log c) h }

-- What each answer keeps, and the last one brings about.
pub Gives-until_done :
    {E P : Log → Type 0} {R : Answer → Log → Type 0} (f : ℕ) (c : Call)
    → ((log : Log) → P log → E log)
    → ((log : Log) (a : Answer)
        → is_interrupted a ≡ true
        → P log
        → P (record { call = c; answer = a } ∷ log))
    → ((log : Log) (a : Answer)
        → is_interrupted a ≡ false
        → P log
        → R a (record { call = c; answer = a } ∷ log))
    → Gives {X = Env} E P (until_done f c) R
unfolding until_done
Gives-until_done zero c early again last = Gives-unfinished early
Gives-until_done {E} {P} (suc f) c early again last =
    Gives-bind (call c) _
      (Gives-call
        {R = λ a log'. (log : Log) × (P log × (log' ≡ record { call = c; answer = a } ∷ log))} c
        (λ log a h. (log, (h, refl))))
      λ a.
        Gives-if (is_interrupted a) (until_done f c) (pure a)
          (λ yet. record {
            at = λ env log' h.
                (Gives-until_done f c early again last).at env log'
                  (rw h.1.1 (again h.0 a yet h.1.0));
          })
          (λ over. Gives-pure a (λ log' h. rw h.1.1 (last h.0 a over h.1.0)))

-- Where no call is interrupted once the log has `n` events, the loop ends.
until_done-ends :
    (f n : ℕ) (c : Call) (env : Env) (log : Log)
    → ((l : Log) (d : Call) → n ≤ length l → is_interrupted (env l d) ≡ false)
    → 0 < f
    → n < f + length log
    → (a : Answer) × (log' : Log) × (until_done f c env log ≡ (done a, log'))
      × (is_interrupted a ≡ false)
unfolding until_done ◌>>=◌ call
until_done-ends zero n c env log calm some_left l = absurd (omega arith)
until_done-ends (suc f) n c env log calm some_left l =
    elim (Bool-cases (is_interrupted (env log c))) [
      | inl yet ↦ elim (dec_lt (length log) n) [
        | yes early ↦ rw yet (
            until_done-ends f n c env (record { call = c; answer = env log c } ∷ log) calm
              (omega arith) (omega arith))
        | no late ↦ let over = calm log c (omega arith) in cc (yet, over)
      ]
      | inr over ↦ (env log c, record { call = c; answer = env log c } ∷ log, rw over refl, over)
    ]

-- An environment that interrupts no call once the log has `n` events.
abbrev pub IsCalm : ℕ → Env → Type 0
IsCalm n env = (l : Log) (d : Call) → n ≤ length l → is_interrupted (env l d) ≡ false

pub Settles-call : {env : Env} (c : Call) → Settles env (call c)
unfolding call
Settles-call c = record { at = λ m. refl }

pub Settles-until_done :
    {env : Env} (f n : ℕ) (c : Call) → IsCalm n env → n < f → Settles env (until_done f c)
Settles-until_done {env} f n c calm l = record {
  at = λ log.
      let (a, log', run, over) = until_done-ends f n c env log calm (omega arith) (omega arith) in
      rw run refl;
}

-- Programs around calls.
pub ruleset settle_rules =
    (Settles-pure, Settles-exit, Settles-if, Settles-bind, Settles-case_option, Settles-call)
