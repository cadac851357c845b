-- ===== src/System/Speed/Pause.antt =====
-- The time that a program sleeps, and what `sleep_on` sleeps.
use mini_ftpd.Prelude.{
  ℕ, zero, suc, ◌+◌, ◌-◌, ◌*◌, ◌≤◌, ◌<◌, ◌≡◌, refl, arith, Bool, true, false, not, ◌&&◌, [], ◌∷◌,
  length, if◌then◌else◌, Bool-cases, inl, inr,
}
use native.Mathlib.Decide.{dec_lt}
use mini_ftpd.Program.{pure, ◌>>=◌}
use mini_ftpd.Program.Settles.{Comes, Comes-if, Comes-into}
use mini_ftpd.System.Calls.{Call, Answer, Log, Env, call}
use mini_ftpd.System.Retry.{is_eintr, is_interrupted, IsCalm}
use mini_ftpd.System.Speed.Defs.{sleep_on}

-- In nanoseconds.
abbrev pub duration : ℕ → ℕ → ℕ
duration sec nsec = sec * 1000000000 + nsec

-- What a call has slept: all of it, or all but what was left when a signal came.
abbrev pub slept_by : Call → Answer → ℕ
slept_by (Call.nanosleep sec nsec) a =
    if a.ok
    then duration sec nsec
    else (if is_interrupted a then duration sec nsec - duration a.value a.second else 0)
slept_by c a = 0

unfoldable pub slept : Log → ℕ
slept [] = 0
slept (e ∷ log) = slept_by e.call e.answer + slept log

-- Below a second of nanoseconds `nanosleep` fails by interruption only, and then leaves no more than
-- it was given, in the same form.
pub record KeepsTime (env : Env) : Type 0 where
  pub only_interrupted :
      (log : Log) (sec nsec : ℕ)
      → nsec < 1000000000
      → (env log (Call.nanosleep sec nsec)).ok ≡ false
      → is_interrupted (env log (Call.nanosleep sec nsec)) ≡ true
  pub no_more :
      (log : Log) (sec nsec : ℕ)
      → nsec < 1000000000
      → is_interrupted (env log (Call.nanosleep sec nsec)) ≡ true
      → let a = env log (Call.nanosleep sec nsec) in
        (duration a.value a.second ≤ duration sec nsec) × (a.second < 1000000000)

both : (b c : Bool) → (not b && c) ≡ true → (b ≡ false) × (c ≡ true)
both true c h = cc h
both false c h = (refl, h)

module _ (n : ℕ) (env : Env) (calm : IsCalm n env) (time : KeepsTime env) where
  -- What one call adds.
  slept_by-interrupted :
      (sec nsec : ℕ) (a : Answer)
      → is_interrupted a ≡ true
      → slept_by (Call.nanosleep sec nsec) a ≡ duration sec nsec - duration a.value a.second
  slept_by-interrupted sec nsec a yet =
      let (bad, eintr) = both a.ok (is_eintr a.error) yet in rw (bad, eintr) refl

  slept_by-done :
      (sec nsec : ℕ) (log : Log)
      → nsec < 1000000000
      → is_interrupted (env log (Call.nanosleep sec nsec)) ≡ false
      → slept_by (Call.nanosleep sec nsec) (env log (Call.nanosleep sec nsec)) ≡ duration sec nsec
  slept_by-done sec nsec log short over = elim (Bool-cases (env log (Call.nanosleep sec nsec)).ok) [
    | inl fine ↦ rw fine refl
    | inr bad ↦ let yet = time.only_interrupted log sec nsec short bad in cc (yet, over)
  ]

  still_early :
      (sec nsec : ℕ) (log : Log)
      → is_interrupted (env log (Call.nanosleep sec nsec)) ≡ true
      → length log < n
  still_early sec nsec log yet = elim (dec_lt (length log) n) [
    | yes early ↦ early
    | no late ↦ let over = calm log (Call.nanosleep sec nsec) (omega arith) in cc (yet, over)
  ]

  sleep_again :
      (f sec nsec : ℕ) (log : Log)
      → nsec < 1000000000
      → n < suc f + length log
      → is_interrupted (env log (Call.nanosleep sec nsec)) ≡ true
      → ((sec nsec : ℕ) (log : Log)
          → nsec < 1000000000
          → 0 < f
          → n < f + length log
          → Comes
              (λ _ log'. slept log' ≡ slept log + duration sec nsec)
              (sleep_on f sec nsec env log))
      → let a = env log (Call.nanosleep sec nsec) in
        let log1 = record { call = Call.nanosleep sec nsec; answer = a } ∷ log in
        Comes
          (λ _ log'. slept log' ≡ slept log + duration sec nsec)
          (sleep_on f a.value a.second env log1)
  unfolding slept
  sleep_again f sec nsec log short l yet ih =
      let a = env log (Call.nanosleep sec nsec) in
      let log1 = record { call = Call.nanosleep sec nsec; answer = a } ∷ log in
      let early = still_early sec nsec log yet in
      let part = slept_by-interrupted sec nsec a yet in
      let (fits, form) = time.no_more log sec nsec short yet in
      let run = sleep_on f a.value a.second env log1 in
      Comes-into (λ _ log'. slept log' ≡ slept log1 + duration a.value a.second)
        (λ _ log'. slept log' ≡ slept log + duration sec nsec) run.0 run.1
        (λ _ log' e. omega (arith, e, part, fits))
        (ih a.value a.second log1 form (omega (arith, early, l)) (omega (arith, l)))

  pub sleep_on-slept :
      (f sec nsec : ℕ) (log : Log)
      → nsec < 1000000000
      → 0 < f
      → n < f + length log
      → Comes (λ _ log'. slept log' ≡ slept log + duration sec nsec) (sleep_on f sec nsec env log)
  unfolding sleep_on ◌>>=◌ call slept
  sleep_on-slept zero sec nsec log short some_left l = elim some_left [ ]
  sleep_on-slept (suc f) sec nsec log short some_left l =
      let c = Call.nanosleep sec nsec in
      let a = env log c in
      Comes-if (λ _ log'. slept log' ≡ slept log + duration sec nsec) (is_interrupted a)
        (sleep_on f a.value a.second) (pure tt) env (record { call = c; answer = a } ∷ log)
        (λ yet. sleep_again f sec nsec log short l yet (sleep_on-slept f))
        (λ over. omega (arith, slept_by-done sec nsec log short over))
