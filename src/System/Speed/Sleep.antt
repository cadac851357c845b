-- ===== src/System/Speed/Sleep.antt =====
-- The time that the speed limit sleeps.
use mini_ftpd.Prelude.{
  ℕ, ◌+◌, ◌<◌, ◌≡◌, refl, arith, Bool, true, false, Option, none, some, ◌∷◌, ltb, if◌then◌else◌,
  Bool-cases, inl, inr,
}
use mini_ftpd.Program.{
  Outcome, done, exited, aborted, undefined, unfinished, pure, stop, go_on, ◌>>=◌, ◌>>◌,
  case_option,
}
use mini_ftpd.Program.Settles.{Comes, Comes-bind}
use mini_ftpd.System.Calls.{Call, Answer, Log, Env, Proc, call}
use mini_ftpd.System.Retry.{IsCalm}
use mini_ftpd.System.Speed.Defs.{
  Double, TimePoint, reading, init_transfer_start_time_point, sleep_on, nanoseconds,
  sleep_for_seconds, elapsed, current_rate, pause_time, limit_rate, limit_transmission_speed,
}
use mini_ftpd.System.Speed.Pause.{duration, slept, KeepsTime, sleep_on-slept}

-- In whole seconds and nanoseconds, where the casts are defined.
abbrev pub owed_pause : (double : Double) → double.Number → Option ℕ
owed_pause double pause =
    if double.is_up_to_zero pause then some 0 else elim (double.to_time pause) [
      | none ↦ none
      | some sec ↦ elim (nanoseconds double pause sec) [
        | none ↦ none
        | some nsec ↦ some (duration sec nsec)
      ]
    ]

-- What `limit_transmission_speed` owes, by the clock reading `now`: nothing up to the maximum rate,
-- else the pause; `none` where a cast is undefined.
abbrev pub owed : (double : Double) → ℕ → TimePoint → ℕ → TimePoint → Option ℕ
owed double max_rate point transferred now =
    let time = elapsed double point now in
    elim (current_rate double transferred time) [
      | none ↦ none
      | some rate ↦
          if ltb max_rate rate
          then owed_pause double (pause_time double rate max_rate time)
          else some 0
    ]

-- A program that owes a sleep of `n`, behind a log that has slept `base`, ends and has slept just
-- that; one that owes an undefined sleep ends in undefined behaviour.
abbrev pub Owes : {A : Type 0} → Option ℕ → ℕ → Outcome A × Log → Type 0
Owes (some n) base r = Comes (λ _ log'. slept log' ≡ base + n) r
Owes none base (o, log') = o ≡ undefined

undefined-go_on :
    {A B : Type 0} (f : A → Proc B) (env : Env) (o : Outcome A) (log : Log)
    → o ≡ undefined
    → (go_on f env (o, log)).0 ≡ undefined
undefined-go_on f env (done a) log e = cc e
undefined-go_on f env (exited n) log e = cc e
undefined-go_on f env aborted log e = cc e
undefined-go_on f env undefined log e = refl
undefined-go_on f env unfinished log e = cc e

Owes-bind :
    {A B : Type 0} (o : Option ℕ) (base : ℕ) (p : Proc A) (f : A → Proc B) (env : Env) (log : Log)
    → Owes o base (p env log)
    → ((a : A) (log' : Log) (n : ℕ)
        → slept log' ≡ base + n
        → Comes (λ _ log2. slept log2 ≡ base + n) (f a env log'))
    → Owes o base ((p >>= f) env log)
unfolding ◌>>=◌
Owes-bind (some n) base p f env log h k =
    Comes-bind (λ _ log'. slept log' ≡ base + n) (λ _ log'. slept log' ≡ base + n) p f env log h
      (λ a log' e. k a log' n e)
Owes-bind none base p f env log h k = undefined-go_on f env (p env log).0 (p env log).1 h

-- The nanoseconds of a pause are less than a second.
pub record HasFractions (double : Double) : Type 0 where
  pub fraction :
      (x : double.Number) (sec nsec : ℕ)
      → double.to_time x ≡ some sec
      → nanoseconds double x sec ≡ some nsec
      → nsec < 1000000000

module _ (double : Double) (fractions : HasFractions double) (n : ℕ) (env : Env)
    (calm : IsCalm n env) (time : KeepsTime env) (rounds : ℕ) (enough : n < rounds) where
  nanoseconds-Owes :
      (x : double.Number) (sec : ℕ) (p : Option ℕ) (base : ℕ) (log : Log)
      → double.to_time x ≡ some sec
      → nanoseconds double x sec ≡ p
      → slept log ≡ base
      → Owes
          (elim p [ none ↦ none | some nsec ↦ some (duration sec nsec) ])
          base
          (case_option p (stop undefined) (λ nsec. sleep_on rounds sec nsec) env log)
  unfolding case_option stop
  nanoseconds-Owes x sec none base log whole part same = refl
  nanoseconds-Owes x sec (some nsec) base log whole part same = rw (← same) (
      sleep_on-slept n env calm time rounds sec nsec log (fractions.fraction x sec nsec whole part)
        (omega arith) (omega arith))

  seconds-Owes :
      (x : double.Number) (o : Option ℕ) (base : ℕ) (log : Log)
      → double.to_time x ≡ o
      → slept log ≡ base
      → Owes
          (elim o [
            | none ↦ none
            | some sec ↦ elim (nanoseconds double x sec) [
              | none ↦ none
              | some nsec ↦ some (duration sec nsec)
            ]
          ])
          base
          (case_option o
            (stop undefined)
            (λ sec.
              case_option
                (nanoseconds double x sec)
                (stop undefined)
                (λ nsec. sleep_on rounds sec nsec))
            env
            log)
  unfolding case_option stop
  seconds-Owes x none base log whole same = refl
  seconds-Owes x (some sec) base log whole same =
      nanoseconds-Owes x sec (nanoseconds double x sec) base log whole refl same

  sleep_for_seconds-Owes :
      (x : double.Number) (base : ℕ) (log : Log)
      → slept log ≡ base
      → Owes (owed_pause double x) base (sleep_for_seconds double rounds x env log)
  unfolding sleep_for_seconds pure
  sleep_for_seconds-Owes x base log same = elim (Bool-cases (double.is_up_to_zero x)) [
    | inl nothing ↦ rw nothing (omega (arith, same))
    | inr something ↦ rw something (seconds-Owes x (double.to_time x) base log refl same)
  ]

  rate-Owes :
      (r : Option ℕ) (max_rate : ℕ) (span : double.Number) (base : ℕ) (log : Log)
      → slept log ≡ base
      → Owes
          (elim r [
            | none ↦ none
            | some rate ↦
                if ltb max_rate rate
                then owed_pause double (pause_time double rate max_rate span)
                else some 0
          ])
          base
          (case_option r
            (stop undefined)
            (λ rate.
              if ltb max_rate rate
              then sleep_for_seconds double rounds (pause_time double rate max_rate span)
              else pure tt)
            env
            log)
  unfolding case_option stop pure
  rate-Owes none max_rate span base log same = refl
  rate-Owes (some rate) max_rate span base log same = elim (Bool-cases (ltb max_rate rate)) [
    | inl fast ↦
        rw fast (sleep_for_seconds-Owes (pause_time double rate max_rate span) base log same)
    | inr slow ↦ rw slow (omega (arith, same))
  ]

  limit_rate-Owes :
      (max_rate transferred : ℕ) (point now : TimePoint) (base : ℕ) (log : Log)
      → slept log ≡ base
      → Owes
          (owed double max_rate point transferred now)
          base
          (limit_rate double rounds max_rate transferred (elapsed double point now) env log)
  unfolding limit_rate
  limit_rate-Owes max_rate transferred point now base log same =
      let span = elapsed double point now in
      rate-Owes (current_rate double transferred span) max_rate span base log same

  after_clock :
      (max_rate transferred : ℕ) (point : TimePoint) (b : Bool) (a : Answer) (base : ℕ) (log : Log)
      → slept log ≡ base
      → Owes (if b then owed double max_rate point transferred (reading a) else some 0) base (
          (if b
              then (do
                limit_rate double rounds max_rate transferred (elapsed double point (reading a))
                init_transfer_start_time_point point)
              else pure point)
            env log)
  unfolding pure init_transfer_start_time_point ◌>>=◌ call slept
  after_clock max_rate transferred point true a base log same =
      Owes-bind (owed double max_rate point transferred (reading a)) base
        (limit_rate double rounds max_rate transferred (elapsed double point (reading a)))
        (λ _. init_transfer_start_time_point point) env log
        (limit_rate-Owes max_rate transferred point (reading a) base log same)
        (λ _ log' k e. omega (arith, e))
  after_clock max_rate transferred point false a base log same = omega (arith, same)

  -- `limit_transmission_speed`, by its first reading of the clock. Where the clock cannot be read, or
  -- the rate since the time point is up to the maximum, it ends and has slept nothing; else it ends and
  -- has slept exactly the pause that it computes, in whole seconds and nanoseconds, however often a
  -- signal breaks its sleep off. Where the rate or the pause is out of the range of its cast, the run
  -- is undefined, and only there. The type `double` may be any in which the nanoseconds of a pause
  -- are less than a second; for those `nanosleep` fails by interruption only and leaves no more than it
  -- was given; no call is interrupted once the log has `n` events, and there are more rounds than `n`.
  pub limit_transmission_speed-Owes :
      (max_rate transferred : ℕ) (point : TimePoint) (log : Log)
      → let a = env log Call.gettimeofday in
        Owes
          (if a.ok then owed double max_rate point transferred (reading a) else some 0)
          (slept log)
          (limit_transmission_speed double rounds max_rate point transferred env log)
  unfolding limit_transmission_speed ◌>>=◌ call slept
  limit_transmission_speed-Owes max_rate transferred point log =
      let a = env log Call.gettimeofday in
      let log1 : Log = record { call = Call.gettimeofday; answer = a } ∷ log in
      after_clock max_rate transferred point a.ok a (slept log) log1 (omega arith)
