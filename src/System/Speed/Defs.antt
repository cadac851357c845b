-- ===== src/System/Speed/Defs.antt =====
-- `init_transfer_start_time_point` and `limit_transmission_speed` of session.cpp, and
-- `sleep_for_seconds` of process/process_utility.cpp. The type `double` is a parameter.
use mini_ftpd.Prelude.{ℕ, zero, suc, Bool, Option, ⊤, ltb, if◌then◌else◌}
use mini_ftpd.Program.{undefined, unfinished, pure, stop, ◌>>=◌, ◌>>◌, case_option}
use mini_ftpd.System.Calls.{Call, Answer, Proc, call}
use mini_ftpd.System.Retry.{is_interrupted}

-- The operations of `double` that the two functions use. `of_diff a b` is `(double)(a - b)` for
-- signed `a` and `b`, `is_up_to_zero x` is `x <= 0`. `to_unsigned` and `to_time` are the casts, `none`
-- where the number, less its fraction, is out of the range of the type (infinite, for example): such
-- a cast is undefined. No number below 0 is cast.
pub record Double : Type 1 where
  pub Number : Type 0
  pub of_nat : ℕ → Number
  pub of_diff : ℕ → ℕ → Number
  pub plus : Number → Number → Number
  pub minus : Number → Number → Number
  pub times : Number → Number → Number
  pub over : Number → Number → Number
  pub is_up_to_zero : Number → Bool
  pub to_unsigned : Number → Option ℕ
  pub to_time : Number → Option ℕ
  -- 0.01
  pub hundredth : Number

-- `time_point_sec` and `time_point_usec`, and what `gettimeofday` says.
pub record TimePoint : Type 0 where
  pub sec : ℕ
  pub usec : ℕ

abbrev pub reading : Answer → TimePoint
reading a = record { sec = a.value; usec = a.second }

-- A failing clock leaves the time point as it was.
unfoldable pub init_transfer_start_time_point : TimePoint → Proc TimePoint
init_transfer_start_time_point point = do
  a ← call Call.gettimeofday
  pure (if a.ok then reading a else point)

-- `nanosleep(&ts, &ts)`, again while a signal interrupts it, each time with what is left.
unfoldable pub sleep_on : ℕ → ℕ → ℕ → Proc ⊤
sleep_on zero sec nsec = stop unfinished
sleep_on (suc f) sec nsec = call (Call.nanosleep sec nsec) >>= λ a.
    if is_interrupted a then sleep_on f a.value a.second else pure tt

module _ (double : Double) where
  open double use {
    Number, of_nat, of_diff, plus, minus, times, over, is_up_to_zero, to_unsigned, to_time,
    hundredth,
  }

  -- `seconds` in whole and in nanoseconds.
  unfoldable pub nanoseconds : Number → ℕ → Option ℕ
  nanoseconds seconds sec = to_time (times (minus seconds (of_nat sec)) (of_nat 1000000000))

  unfoldable pub sleep_for_seconds : ℕ → Number → Proc ⊤
  sleep_for_seconds rounds seconds =
      if is_up_to_zero seconds
      then pure tt
      else case_option (to_time seconds) (stop undefined) (λ sec.
        case_option (nanoseconds seconds sec) (stop undefined) (λ nsec. sleep_on rounds sec nsec))

  -- The seconds from one time point to the next, and 0.01 where that is not above 0.
  unfoldable pub elapsed : TimePoint → TimePoint → Number
  elapsed point now =
      let e =
        plus (minus (of_nat now.sec) (of_nat point.sec))
          (over (of_diff now.usec point.usec) (of_nat 1000000)) in
      if is_up_to_zero e then hundredth else e

  unfoldable pub current_rate : ℕ → Number → Option ℕ
  current_rate transferred time = to_unsigned (over (of_nat transferred) time)

  unfoldable pub pause_time : ℕ → ℕ → Number → Number
  pause_time rate max_rate time =
      times (minus (over (of_nat rate) (of_nat max_rate)) (of_nat 1)) time

  unfoldable pub limit_rate : ℕ → ℕ → ℕ → Number → Proc ⊤
  limit_rate rounds max_rate transferred time =
      case_option (current_rate transferred time) (stop undefined) λ rate.
        if ltb max_rate rate
        then sleep_for_seconds rounds (pause_time rate max_rate time)
        else pure tt

  -- `max_rate` is the rate of the configuration for the direction.
  unfoldable pub limit_transmission_speed : ℕ → ℕ → TimePoint → ℕ → Proc TimePoint
  limit_transmission_speed rounds max_rate point transferred = do
    a ← call Call.gettimeofday
    if a.ok
        then (do
          limit_rate rounds max_rate transferred (elapsed point (reading a))
          init_transfer_start_time_point point)
        else pure point
