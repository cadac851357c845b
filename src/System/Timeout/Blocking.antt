-- ===== src/System/Timeout/Blocking.antt =====
-- The flag `O_NONBLOCK` of the socket of `connect_with_timeout`, in socket/block_socket.cpp.
use mini_ftpd.Prelude.{
  ==_self, ℕ, ◌<◌, ◌≡◌, refl, arith, Bool, true, false, not, ◌&&◌, Option, none, some, [], ◌∷◌, ltb,
  ◌==◌, if◌then◌else◌,
}
use mini_ftpd.Session.Address.{SockAddr}
use mini_ftpd.Program.{pure, exit, ◌>>◌}
use mini_ftpd.Program.Settles.{Comes, settled-Comes}
use mini_ftpd.Program.Triple.{
  Gives, Gives-pure, Gives-exit, Gives-if, Gives-bind, Anything, Gives-then,
}
use mini_ftpd.System.Calls.{Call, Log, Env, call}
use mini_ftpd.System.Timeout.Ends.{connect_with_timeout-Settles}
use mini_ftpd.System.Retry.{until_done, IsCalm, Gives-call}
use mini_ftpd.System.Timeout.Defs.{
  is_nonblock, without_nonblock, change_flags, activate_nonblock, deactivate_nonblock, Status,
  success, is_in_progress, status_of, read_socket_error, when_waiting, finish_connect,
  await_connect, connect_with_timeout,
}

-- The flags that a call gives to `fd`.
abbrev new_flags : ℕ → Call → Option ℕ
new_flags fd (Call.set_flags d flags) = if d == fd then some flags else none
new_flags fd _ = none

abbrev or_before : Bool → Option ℕ → Option ℕ → Option ℕ
or_before true (some flags) before = some flags
or_before _ _ before = before

-- The flags that `fd` has been given last.
unfoldable pub flags_of : ℕ → Log → Option ℕ
flags_of fd [] = none
flags_of fd (e ∷ log) = or_before e.answer.ok (new_flags fd e.call) (flags_of fd log)

-- The last flags are there, and have this `O_NONBLOCK`.
abbrev pub HasMode : Bool → ℕ → Log → Type 0
HasMode b fd log = (flags : ℕ) × (flags_of fd log ≡ some flags) × (is_nonblock flags ≡ b)

abbrev pub IsBlocking : ℕ → Log → Type 0
IsBlocking = HasMode false

without_nonblock-blocks : (flag : ℕ) → is_nonblock (without_nonblock flag) ≡ false
unfolding without_nonblock
without_nonblock-blocks flag = ground arith

change_flags-Gives :
    (b : Bool) (change : ℕ → ℕ) (fd : ℕ)
    → ((old : ℕ) → is_nonblock (change old) ≡ b)
    → Gives {X = Env} Anything Anything (change_flags change fd) (λ _. HasMode b fd)
unfolding change_flags flags_of
change_flags-Gives b change fd k = Gives-then (call (Call.get_flags fd)) _ λ old.
    Gives-if old.ok _ (exit 1)
      (λ _.
        Gives-bind (call (Call.set_flags fd (change old.value))) _
          (Gives-call {R = λ a log. a.ok ≡ true → HasMode b fd log} _
            (λ log a h ok. (change old.value, rw ok (rw (==_self fd) refl), k old.value)))
          λ new.
            Gives-if new.ok (pure tt) (exit 1) (λ ok. Gives-pure tt (λ log h. h ok))
              (λ _. Gives-exit 1 (λ _ _. tt)))
      (λ _. Gives-exit 1 (λ _ _. tt))

deactivate_nonblock-Gives :
    (fd : ℕ) → Gives {X = Env} Anything Anything (deactivate_nonblock fd) (λ _. IsBlocking fd)
unfolding deactivate_nonblock
deactivate_nonblock-Gives fd = change_flags-Gives false without_nonblock fd without_nonblock-blocks

-- `deactivate_nonblock(fd)` right before a result.
then_result :
    (fd : ℕ) (s : Status)
    → Gives {X = Env} Anything Anything (do deactivate_nonblock fd; pure s) (λ _. IsBlocking fd)
then_result fd s =
    Gives-bind (deactivate_nonblock fd) (λ _. pure s) (deactivate_nonblock-Gives fd)
      λ _. Gives-pure s (λ _ h. h)

read_socket_error-Gives :
    (fd : ℕ) → Gives {X = Env} Anything Anything (read_socket_error fd) (λ _. IsBlocking fd)
unfolding read_socket_error
read_socket_error-Gives fd = Gives-then (call (Call.socket_error fd)) _ λ e. then_result fd _

module _ (rounds fd wait : ℕ) (waits : 0 < wait) where
  finish_connect-Gives :
      (s : Status)
      → Gives {X = Env} Anything Anything (finish_connect fd wait s) (λ _. IsBlocking fd)
  unfolding finish_connect when_waiting
  finish_connect-Gives s = let on : ltb 0 wait ≡ true = ground arith in rw on (then_result fd s)

  await_connect-Gives :
      Gives {X = Env} Anything Anything (await_connect rounds fd wait) (λ _. IsBlocking fd)
  unfolding await_connect
  await_connect-Gives = Gives-then (until_done rounds (Call.select_write fd wait)) _ λ s.
      Gives-if s.ok _ _
        (λ _.
          Gives-if (s.value == 0) _ _ (λ _. then_result fd _)
            (λ _.
              Gives-if (s.value == 1) _ _ (λ _. read_socket_error-Gives fd)
                (λ _. finish_connect-Gives success)))
        (λ _. then_result fd _)

  connect_with_timeout-Gives :
      (addr : SockAddr)
      → Gives {X = Env} Anything Anything
          (connect_with_timeout rounds fd addr wait)
          (λ _. IsBlocking fd)
  unfolding connect_with_timeout
  connect_with_timeout-Gives addr = Gives-then (when_waiting wait (activate_nonblock fd)) _ λ _.
      Gives-then (call (Call.connect fd addr)) _ λ c.
        Gives-if (not c.ok && is_in_progress c.error) _ _ (λ _. await_connect-Gives)
          (λ _. finish_connect-Gives (status_of c))

-- With a time to wait, `connect_with_timeout` returns or exits, whatever its calls answer, where no
-- call is interrupted once the log has `n` events and there are more rounds than `n`. Where it
-- returns, the flags that the socket has been given last are without `O_NONBLOCK`.
pub connect_with_timeout-IsBlocking :
    (n rounds : ℕ) (env : Env) (fd : ℕ) (addr : SockAddr) (wait : ℕ) (log : Log)
    → IsCalm n env
    → n < rounds
    → 0 < wait
    → Comes (λ _. IsBlocking fd) (connect_with_timeout rounds fd addr wait env log)
connect_with_timeout-IsBlocking n rounds env fd addr wait log calm enough waits =
    settled-Comes (connect_with_timeout-Settles n rounds calm enough fd addr wait)
      (connect_with_timeout-Gives rounds fd wait waits addr) log tt
