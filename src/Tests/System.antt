-- ===== src/Tests/System.antt =====
-- Runs of the calls around a system that interrupts its fourth call, and whose connections take a
-- while.
use mini_ftpd.Prelude.{
  ◌+◌, ◌-◌, ◌*◌, ◌/◌, ℕ, ◌≡◌, refl, arith, Bool, true, false, not, ◌&&◌, none, some, [], ◌∷◌,
  length, ◌==◌, if◌then◌else◌,
}
use mini_ftpd.Config.Defs.{default_config}
use mini_ftpd.Session.Address.{no_addr}
use mini_ftpd.Session.Defs.{Session, new_session}
use mini_ftpd.Program.{◌>>=◌, ◌>>◌}
use mini_ftpd.Program.Settles.{Comes}
use mini_ftpd.System.Calls.{
  CapData, interrupted, in_progress, read_lock, write_lock, Call, Log, Env, call,
}
use mini_ftpd.System.Retry.{IsCalm}
use mini_ftpd.System.Nobody.Gate.{IsGuarded, start_nobody-IsGuarded}
use mini_ftpd.System.Nobody.Defs.{start_nobody}
use mini_ftpd.System.View.{viewed}
use mini_ftpd.System.Timeout.Defs.{connect_with_timeout}
use mini_ftpd.System.Timeout.Blocking.{IsBlocking, connect_with_timeout-IsBlocking}
use mini_ftpd.System.Nobody.Defs.{serve_connect, serve_listen, serve_accept, serve_nobody_round}
use mini_ftpd.System.Nobody.Descriptors.{Balanced, serve_connect-Balanced}
use mini_ftpd.System.Nobody.Passive.{
  Listening, Answered, serve_passive-Answered, serve_listen-again,
}
use mini_ftpd.System.Speed.Defs.{Double, TimePoint, reading, nanoseconds, limit_transmission_speed}
use mini_ftpd.System.Speed.Pause.{KeepsTime, slept}
use mini_ftpd.System.Speed.Sleep.{HasFractions, Owes, owed, limit_transmission_speed-Owes}
use mini_ftpd.File.Lock.{lock_file_read, lock_file_write, HasLocked, lock_file-HasLocked}
use mini_ftpd.Handover.Spec.{Exchange, transcript, behind, IsServed}
use mini_ftpd.Handover.Wire.{wire}
use mini_ftpd.Handover.Served.{serve_nobody_round-Goes}
use mini_ftpd.Handover.Client.{said, Asks}
use mini_ftpd.Handover.Asked.{establish_transfer-Asks}
use mini_ftpd.Handover.Pasv.{Listens, handle_pasv-Listens}
use mini_ftpd.Ftp.Proc.{Machine, call as ftp_call}
use mini_ftpd.Ftp.Data.{establish_transfer, handle_pasv}
use mini_ftpd.Ftp.Service.{fresh}

abbrev granted : Log → Call → Bool
granted log (Call.connect fd addr) = false
granted log (Call.select_write fd wait) = not (length log == 3)
granted log _ = true

abbrev value_of : ℕ → Call → ℕ
value_of cmd Call.socket = 7
value_of cmd (Call.accept l) = 9
value_of cmd (Call.socket_error fd) = 0
value_of cmd (Call.get_char fd) = cmd
value_of cmd _ = 1

-- The command `cmd` comes whenever one is read.
abbrev kernel : ℕ → Env
kernel cmd log c = record {
  ok = granted log c;
  value = value_of cmd c;
  second = 1;
  error = if length log == 3 then interrupted else in_progress;
  addr = no_addr;
  text = [];
  rights = none;
}

and_false : (b : Bool) → (b && false) ≡ false
and_false true = refl
and_false false = refl

kernel-IsCalm : (cmd : ℕ) → IsCalm 4 (kernel cmd)
kernel-IsCalm cmd log c h =
    let late : (length log == 3) ≡ false = ground arith in rw late (and_false (not (granted log c)))

abbrev garbage : CapData
garbage = record { effective = 0; permitted = 255; inheritable = 7 }

start_nobody-IsGuarded_example :
    IsGuarded garbage (start_nobody garbage 2 5 default_config 8 9 (kernel 2) []).1
start_nobody-IsGuarded_example = start_nobody-IsGuarded garbage 2 5 default_config 8 9 (kernel 2)

connect_with_timeout-IsBlocking_example :
    Comes (λ _. IsBlocking 7) (connect_with_timeout 5 7 no_addr 30 (kernel 1) [])
connect_with_timeout-IsBlocking_example =
    connect_with_timeout-IsBlocking 4 5 (kernel 1) 7 no_addr 30 [] (kernel-IsCalm 1) (omega arith)
      (omega arith)

serve_connect-Balanced_example :
    Comes (λ _. Balanced []) (serve_connect 5 default_config 4 (kernel 1) [])
unfolding viewed
serve_connect-Balanced_example =
    serve_connect-Balanced 4 5 (kernel 1) default_config 4 [] [] (kernel-IsCalm 1) (omega arith)
      refl

serve_passive-Answered_example :
    Comes
      (λ _ log. (fd : ℕ) × Answered 4 fd [] log)
      ((serve_listen default_config 4 >>= λ fd. serve_accept 5 default_config 4 fd) (kernel 1) [])
unfolding viewed
serve_passive-Answered_example =
    serve_passive-Answered 4 5 (kernel 1) default_config 4 [] [] (kernel-IsCalm 1) (omega arith)
      refl

serve_listen-again_example :
    Comes
      (λ fd log. (old : ℕ) × Listening (old ∷ []) fd log)
      ((serve_listen default_config 4 >> serve_listen default_config 4) (kernel 1) [])
unfolding viewed
serve_listen-again_example = serve_listen-again (kernel 1) default_config 4 [] [] refl

serve_nobody_round-Goes_example :
    Comes
      (λ _ log. (x : Exchange) × IsServed x × (viewed (wire 4) log ≡ behind (transcript x) []))
      (serve_nobody_round 5 default_config 4 none (kernel 1) [])
unfolding viewed
serve_nobody_round-Goes_example =
    serve_nobody_round-Goes 4 5 (kernel 1) default_config 4 none [] [] (kernel-IsCalm 1)
      (omega arith) (λ e. absurd (omega (arith, e))) refl

lock_file-HasLocked_example :
    Comes (HasLocked 8 read_lock) (lock_file_read 5 8 (kernel 1) [])
    × Comes (HasLocked 8 write_lock) (lock_file_write 5 8 (kernel 1) [])
lock_file-HasLocked_example =
    lock_file-HasLocked 4 5 (kernel 1) 8 [] (kernel-IsCalm 1) (omega arith)

abbrev in_port_mode : Session
in_port_mode = record (new_session 4 5) { active_port = true }

abbrev client_machine : Machine
client_machine = record (fresh default_config 4 5) { session = in_port_mode }

-- The nobody process hands a descriptor over.
abbrev nobody : mini_ftpd.Ftp.Proc.Env
nobody log c = record {
  ok = true;
  value = 1;
  group = 1;
  regular = true;
  expired = false;
  retry = false;
  urgent = false;
  text = [];
  texts = [];
}

establish_transfer-Asks_example :
    Comes (Asks in_port_mode (said 5 [])) (establish_transfer nobody client_machine)
unfolding new_session
establish_transfer-Asks_example = establish_transfer-Asks nobody client_machine

abbrev in_pasv_mode : Machine
in_pasv_mode = record (fresh default_config 4 5) {
  session = record (new_session 4 5) { active_pasv = true };
}

abbrev asked_passively : Machine
asked_passively = (establish_transfer nobody in_pasv_mode).1

abbrev served_passively : Log
served_passively = (serve_nobody_round 5 default_config 4 (some 3) (kernel 2) []).1

handle_pasv-Listens_example :
    Comes
      (λ _. Listens in_port_mode (said in_port_mode.pic_fd []))
      (handle_pasv (0 ∷ 0 ∷ 0 ∷ 0 ∷ []) nobody client_machine)
handle_pasv-Listens_example = handle_pasv-Listens (0 ∷ 0 ∷ 0 ∷ 0 ∷ []) nobody client_machine

-- Six decimal places.
abbrev decimal : Double
decimal = record {
  Number = ℕ;
  of_nat = λ n. n * 1000000;
  of_diff = λ a b. (a - b) * 1000000;
  plus = λ x y. x + y;
  minus = λ x y. x - y;
  times = λ x y. x * y / 1000000;
  over = λ x y. x * 1000000 / y;
  is_up_to_zero = λ x. x == 0;
  to_unsigned = λ x. some (x / 1000000);
  to_time = λ x. some (x / 1000000);
  hundredth = 10000;
}

kernel-KeepsTime : KeepsTime (kernel 1)
kernel-KeepsTime = record {
  only_interrupted = λ log sec nsec short bad. cc bad;
  no_more = λ log sec nsec short yet. cc yet;
}

abbrev start : TimePoint
start = record { sec = 0; usec = 0 }

decimal-HasFractions : HasFractions decimal
unfolding nanoseconds
decimal-HasFractions = record {
  fraction = λ x sec nsec whole part.
      let e : x / 1000000 ≡ sec = cc whole in
      let f : (x - sec * 1000000) * 1000000000000000 / 1000000 / 1000000 ≡ nsec = cc part in
      omega (arith, e, f);
}

-- A million bytes in a second, at no more than 102400.
limit_transmission_speed-Owes_example :
    Owes
      (owed decimal 102400 start 1000000 (reading (kernel 1 [] Call.gettimeofday)))
      0
      (limit_transmission_speed decimal 5 102400 start 1000000 (kernel 1) [])
unfolding slept
limit_transmission_speed-Owes_example =
    limit_transmission_speed-Owes decimal decimal-HasFractions 4 (kernel 1) (kernel-IsCalm 1)
      kernel-KeepsTime 5 (omega arith) 102400 1000000 start []
