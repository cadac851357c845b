-- ===== src/Ftp/Finishes.antt =====
-- The rounds of the download loop of ftp_protocol.cpp.
pub mod Commands
pub mod Rounds
use Prim.Native.Nat.{min}
use mini_ftpd.Prelude.{
  Option, none, some, ℕ, zero, suc, ◌+◌, ◌-◌, ◌<◌, ◌≡◌, refl, arith, Bool, true, false, ◌==◌,
  if◌then◌else◌,
}
use mini_ftpd.Text.Bytes.{Bytes}
use mini_ftpd.Session.Defs.{Session}
use mini_ftpd.Ftp.Proc.{
  case_option, Fd, Call, Answer, Env, Machine, Outcome, done, exited, aborted, undefined,
  unfinished, Proc, pure, stop, exit, go_on, call, get_session, get_config, put_session, ◌>>=◌,
  reply,
}
use mini_ftpd.Ftp.Data.{
  reset_data_fd, receive_data_fd, nobody_result, connect_active, accept_passive, establish_transfer,
  refuse_transfer,
}
use mini_ftpd.Ftp.Transfer.{
  control_alarm_handler, parse_command, sigurg_handler, deliver, await_data, send_piece, send_loop,
  fail_with, answer_abor, send_file, retrieve_from, retrieve, handle_retr,
}

-- The run has not used up its rounds.
abbrev pub has_ended : {A : Type 0} → Outcome A → Bool
has_ended unfinished = false
has_ended _ = true

-- In this environment, from whatever state.
pub record Finishes {A : Type 0} (env : Env) (p : Proc A) : Type 0 where
  pub at : (m : Machine) → has_ended (p env m).0 ≡ true

module _ {env : Env} where
  module _ {A : Type 0} where
    pub Finishes-pure : (a : A) → Finishes env (pure a)
    unfolding pure
    Finishes-pure a = record { at = λ m. refl }

    pub Finishes-exit : (n : ℕ) → Finishes env (exit {A = A} n)
    unfolding stop
    Finishes-exit n = record { at = λ m. refl }

    pub Finishes-if :
        (b : Bool) (p q : Proc A)
        → Finishes env p
        → Finishes env q
        → Finishes env (if b then p else q)
    Finishes-if true p q fp fq = fp
    Finishes-if false p q fp fq = fq

    pub Finishes-cases :
        (b : Bool) (p q : Proc A)
        → (b ≡ true → Finishes env p)
        → (b ≡ false → Finishes env q)
        → Finishes env (if b then p else q)
    Finishes-cases true p q fp fq = fp refl
    Finishes-cases false p q fp fq = fq refl

  pub Finishes-call : (c : Call) → Finishes env (call c)
  unfolding call
  Finishes-call c = record { at = λ m. refl }

  pub Finishes-get_session : Finishes env get_session
  unfolding get_session
  Finishes-get_session = record { at = λ m. refl }

  pub Finishes-get_config : Finishes env get_config
  unfolding get_config
  Finishes-get_config = record { at = λ m. refl }

  pub Finishes-put_session : (s : Session) → Finishes env (put_session s)
  unfolding put_session
  Finishes-put_session s = record { at = λ m. refl }

  module _ {A B : Type 0} where
    go_on-ended :
        (f : A → Proc B) (o : Outcome A) (m : Machine)
        → ((a : A) → Finishes env (f a))
        → has_ended o ≡ true
        → has_ended (go_on f env (o, m)).0 ≡ true
    go_on-ended f (done a) m k h = (k a).at m
    go_on-ended f (exited n) m k h = refl
    go_on-ended f aborted m k h = refl
    go_on-ended f undefined m k h = refl
    go_on-ended f unfinished m k h = cc h

    pub Finishes-bind :
        (p : Proc A) (f : A → Proc B)
        → Finishes env p
        → ((a : A) → Finishes env (f a))
        → Finishes env (p >>= f)
    unfolding ◌>>=◌
    Finishes-bind p f fp ff = record {
      at = λ m. let (o, m') = p env m in go_on-ended f o m' ff (fp.at m);
    }

  pub Finishes-undefined : {A : Type 0} → Finishes env (stop {A = A} undefined)
  unfolding stop
  Finishes-undefined = record { at = λ m. refl }

  pub Finishes-case_option :
      {A B : Type 0} (o : Option A) (p : Proc B) (q : A → Proc B)
      → Finishes env p
      → ((a : A) → Finishes env (q a))
      → Finishes env (case_option o p q)
  unfolding case_option
  Finishes-case_option none p q kp kq = kp
  Finishes-case_option (some a) p q kp kq = kq a

  pub ruleset finish_rules = (
    Finishes-pure, Finishes-exit, Finishes-if, Finishes-call, Finishes-get_session,
    Finishes-get_config, Finishes-put_session, Finishes-bind, Finishes-undefined,
    Finishes-case_option,
  )

  pub Finishes-reply : (t : Bytes) → Finishes env (reply t)
  unfolding reply
  Finishes-reply t = search finish_rules depth 20

  pub Finishes-reset_data_fd : Finishes env reset_data_fd
  unfolding reset_data_fd
  Finishes-reset_data_fd = search finish_rules depth 20

  pub Finishes-receive_data_fd : Finishes env receive_data_fd
  unfolding receive_data_fd
  Finishes-receive_data_fd = search finish_rules depth 20

  pub Finishes-nobody_result : Finishes env nobody_result
  unfolding nobody_result
  Finishes-nobody_result = search (finish_rules, Finishes-receive_data_fd) depth 20

  pub Finishes-connect_active : Finishes env connect_active
  unfolding connect_active
  Finishes-connect_active = search (finish_rules, Finishes-nobody_result) depth 20

  pub Finishes-accept_passive : Finishes env accept_passive
  unfolding accept_passive
  Finishes-accept_passive = search (finish_rules, Finishes-nobody_result) depth 20

  pub Finishes-establish_transfer : Finishes env establish_transfer
  unfolding establish_transfer
  Finishes-establish_transfer =
      search (finish_rules, Finishes-reply, Finishes-connect_active, Finishes-accept_passive) depth
        20

  pub Finishes-refuse_transfer : Finishes env refuse_transfer
  unfolding refuse_transfer
  Finishes-refuse_transfer = search (finish_rules, Finishes-reply, Finishes-reset_data_fd) depth 20

  pub Finishes-control_alarm_handler : Finishes env control_alarm_handler
  unfolding control_alarm_handler
  Finishes-control_alarm_handler = search (finish_rules, Finishes-reply) depth 20

  pub Finishes-parse_command : Finishes env parse_command
  unfolding parse_command
  Finishes-parse_command = search (finish_rules, Finishes-control_alarm_handler) depth 20

  pub Finishes-sigurg_handler : Finishes env sigurg_handler
  unfolding sigurg_handler
  Finishes-sigurg_handler = search (finish_rules, Finishes-reply, Finishes-parse_command) depth 20

  pub Finishes-deliver : (a : Answer) → Finishes env (deliver a)
  unfolding deliver
  Finishes-deliver a = search (finish_rules, Finishes-sigurg_handler) depth 20

  pub Finishes-await_data : (wait : Fd → ℕ → Call) → Finishes env (await_data wait)
  unfolding await_data
  Finishes-await_data wait = search (finish_rules, Finishes-reply) depth 20

  pub Finishes-send_piece : (file_fd n : ℕ) → Finishes env (send_piece file_fd n)
  unfolding send_piece
  Finishes-send_piece file_fd n =
      search (finish_rules, Finishes-await_data, Finishes-deliver) depth 20

  -- Each round takes at least one byte off what is left.
  pub Finishes-send_loop : (f file_fd left : ℕ) → left < f → Finishes env (send_loop f file_fd left)
  unfolding send_loop
  Finishes-send_loop zero file_fd left l = absurd (omega arith)
  Finishes-send_loop (suc f) file_fd left l =
      let piece = min left 65536 in
      let rest = send_loop f file_fd (left - piece) in
      let round = send_piece file_fd piece >>= λ failed. if failed then pure true else rest in
      Finishes-cases (left == 0) (pure false) round (λ _. Finishes-pure false)
        (λ more.
          Finishes-bind (send_piece file_fd piece) (λ failed. if failed then pure true else rest)
            (Finishes-send_piece file_fd piece)
            (λ failed.
              Finishes-if failed (pure true) rest (Finishes-pure true)
                (Finishes-send_loop f file_fd (left - piece) (ground (arith, more, l)))))

  pub Finishes-whole : (file_fd left : ℕ) → Finishes env (send_loop (left + 1) file_fd left)
  Finishes-whole file_fd left = Finishes-send_loop (left + 1) file_fd left (omega arith)

  pub Finishes-fail_with : (t : Bytes) (file_fd : ℕ) → Finishes env (fail_with t file_fd)
  unfolding fail_with
  Finishes-fail_with t file_fd =
      search (finish_rules, Finishes-reply, Finishes-reset_data_fd) depth 20

  pub Finishes-answer_abor : Finishes env answer_abor
  unfolding answer_abor
  Finishes-answer_abor = search (finish_rules, Finishes-reply) depth 20

  pub Finishes-send_file : (file_fd left : ℕ) → Finishes env (send_file file_fd left)
  unfolding send_file
  Finishes-send_file file_fd left =
      search
        (finish_rules, Finishes-reset_data_fd, Finishes-reply, Finishes-answer_abor, Finishes-whole)
        depth 20

  pub Finishes-retrieve_from : (file_fd size : ℕ) → Finishes env (retrieve_from file_fd size)
  unfolding retrieve_from
  Finishes-retrieve_from file_fd size =
      search (finish_rules, Finishes-send_file, Finishes-fail_with) depth 20

  pub Finishes-retrieve : (file_fd : ℕ) → Finishes env (retrieve file_fd)
  unfolding retrieve
  Finishes-retrieve file_fd =
      search (finish_rules, Finishes-retrieve_from, Finishes-fail_with) depth 20

  pub Finishes-handle_retr : Finishes env handle_retr
  unfolding handle_retr
  Finishes-handle_retr =
      search
        (
          finish_rules, Finishes-establish_transfer, Finishes-refuse_transfer, Finishes-reply,
          Finishes-reset_data_fd, Finishes-retrieve,
        )
        depth 20

-- RETR ends by itself, whatever the client, the nobody process and the kernel answer: it comes back
-- to the loop of the ftp process or ends the process, and never runs out of the rounds that its
-- loop is given, one more than the bytes to send.
handle_retr-ends : (env : Env) (m : Machine) → has_ended (handle_retr env m).0 ≡ true
handle_retr-ends env m = Finishes-handle_retr.at m
