-- ===== src/Ftp/Gate/Transfer.antt =====
-- What the programs of Ftp/Transfer keep.
use Prim.Native.Nat.{min}
use mini_ftpd.Prelude.{ℕ, zero, suc, ◌-◌, ◌==◌, if◌then◌else◌, true, false}
use mini_ftpd.Text.Bytes.{Bytes}
use mini_ftpd.Ftp.Proc.{Fd, Call, Answer, Machine, pure, unfinished, ◌>>=◌}
use mini_ftpd.Ftp.Transfer.{
  control_alarm_handler, parse_command, sigurg_handler, deliver, await_data, send_piece, send_loop,
  fail_with, answer_abor, send_file, retrieve_from, retrieve, handle_retr,
}
use mini_ftpd.Ftp.Keeps.{Keeps, OfLog, Keeps-pure, Keeps-stop, Keeps-if, Keeps-bind, step_rules}
use mini_ftpd.Ftp.Gate.Data.{Keeps-establish_transfer, Keeps-refuse_transfer, Keeps-reset_data_fd}

module _ {P : Machine → Type 0} (l : OfLog P) where
  Keeps-control_alarm_handler : Keeps P control_alarm_handler
  unfolding control_alarm_handler
  Keeps-control_alarm_handler = search step_rules depth 20

  pub Keeps-parse_command : Keeps P parse_command
  unfolding parse_command
  Keeps-parse_command = search (step_rules, Keeps-control_alarm_handler) depth 20

  Keeps-sigurg_handler : Keeps P sigurg_handler
  unfolding sigurg_handler
  Keeps-sigurg_handler = search (step_rules, Keeps-parse_command) depth 20

  pub Keeps-deliver : (a : Answer) → Keeps P (deliver a)
  unfolding deliver
  Keeps-deliver a = search (step_rules, Keeps-sigurg_handler) depth 20

  pub Keeps-await_data : (wait : Fd → ℕ → Call) → Keeps P (await_data wait)
  unfolding await_data
  Keeps-await_data wait = search step_rules depth 20

  Keeps-send_piece : (file_fd n : ℕ) → Keeps P (send_piece file_fd n)
  unfolding send_piece
  Keeps-send_piece file_fd n = search (step_rules, Keeps-deliver, Keeps-await_data) depth 20

  Keeps-send_loop : (f file_fd left : ℕ) → Keeps P (send_loop f file_fd left)
  unfolding send_loop
  Keeps-send_loop zero file_fd left = Keeps-stop unfinished
  Keeps-send_loop (suc f) file_fd left =
      let piece = min left 65536 in
      let rest = send_loop f file_fd (left - piece) in
      Keeps-if (left == 0) (pure false)
        (send_piece file_fd piece >>= λ failed. if failed then pure true else rest)
        (Keeps-pure false)
        (Keeps-bind (send_piece file_fd piece) (λ failed. if failed then pure true else rest)
          (Keeps-send_piece file_fd piece)
          (λ failed.
            Keeps-if failed (pure true) rest (Keeps-pure true)
              (Keeps-send_loop f file_fd (left - piece))))

  pub Keeps-fail_with : (text : Bytes) (file_fd : ℕ) → Keeps P (fail_with text file_fd)
  unfolding fail_with
  Keeps-fail_with text file_fd = search (step_rules, Keeps-reset_data_fd) depth 20

  pub Keeps-answer_abor : Keeps P answer_abor
  unfolding answer_abor
  Keeps-answer_abor = search step_rules depth 20

  Keeps-send_file : (file_fd left : ℕ) → Keeps P (send_file file_fd left)
  unfolding send_file
  Keeps-send_file file_fd left =
      search (step_rules, Keeps-reset_data_fd, Keeps-send_loop, Keeps-answer_abor) depth 20

  Keeps-retrieve_from : (file_fd size : ℕ) → Keeps P (retrieve_from file_fd size)
  unfolding retrieve_from
  Keeps-retrieve_from file_fd size = search (step_rules, Keeps-fail_with, Keeps-send_file) depth 20

  Keeps-retrieve : (file_fd : ℕ) → Keeps P (retrieve file_fd)
  unfolding retrieve
  Keeps-retrieve file_fd = search (step_rules, Keeps-fail_with, Keeps-retrieve_from) depth 20

  pub Keeps-handle_retr : Keeps P handle_retr
  unfolding handle_retr
  Keeps-handle_retr =
      search
        (
          step_rules, Keeps-establish_transfer, Keeps-refuse_transfer, Keeps-reset_data_fd,
          Keeps-retrieve,
        )
        depth 20
