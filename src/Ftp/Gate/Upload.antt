-- ===== src/Ftp/Gate/Upload.antt =====
-- What the programs of Ftp/Upload keep.
use mini_ftpd.Prelude.{ℕ, zero, suc, Bool}
use mini_ftpd.Prelude.Int.{ℤ}
use mini_ftpd.Text.Bytes.{Bytes}
use mini_ftpd.Ftp.Proc.{Machine, pure, unfinished, case_option}
use mini_ftpd.Ftp.Upload.{
  store_piece, receive_piece, receive_loop, position, receive_file, store_from, store,
  upload_auxiliary, handle_stor, handle_appe,
}
use mini_ftpd.Ftp.Keeps.{
  Keeps, OfLog, Keeps-pure, Keeps-stop, Keeps-bind, Keeps-case_option, step_rules,
}
use mini_ftpd.Ftp.Gate.Data.{Keeps-establish_transfer, Keeps-refuse_transfer, Keeps-reset_data_fd}
use mini_ftpd.Ftp.Gate.Transfer.{
  Keeps-deliver, Keeps-await_data, Keeps-fail_with, Keeps-answer_abor,
}

module _ {P : Machine → Type 0} (l : OfLog P) where
  Keeps-store_piece : (file_fd : ℕ) (piece : Bytes) → Keeps P (store_piece file_fd piece)
  unfolding store_piece
  Keeps-store_piece file_fd piece = search step_rules depth 20

  Keeps-receive_piece : (file_fd : ℕ) → Keeps P (receive_piece file_fd)
  unfolding receive_piece
  Keeps-receive_piece file_fd =
      search (step_rules, Keeps-deliver, Keeps-await_data, Keeps-store_piece) depth 20

  Keeps-receive_loop : (rounds file_fd : ℕ) → Keeps P (receive_loop rounds file_fd)
  unfolding receive_loop
  Keeps-receive_loop zero file_fd = Keeps-stop unfinished
  Keeps-receive_loop (suc rounds) file_fd =
      Keeps-bind (receive_piece file_fd) (λ e. case_option e (receive_loop rounds file_fd) pure)
        (Keeps-receive_piece file_fd)
        (λ e.
          Keeps-case_option e (receive_loop rounds file_fd) pure (Keeps-receive_loop rounds file_fd)
            Keeps-pure)

  Keeps-position :
      (append_mode : Bool) (file_fd : ℕ) (offset : ℤ)
      → Keeps P (position append_mode file_fd offset)
  unfolding position
  Keeps-position append_mode file_fd offset = search step_rules depth 20

  Keeps-receive_file : (rounds file_fd size : ℕ) → Keeps P (receive_file rounds file_fd size)
  unfolding receive_file
  Keeps-receive_file rounds file_fd size =
      search (step_rules, Keeps-reset_data_fd, Keeps-answer_abor, Keeps-receive_loop) depth 20

  Keeps-store_from :
      (rounds : ℕ) (append_mode : Bool) (file_fd size : ℕ)
      → Keeps P (store_from rounds append_mode file_fd size)
  unfolding store_from
  Keeps-store_from rounds append_mode file_fd size =
      search (step_rules, Keeps-fail_with, Keeps-position, Keeps-receive_file) depth 20

  Keeps-store :
      (rounds : ℕ) (append_mode : Bool) (file_fd : ℕ) → Keeps P (store rounds append_mode file_fd)
  unfolding store
  Keeps-store rounds append_mode file_fd =
      search (step_rules, Keeps-fail_with, Keeps-store_from) depth 20

  Keeps-upload_auxiliary :
      (rounds : ℕ) (append_mode : Bool) → Keeps P (upload_auxiliary rounds append_mode)
  unfolding upload_auxiliary
  Keeps-upload_auxiliary rounds append_mode =
      search
        (
          step_rules, Keeps-establish_transfer, Keeps-refuse_transfer, Keeps-reset_data_fd,
          Keeps-store,
        )
        depth 20

  pub Keeps-handle_stor : (rounds : ℕ) → Keeps P (handle_stor rounds)
  unfolding handle_stor
  Keeps-handle_stor rounds = search (step_rules, Keeps-upload_auxiliary) depth 20

  pub Keeps-handle_appe : (rounds : ℕ) → Keeps P (handle_appe rounds)
  unfolding handle_appe
  Keeps-handle_appe rounds = search (step_rules, Keeps-upload_auxiliary) depth 20
