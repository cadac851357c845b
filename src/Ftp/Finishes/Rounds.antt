-- ===== src/Ftp/Finishes/Rounds.antt =====
-- A round of the ftp process in ftp_protocol.cpp comes to an end.
use mini_ftpd.Prelude.{ℕ, ◌<◌, ◌≡◌, refl, Bool, true, false, Option, none, some}
use mini_ftpd.Prelude.Int.{ℤ}
use mini_ftpd.Program.Settles.{is_settled, Comes-settled}
use mini_ftpd.Ftp.Proc.{Env, Machine, Outcome, done, exited, aborted, undefined, unfinished}
use mini_ftpd.Ftp.Upload.{
  position, receive_loop, receive_file, store_from, store, upload_auxiliary, handle_stor,
  handle_appe,
}
use mini_ftpd.Ftp.Integrity.{StopsBy}
use mini_ftpd.Ftp.Receive.{receive_loop-Whole}
use mini_ftpd.Ftp.Service.{
  Handler, Frame, run_handler, dispatch, arm_alarm, serve_command, serve_round,
}
use mini_ftpd.Ftp.Finishes.{
  has_ended, Finishes, Finishes-reset_data_fd, Finishes-establish_transfer,
  Finishes-refuse_transfer, Finishes-parse_command, Finishes-fail_with, Finishes-answer_abor,
  Finishes-handle_retr,
}
use mini_ftpd.Ftp.Finishes.Commands.{
  command_rules, Finishes-handle_port, Finishes-handle_pasv, Finishes-handle_list,
  Finishes-handle_nlst, Finishes-handle_user, Finishes-handle_pass, Finishes-handle_syst,
  Finishes-handle_feat, Finishes-handle_pwd, Finishes-handle_type, Finishes-handle_cwd,
  Finishes-handle_cdup, Finishes-handle_dele, Finishes-handle_rest, Finishes-handle_mkd,
  Finishes-handle_rmd, Finishes-handle_size, Finishes-handle_rnfr, Finishes-handle_rnto,
  Finishes-handle_noop, Finishes-handle_quit, Finishes-handle_abor, Finishes-handle_help,
  Finishes-handle_stat, Finishes-handle_site,
}

settled-ended : {A : Type 0} (o : Outcome A) → is_settled o ≡ true → has_ended o ≡ true
settled-ended (done a) h = refl
settled-ended (exited n) h = refl
settled-ended aborted h = refl
settled-ended undefined h = refl
settled-ended unfinished h = cc h

module _ (n : ℕ) (env : Env) (stops : StopsBy n env) (rounds : ℕ) (enough : n < rounds) where
  Finishes-receive_loop : (file_fd : ℕ) → Finishes env (receive_loop rounds file_fd)
  Finishes-receive_loop file_fd = record {
    at = λ m.
        settled-ended _
          (Comes-settled _ _ _ (receive_loop-Whole n rounds file_fd env m stops enough));
  }

  Finishes-position :
      (append_mode : Bool) (file_fd : ℕ) (p : ℤ) → Finishes env (position append_mode file_fd p)
  unfolding position
  Finishes-position append_mode file_fd p = search command_rules depth 20

  Finishes-receive_file : (file_fd size : ℕ) → Finishes env (receive_file rounds file_fd size)
  unfolding receive_file
  Finishes-receive_file file_fd size =
      search (command_rules, Finishes-receive_loop, Finishes-reset_data_fd, Finishes-answer_abor)
        depth 30

  Finishes-store_from :
      (append_mode : Bool) (file_fd size : ℕ)
      → Finishes env (store_from rounds append_mode file_fd size)
  unfolding store_from
  Finishes-store_from append_mode file_fd size =
      search (command_rules, Finishes-position, Finishes-receive_file, Finishes-fail_with) depth 30

  Finishes-store :
      (append_mode : Bool) (file_fd : ℕ) → Finishes env (store rounds append_mode file_fd)
  unfolding store
  Finishes-store append_mode file_fd =
      search (command_rules, Finishes-store_from, Finishes-fail_with) depth 30

  Finishes-upload_auxiliary :
      (append_mode : Bool) → Finishes env (upload_auxiliary rounds append_mode)
  unfolding upload_auxiliary
  Finishes-upload_auxiliary append_mode =
      search
        (
          command_rules, Finishes-establish_transfer, Finishes-refuse_transfer,
          Finishes-reset_data_fd, Finishes-store,
        )
        depth 30

module _ (n : ℕ) (env : Env) (stops : StopsBy n env) (f : Frame) (enough : n < f.rounds) where
  Finishes-run_handler : (h : Handler) → Finishes env (run_handler f h)
  unfolding run_handler handle_stor handle_appe
  Finishes-run_handler Handler.user = Finishes-handle_user
  Finishes-run_handler Handler.pass = Finishes-handle_pass
  Finishes-run_handler Handler.syst = Finishes-handle_syst
  Finishes-run_handler Handler.feat = Finishes-handle_feat
  Finishes-run_handler Handler.pwd = Finishes-handle_pwd
  Finishes-run_handler Handler.type = Finishes-handle_type
  Finishes-run_handler Handler.port = Finishes-handle_port f.port_memory
  Finishes-run_handler Handler.list = Finishes-handle_list
  Finishes-run_handler Handler.pasv = Finishes-handle_pasv f.pasv_memory
  Finishes-run_handler Handler.nlst = Finishes-handle_nlst
  Finishes-run_handler Handler.cwd = Finishes-handle_cwd
  Finishes-run_handler Handler.cdup = Finishes-handle_cdup
  Finishes-run_handler Handler.dele = Finishes-handle_dele
  Finishes-run_handler Handler.rest = Finishes-handle_rest
  Finishes-run_handler Handler.mkd = Finishes-handle_mkd
  Finishes-run_handler Handler.rmd = Finishes-handle_rmd
  Finishes-run_handler Handler.size = Finishes-handle_size
  Finishes-run_handler Handler.rnfr = Finishes-handle_rnfr
  Finishes-run_handler Handler.rnto = Finishes-handle_rnto
  Finishes-run_handler Handler.retr = Finishes-handle_retr
  Finishes-run_handler Handler.stor = Finishes-upload_auxiliary n env stops f.rounds enough false
  Finishes-run_handler Handler.appe = Finishes-upload_auxiliary n env stops f.rounds enough true
  Finishes-run_handler Handler.noop = Finishes-handle_noop
  Finishes-run_handler Handler.quit = Finishes-handle_quit
  Finishes-run_handler Handler.abor = Finishes-handle_abor
  Finishes-run_handler Handler.help = Finishes-handle_help
  Finishes-run_handler Handler.stat = Finishes-handle_stat
  Finishes-run_handler Handler.site = Finishes-handle_site

  Finishes-dispatch : (o : Option (Option Handler)) → Finishes env (dispatch f o)
  unfolding dispatch
  Finishes-dispatch none = search command_rules depth 20
  Finishes-dispatch (some none) = search command_rules depth 20
  Finishes-dispatch (some (some h)) = Finishes-run_handler h

  Finishes-arm_alarm : Finishes env arm_alarm
  unfolding arm_alarm
  Finishes-arm_alarm = search command_rules depth 20

  Finishes-serve_command : Finishes env (serve_command f)
  unfolding serve_command
  Finishes-serve_command = search (command_rules, Finishes-dispatch) depth 20

  Finishes-serve_round : Finishes env (serve_round f)
  unfolding serve_round
  Finishes-serve_round =
      search (command_rules, Finishes-arm_alarm, Finishes-parse_command, Finishes-serve_command)
        depth 20

-- Where the client sends no more data once the log has `n` events, and an upload may take more
-- reads than `n`, each round of the ftp process comes to an end, whatever the command and whatever
-- the client, the nobody process and the kernel answer: it comes back to the loop, or ends the
-- process, be it by `exit`, by an exception that nothing catches or in undefined behaviour. No loop
-- in it runs out of its rounds.
pub serve_round-ends :
    (n : ℕ) (f : Frame) (env : Env) (m : Machine)
    → StopsBy n env
    → n < f.rounds
    → has_ended (serve_round f env m).0 ≡ true
serve_round-ends n f env m stops enough = (Finishes-serve_round n env stops f enough).at m
