-- ===== src/Ftp/Ends.antt =====
-- Rules for the ends of parts of the ftp process of ftp_protocol.cpp.
use Prim.Native.Nat.{min}
use mini_ftpd.Prelude.{
  false, true, ◌==◌, zero, suc, ◌-◌, ◌<◌, arith, Bool-cases, inl, inr, List, ℕ, refl,
}
use mini_ftpd.Text.Bytes.{Bytes}
use mini_ftpd.Session.Defs.{Session}
use mini_ftpd.Program.Settles.{Settles, Settles-pure, Settles-exit, Settles-if, Settles-bind}
use mini_ftpd.Ftp.Proc.{
  pure, Fd, Call, Answer, Env, call, get_session, get_config, put_session, reply,
}
use mini_ftpd.Ftp.Data.{
  receive_data_fd, nobody_result, connect_active, accept_passive, establish_transfer, handle_pasv,
}
use mini_ftpd.Ftp.Transfer.{
  control_alarm_handler, parse_command, sigurg_handler, deliver, await_data, send_piece, send_loop,
}
use mini_ftpd.Ftp.Upload.{store_piece}

module _ {env : Env} where
  pub call-Settles : (c : Call) → Settles env (call c)
  unfolding call
  call-Settles c = record { at = λ m. refl }

  pub get_session-Settles : Settles env get_session
  unfolding get_session
  get_session-Settles = record { at = λ m. refl }

  pub get_config-Settles : Settles env get_config
  unfolding get_config
  get_config-Settles = record { at = λ m. refl }

  pub put_session-Settles : (s : Session) → Settles env (put_session s)
  unfolding put_session
  put_session-Settles s = record { at = λ m. refl }

pub ruleset ends_rules = (
  Settles-pure, Settles-exit, Settles-if, Settles-bind, call-Settles, get_session-Settles,
  get_config-Settles, put_session-Settles,
)

module _ {env : Env} where
  pub reply-Settles : (t : Bytes) → Settles env (reply t)
  unfolding reply
  reply-Settles t = search ends_rules depth 20

  receive_data_fd-Settles : Settles env receive_data_fd
  unfolding receive_data_fd
  receive_data_fd-Settles = search ends_rules depth 20

  nobody_result-Settles : Settles env nobody_result
  unfolding nobody_result
  nobody_result-Settles = search (ends_rules, receive_data_fd-Settles) depth 20

  connect_active-Settles : Settles env connect_active
  unfolding connect_active
  connect_active-Settles = search (ends_rules, nobody_result-Settles) depth 20

  accept_passive-Settles : Settles env accept_passive
  unfolding accept_passive
  accept_passive-Settles = search (ends_rules, nobody_result-Settles) depth 20

  pub establish_transfer-Settles : Settles env establish_transfer
  unfolding establish_transfer
  establish_transfer-Settles =
      search (ends_rules, reply-Settles, connect_active-Settles, accept_passive-Settles) depth 20

  control_alarm_handler-Settles : Settles env control_alarm_handler
  unfolding control_alarm_handler
  control_alarm_handler-Settles = search (ends_rules, reply-Settles) depth 20

  parse_command-Settles : Settles env parse_command
  unfolding parse_command
  parse_command-Settles = search (ends_rules, control_alarm_handler-Settles) depth 20

  sigurg_handler-Settles : Settles env sigurg_handler
  unfolding sigurg_handler
  sigurg_handler-Settles = search (ends_rules, reply-Settles, parse_command-Settles) depth 20

  pub deliver-Settles : (a : Answer) → Settles env (deliver a)
  unfolding deliver
  deliver-Settles a = search (ends_rules, sigurg_handler-Settles) depth 20

  pub await_data-Settles : (wait : Fd → ℕ → Call) → Settles env (await_data wait)
  unfolding await_data
  await_data-Settles wait = search (ends_rules, reply-Settles) depth 20

  pub store_piece-Settles : (file_fd : ℕ) (piece : Bytes) → Settles env (store_piece file_fd piece)
  unfolding store_piece
  store_piece-Settles file_fd piece = search ends_rules depth 20

  pub handle_pasv-Settles : (memory : List ℕ) → Settles env (handle_pasv memory)
  unfolding handle_pasv
  handle_pasv-Settles memory = search (ends_rules, reply-Settles) depth 20

  send_piece-Settles : (file_fd n : ℕ) → Settles env (send_piece file_fd n)
  unfolding send_piece
  send_piece-Settles file_fd n = search (ends_rules, await_data-Settles, deliver-Settles) depth 20

  -- Each round takes at least one byte off what is left.
  pub send_loop-Settles : (f file_fd left : ℕ) → left < f → Settles env (send_loop f file_fd left)
  unfolding send_loop
  send_loop-Settles zero file_fd left l = elim l [ ]
  send_loop-Settles (suc f) file_fd left l = elim (Bool-cases (left == 0)) [
    | inl nothing ↦ rw nothing (Settles-pure false)
    | inr more ↦ rw more (
        let piece = min left 65536 in
        let rest = send_loop-Settles f file_fd (left - piece) (ground (arith, more, l)) in
        Settles-bind (send_piece file_fd piece) _ (send_piece-Settles file_fd piece)
          λ failed. Settles-if failed (pure true) _ (Settles-pure true) rest)
  ]
