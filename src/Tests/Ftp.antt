-- ===== src/Tests/Ftp.antt =====
-- Runs of ftp_protocol.cpp against a client that logs in and then asks for the directory.
use mini_ftpd.Prelude.{
  false, ltb, length, false, if◌then◌else◌, ◌+◌, ◌++◌, ◌*◌, arith, ℕ, suc, ◌≡◌, refl, true, List,
  [], ◌∷◌, get_or,
}
use mini_ftpd.Text.Bytes.{Bytes, codes, str_eq}
use mini_ftpd.Session.Defs.{new_session}
use mini_ftpd.Config.Defs.{default_config}
use mini_ftpd.Ftp.Proc.{Call, Answer, Event, Env, Machine}
use mini_ftpd.Ftp.Proc.{◌>>=◌, reply}
use mini_ftpd.Ftp.Finishes.{has_ended}
use mini_ftpd.Ftp.PasvReply.{pasv_text-get_port_addr}
use mini_ftpd.Ftp.Data.{pasv_text}
use mini_ftpd.Session.Port.Defs.{get_port_addr}
use mini_ftpd.Ftp.Account.{
  handle_user, user_name, handle_pass, check_password, log_in, set_permissions, activate_sigurg,
}
use mini_ftpd.Ftp.Transfer.{parse_command}
use mini_ftpd.Session.Parse.Defs.{parse_line}
use mini_ftpd.Text.Bytes.{to_upper}
use mini_ftpd.Ftp.Proc.{case_option, get_session, get_config, put_session, call}
use mini_ftpd.Ftp.Service.{serve, serve_round, arm_alarm, find_service, dispatch}
use mini_ftpd.Ftp.Gate.Defs.{HasLogin}
use mini_ftpd.Ftp.Connection.{open_connections}
use mini_ftpd.Ftp.Drops.{IsClosed}
use mini_ftpd.Ftp.Closing.{IsTransfer, run_handler-IsClosed}
use mini_ftpd.Ftp.Data.{
  handle_list, listing, establish_transfer, accept_passive, nobody_result, receive_data_fd,
  send_lines, reset_data_fd,
}
use mini_ftpd.Ftp.Service.{Handler, run_handler, Frame, serve_command, start_ftp_service, fresh}
use mini_ftpd.Ftp.Gate.Defs.{Gated}
use mini_ftpd.Program.Settles.{Comes}
use mini_ftpd.Ftp.Upload.{receive_loop}
use mini_ftpd.Ftp.Stored.{taken, stored}
use mini_ftpd.Ftp.Integrity.{StopsBy}
use mini_ftpd.Program.{case_option}
use mini_ftpd.Prelude.Int.{pos}
use mini_ftpd.Ftp.Finishes.Rounds.{serve_round-ends}
use mini_ftpd.Ftp.Disk.{upload_of}
use mini_ftpd.Ftp.Leaves.{Fills, store_from-Fills}
use mini_ftpd.Ftp.Upload.{
  store_from, position, receive_file, receive_piece, store_piece, opening_text,
}
use mini_ftpd.Ftp.Transfer.{await_data, deliver, answer_abor}
use mini_ftpd.Ftp.Proc.{reply_buffer, get_config}
use mini_ftpd.Ftp.Receive.{Whole, receive_loop-Whole}
use mini_ftpd.Ftp.Transfer.{send_loop}
use mini_ftpd.Ftp.View.{viewed}
use mini_ftpd.Ftp.Requests.{requests, Sends, send_loop-Sends}
use mini_ftpd.Ftp.Gate.Safe.{start_ftp_service-Gated, start_ftp_service-HasLogin}

abbrev answer : Answer
answer = record {
  ok = true;
  value = 1;
  group = 1;
  regular = true;
  expired = false;
  retry = false;
  urgent = false;
  text = codes "hash";
  texts = [];
}

abbrev lines_read : List Event → ℕ
lines_read [] = 0
lines_read (e ∷ log) = elim e.call [ Call.readline fd ↦ suc (lines_read log) | _ ↦ lines_read log ]

abbrev script : List Bytes
script = codes "USER ftp\r\n" ∷ codes "PASS secret\r\n" ∷ codes "PWD\r\n" ∷ []

abbrev client : Env
client log (Call.readline fd) = record answer { text = get_or script (lines_read log) [] }
client log _ = answer

abbrev frame : Frame
frame = record { rounds = 4; port_memory = []; pasv_memory = [] }

start_ftp_service-Gated_example :
    Gated (start_ftp_service 3 frame client (fresh default_config 4 5)).1.log
start_ftp_service-Gated_example = start_ftp_service-Gated client 3 frame default_config 4 5

start_ftp_service-HasLogin_example :
    HasLogin (start_ftp_service 2 frame client (fresh default_config 4 5)).1.log
unfolding start_ftp_service serve serve_round arm_alarm parse_command serve_command find_service
    dispatch run_handler handle_user user_name handle_pass check_password log_in set_permissions
    activate_sigurg reply get_session get_config put_session call ◌>>=◌ case_option parse_line
    str_eq to_upper new_session
start_ftp_service-HasLogin_example =
    start_ftp_service-HasLogin client 2 frame default_config 4 5 refl

abbrev guest : Machine
guest = record {
  session = record (new_session 4 5) { cmd = codes "PWD" };
  config = default_config;
  log = [];
}

abbrev passive : Machine
passive = record guest {
  session = record (new_session 4 5) { logged_in = true; active_pasv = true };
}

run_handler-IsClosed_example : IsClosed (run_handler frame Handler.list client passive).1
unfolding run_handler handle_list listing establish_transfer accept_passive nobody_result
    receive_data_fd send_lines reset_data_fd reply get_session get_config put_session call ◌>>=◌
    new_session open_connections
run_handler-IsClosed_example =
    run_handler-IsClosed frame Handler.list client passive
      (run_handler frame Handler.list client passive).1 IsTransfer.list refl refl refl

abbrev memory : List ℕ
memory = 9 ∷ 8 ∷ 7 ∷ 6 ∷ 5 ∷ 44 ∷ []

pasv_text-get_port_addr_example :
    (body : Bytes) × (pasv_text (127 ∷ 0 ∷ 0 ∷ 1 ∷ []) 50001
      ≡ codes "227 Entering Passive Mode (" ++ (body ++ codes ")."))
    × (let a = (get_port_addr memory (record (new_session 4 5) { arg = body })).port_addr in
        (a.addr0 ≡ 127)
        × (a.addr1 ≡ 0)
        × (a.addr2 ≡ 0)
        × (a.addr3 ≡ 1)
        × (a.port_hi * 256 + a.port_lo ≡ 50001))
pasv_text-get_port_addr_example =
    pasv_text-get_port_addr memory (new_session 4 5) 127 0 0 1 50001 refl
      (omega arith, (omega arith, (omega arith, (omega arith, tt)))) (omega arith)

-- The client sends three bytes each time, until the log has twelve events.
abbrev uploader : Env
uploader log (Call.read_data fd) = record answer {
  text = if ltb (length log) 12 then codes "abc" else [];
}
uploader log (Call.write_file fd bs) = record answer { value = length bs }
uploader log _ = answer

uploader-StopsBy : StopsBy 12 uploader
uploader-StopsBy log fd h =
    let late : ltb (length log) 12 ≡ false = ground arith in rw late (refl, refl)

receive_loop-Whole_example :
    Comes (Whole 9 [] []) (receive_loop 13 9 uploader (fresh default_config 4 5))
unfolding taken stored
receive_loop-Whole_example =
    receive_loop-Whole 12 13 9 uploader (fresh default_config 4 5) uploader-StopsBy (omega arith)

abbrev patient : Frame
patient = record { rounds = 13; port_memory = []; pasv_memory = [] }

serve_round-ends_example :
    has_ended (serve_round patient uploader (fresh default_config 4 5)).0 ≡ true
serve_round-ends_example =
    serve_round-ends 12 patient uploader (fresh default_config 4 5) uploader-StopsBy (omega arith)

-- APPE with a file that holds three bytes, and STOR behind REST 1.
abbrev restarted : Machine
restarted = record (fresh default_config 4 5) {
  session = record (new_session 4 5) { restart_position = pos 1 };
}

store_from-Fills_example :
    Comes
      (Fills 9 (codes "xyz") (upload_of 9 (codes "xyz") []) false (pos 1))
      (store_from 13 false 9 3 uploader restarted)
store_from-Fills_example =
    store_from-Fills 12 13 9 3 false (codes "xyz") uploader restarted uploader-StopsBy (omega arith)

appended :
    (upload_of 9
      (codes "xyz")
      (store_from 3 true 9 3 uploader (fresh default_config 4 5)).1.log).content
    ≡ codes "xyzabcabc"
unfolding store_from position receive_file receive_loop receive_piece store_piece await_data deliver
    reset_data_fd answer_abor reply reply_buffer opening_text get_session get_config put_session
    call ◌>>=◌ viewed new_session case_option
appended = refl

-- A file of 70000 bytes goes out in two pieces.
send_loop-Sends_example :
    Comes
      (λ failed m. failed ≡ false → Sends 9 70000 [] (requests m.log))
      (send_loop 70001 9 70000 uploader (fresh default_config 4 5))
unfolding viewed
send_loop-Sends_example = send_loop-Sends 9 70000 uploader (fresh default_config 4 5)
