-- ===== src/Ftp/Transfer.antt =====
-- RETR, with `sigurg_handler`.
use Prim.Native.Nat.{min}
use mini_ftpd.Prelude.{
  ℕ, zero, suc, ◌+◌, ◌-◌, Bool, true, false, not, ◌&&◌, ◌||◌, Option, none, some, ◌∷◌, ⊤, ltb, ◌==◌,
  if◌then◌else◌,
}
use mini_ftpd.Prelude.Int.{ℤ, pos, negsuc}
use mini_ftpd.Text.Bytes.{Bytes, codes, str_eq}
use mini_ftpd.Session.Parse.Defs.{parse_line}
use mini_ftpd.Ftp.Proc.{
  Fd, Call, Answer, Proc, pure, stop, exit, undefined, unfinished, ◌>>=◌, ◌>>◌, case_option, call,
  get_session, get_config, put_session, reply,
}
use mini_ftpd.Ftp.Data.{establish_transfer, refuse_transfer, reset_data_fd}

-- `control_alarm_handler`, with `shutdown` of the one direction, then of the other.
unfoldable pub control_alarm_handler : Proc ⊤
control_alarm_handler = do
  s ← get_session
  call (Call.shutdown (some s.control_fd))
  reply (codes "421 Timeout.")
  call (Call.shutdown (some s.control_fd))
  exit 0

-- `Session::parse_command`: it exits where `readline` returns -1, with status 1, or 0. SIGALRM comes
-- while it waits for the client.
unfoldable pub parse_command : Proc ⊤
parse_command = do
  s ← get_session
  a ← call (Call.readline s.control_fd)
  if a.expired
      then control_alarm_handler
      else (if a.ok
          then (if a.value == 0 then exit 0 else put_session (parse_line a.text s))
          else exit 1)

abbrev abor : Bytes
abor = codes "ABOR"

-- "\377\364\377\362ABOR": with the bytes of the Telnet interrupt and synch signals before it.
abbrev urgent_abor : Bytes
urgent_abor = 255 ∷ 244 ∷ 255 ∷ 242 ∷ abor

abbrev pub is_open : Fd → Bool
is_open none = false
is_open (some _) = true

unfoldable pub sigurg_handler : Proc ⊤
sigurg_handler = do
  s ← get_session
  if is_open s.data_fd
      then (do
        parse_command
        s' ← get_session
        if str_eq s'.cmd abor || str_eq s'.cmd urgent_abor
            then (do
              put_session (record s' { received_abor = true })
              call (Call.shutdown s'.data_fd)
              pure tt)
            else reply (codes "500 Unkonwn command."))
      else pure tt

-- SIGURG is taken when a blocking call of the loops returns.
unfoldable pub deliver : Answer → Proc ⊤
deliver a = if a.urgent then sigurg_handler else pure tt

-- The wait of a loop on the data connection, where a limit is set.
unfoldable pub await_data : (Fd → ℕ → Call) → Proc ⊤
await_data wait = do
  s ← get_session
  config ← get_config
  if ltb 0 config.idle_data_timeout
      then (do
        a ← call (wait s.data_fd config.idle_data_timeout)
        if not a.ok && a.expired
            then (do reply (codes "421 Data timeout. Please Reconnect."); exit 0)
            else pure tt)
      else pure tt

-- One piece of at most 64 KiB, and whether the loop ends in an error.
unfoldable pub send_piece : ℕ → ℕ → Proc Bool
send_piece file_fd n = do
  await_data Call.write_timeout
  s ← get_session
  a ← call (Call.sendfile s.data_fd file_fd n)
  deliver a
  if a.ok
      then (do call (Call.limit_speed a.value false); s' ← get_session; pure s'.received_abor)
      else pure true

-- `bytes_to_send` falls by what was asked for, whatever `sendfile` has sent.
unfoldable pub send_loop : ℕ → ℕ → ℕ → Proc Bool
send_loop zero file_fd left = stop unfinished
send_loop (suc f) file_fd left =
    let piece = min left 65536 in
    let rest = send_loop f file_fd (left - piece) in
    if left == 0
    then pure false
    else (send_piece file_fd piece >>= λ failed. if failed then pure true else rest)

-- (offset > size) ? 0 : (size - offset), in `long`: `none` where the difference is out of range, which
-- takes a negative offset and is undefined.
abbrev pub bytes_to_send : ℤ → ℕ → Option ℕ
bytes_to_send (pos offset) size = some (size - offset)
bytes_to_send (negsuc n) size =
    if ltb (size + (n + 1)) 9223372036854775808 then some (size + (n + 1)) else none

abbrev pub is_positive : ℤ → Bool
is_positive (pos n) = ltb 0 n
is_positive (negsuc n) = false

abbrev pub is_zero : ℤ → Bool
is_zero (pos n) = n == 0
is_zero (negsuc n) = false

-- An error reply behind an opened file.
unfoldable pub fail_with : Bytes → ℕ → Proc ⊤
fail_with text file_fd = do reply text; call (Call.close (some file_fd)); reset_data_fd

-- A late answer to ABOR.
unfoldable pub answer_abor : Proc ⊤
answer_abor = do
  s ← get_session
  if s.received_abor
      then (do
        put_session (record s { received_abor = false })
        reply (codes "226 ABOR successful."))
      else pure tt

-- The greeting of the transfer, which the source formats and does not send, is left out.
unfoldable pub send_file : ℕ → ℕ → Proc ⊤
send_file file_fd left = do
  call Call.start_clock
  failed ← send_loop (left + 1) file_fd left
  call (Call.close (some file_fd))
  reset_data_fd
  if failed
      then reply (codes "426 Failure writing to network stream.")
      else reply (codes "226 Transfer complete.")
  answer_abor

-- Behind the lock: the restart position is used once.
unfoldable pub retrieve_from : ℕ → ℕ → Proc ⊤
retrieve_from file_fd size = do
  s ← get_session
  let offset = s.restart_position
  put_session (record s { restart_position = pos 0 })
  case_option (bytes_to_send offset size) (stop undefined) (λ left.
      if is_positive offset
      then (do
        a ← call (Call.lseek file_fd offset)
        if a.ok
            then send_file file_fd left
            else fail_with (codes "550 Failed to open file.") file_fd)
      else send_file file_fd left)

unfoldable pub retrieve : ℕ → Proc ⊤
retrieve file_fd = do
  st ← call (Call.fstat file_fd)
  if st.ok && st.regular
      then (do
        l ← call (Call.lock_read file_fd)
        if l.ok
            then retrieve_from file_fd st.value
            else fail_with (codes "550 Failed to open file.") file_fd)
      else fail_with (codes "550 Failed to open file.") file_fd

unfoldable pub handle_retr : Proc ⊤
handle_retr = do
  up ← establish_transfer
  if up
      then (do
        s ← get_session
        file ← call (Call.open_read s.arg)
        if file.ok
            then retrieve file.value
            else (do reply (codes "550 Failed to open file."); reset_data_fd))
      else refuse_transfer
