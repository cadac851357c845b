-- ===== src/Ftp/Upload.antt =====
-- STOR and APPE: `upload_auxiliary`.
use mini_ftpd.Prelude.{
  ℕ, zero, suc, Bool, true, false, ◌&&◌, Option, none, some, ◌++◌, ⊤, length, ◌==◌, if◌then◌else◌,
}
use mini_ftpd.Prelude.Int.{ℤ, pos}
use mini_ftpd.Text.Bytes.{Bytes, codes}
use mini_ftpd.Text.Decimal.{print_u}
use mini_ftpd.Session.Defs.{Session}
use mini_ftpd.Ftp.Proc.{
  Call, Proc, pure, stop, unfinished, ◌>>=◌, ◌>>◌, case_option, call, get_session, put_session,
  reply, reply_buffer,
}
use mini_ftpd.Ftp.Data.{establish_transfer, refuse_transfer, reset_data_fd}
use mini_ftpd.Ftp.Transfer.{deliver, await_data, fail_with, answer_abor, is_zero}

-- `err_flag`: 0, 1 and 2.
pub data Ending : Type 0 where
  complete network_failure file_failure : Ending

-- What becomes of the bytes that one `read` has brought: `none` goes on with the loop.
unfoldable pub store_piece : ℕ → Bytes → Proc (Option Ending)
store_piece file_fd piece = do
  w ← call (Call.write_file file_fd piece)
  if w.ok && w.value == length piece
      then (do
        call (Call.limit_speed (length piece) true)
        s ← get_session
        pure (if s.received_abor then some network_failure else none))
      else pure (some file_failure)

unfoldable pub receive_piece : ℕ → Proc (Option Ending)
receive_piece file_fd = do
  await_data Call.read_timeout
  s ← get_session
  a ← call (Call.read_data s.data_fd)
  deliver a
  if a.ok
      then (if length a.text == 0 then pure (some complete) else store_piece file_fd a.text)
      else pure (if a.retry then none else some network_failure)

-- The client decides how long it sends: `rounds` bounds the reads.
unfoldable pub receive_loop : ℕ → ℕ → Proc Ending
receive_loop zero file_fd = stop unfinished
receive_loop (suc rounds) file_fd =
    let rest = receive_loop rounds file_fd in receive_piece file_fd >>= λ e. case_option e rest pure

-- Whether the file offset could be set: to the start of the emptied file, to the restart position,
-- or to the end.
unfoldable pub position : Bool → ℕ → ℤ → Proc Bool
position append_mode file_fd offset =
    if append_mode
    then (do a ← call (Call.lseek_end file_fd); pure a.ok)
    else (if is_zero offset
        then (do
          t ← call (Call.ftruncate file_fd)
          a ← call (Call.lseek file_fd (pos 0))
          pure (t.ok && a.ok))
        else (do a ← call (Call.lseek file_fd offset); pure a.ok))

unfoldable pub ending_text : Ending → Bytes
ending_text complete = codes "226 Transfer complete."
ending_text network_failure = codes "426 Failure reading from network stream."
ending_text file_failure = codes "451 Failure writing to local file."

unfoldable pub mode_name : Bool → Bytes
mode_name ascii = if ascii then codes "ASCII" else codes "BINARY"

unfoldable pub opening_text : Session → ℕ → Bytes
unfolding mode_name
opening_text s size =
    codes "150 Opening "
    ++ (mode_name s.ascii_mode
        ++ (codes " mode data connection for "
            ++ (s.arg ++ (codes " (" ++ (print_u size ++ codes " bytes).")))))

unfoldable pub receive_file : ℕ → ℕ → ℕ → Proc ⊤
receive_file rounds file_fd size = do
  s ← get_session
  reply_buffer 1024 (opening_text s size)
  call Call.start_clock
  ending ← receive_loop rounds file_fd
  call (Call.close (some file_fd))
  reset_data_fd
  reply (ending_text ending)
  answer_abor

unfoldable pub store_from : ℕ → Bool → ℕ → ℕ → Proc ⊤
store_from rounds append_mode file_fd size = do
  s ← get_session
  put_session (record s { restart_position = pos 0 })
  ready ← position append_mode file_fd s.restart_position
  if ready
      then receive_file rounds file_fd size
      else fail_with (codes "553 Failed to create file.") file_fd

unfoldable pub store : ℕ → Bool → ℕ → Proc ⊤
store rounds append_mode file_fd = do
  st ← call (Call.fstat file_fd)
  if st.ok && st.regular
      then (do
        l ← call (Call.lock_write file_fd)
        if l.ok
            then store_from rounds append_mode file_fd st.value
            else fail_with (codes "553 Failed to create file.") file_fd)
      else fail_with (codes "550 Failed to open file.") file_fd

unfoldable pub upload_auxiliary : ℕ → Bool → Proc ⊤
upload_auxiliary rounds append_mode = do
  up ← establish_transfer
  if up
      then (do
        s ← get_session
        file ← call (Call.open_write s.arg)
        if file.ok
            then store rounds append_mode file.value
            else (do reply (codes "553 Failed to create file."); reset_data_fd))
      else refuse_transfer

unfoldable pub handle_stor : ℕ → Proc ⊤
handle_stor rounds = upload_auxiliary rounds false

unfoldable pub handle_appe : ℕ → Proc ⊤
handle_appe rounds = upload_auxiliary rounds true
