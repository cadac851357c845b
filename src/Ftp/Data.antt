-- ===== src/Ftp/Data.antt =====
-- The data connection: PORT, PASV, `Session::reset_data_fd`, `establish_transfer`, LIST and NLST.
use mini_ftpd.Prelude.{
  ℕ, ◌/◌, ◌%◌, Bool, true, false, not, ◌&&◌, none, some, List, [], ◌∷◌, ◌++◌, ⊤, get_or, ◌==◌,
  if◌then◌else◌,
}
use mini_ftpd.Text.Bytes.{Bytes, codes}
use mini_ftpd.Session.Port.Defs.{get_port_addr}
use mini_ftpd.Session.Port.RoundTrip.{commas}
use mini_ftpd.Ftp.Proc.{
  Fd, Call, Proc, pure, exit, ◌>>=◌, ◌>>◌, call, get_session, get_config, put_session, reply,
}
use mini_ftpd.Ftp.Text.{scan_dotted}

-- The commands to the nobody process, and its results.
abbrev pub connect_in_actv : ℕ
connect_in_actv = 1

abbrev pub accept_in_pasv : ℕ
accept_in_pasv = 2

abbrev pub listen_in_pasv : ℕ
listen_in_pasv = 3

abbrev pub result_ok : ℕ
result_ok = 1

abbrev pub result_bad : ℕ
result_bad = 2

-- `memory` is the array `v[6]` before it is written.
unfoldable pub handle_port : List ℕ → Proc ⊤
handle_port memory = do
  s ← get_session
  put_session (get_port_addr memory s)
  reply (codes "200 PORT command successful. Consider using PASV.")

-- The address bytes and the two bytes of the port.
unfoldable pub pasv_text : List ℕ → ℕ → Bytes
unfolding commas
pasv_text vec port =
    codes "227 Entering Passive Mode ("
    ++ (commas (
          get_or vec 0 0
          ∷ get_or vec 1 0
          ∷ get_or vec 2 0
          ∷ get_or vec 3 0
          ∷ (port / 256)
          ∷ (port % 256)
          ∷ [])
        ++ codes ").")

-- `memory` is the array `vec[4]` before it is written.
unfoldable pub handle_pasv : List ℕ → Proc ⊤
handle_pasv memory = do
  s ← get_session
  config ← get_config
  call (Call.send_char s.pic_fd listen_in_pasv)
  port ← call (Call.read_port s.pic_fd)
  put_session (record s { active_pasv = true })
  reply (pasv_text (scan_dotted memory config.listen_address) (port.value % 65536))

-- `Session::reset_data_fd`.
unfoldable pub reset_data_fd : Proc ⊤
reset_data_fd = do
  s ← get_session
  call (Call.close s.data_fd)
  put_session (record s { data_fd = none; active_pasv = false; active_port = false })

-- `recv_fd` of ipc/socket_ipc.cpp exits where no descriptor comes.
unfoldable pub receive_data_fd : Proc Bool
receive_data_fd = do
  s ← get_session
  a ← call (Call.recv_fd s.pic_fd)
  if a.ok then (do put_session (record s { data_fd = some a.value }); pure true) else exit 1

-- The answer of the nobody process. A character that is neither result goes on as if all were well.
unfoldable pub nobody_result : Proc Bool
nobody_result = do
  s ← get_session
  res ← call (Call.get_char s.pic_fd)
  if res.value == 0
      then exit 1
      else (if res.value == result_bad
          then pure false
          else (if res.value == result_ok then receive_data_fd else pure true))

-- `send_buf` exits where it cannot send.
unfoldable pub connect_active : Proc Bool
connect_active = do
  s ← get_session
  call (Call.send_char s.pic_fd connect_in_actv)
  a ← call (Call.send_addr s.pic_fd s.port_addr)
  if a.ok then nobody_result else exit 1

unfoldable pub accept_passive : Proc Bool
accept_passive = do s ← get_session; call (Call.send_char s.pic_fd accept_in_pasv); nobody_result

-- With both modes on, the message of the source goes to stderr.
unfoldable pub establish_transfer : Proc Bool
establish_transfer = do
  s ← get_session
  if not s.active_pasv && not s.active_port
      then (do reply (codes "425 Use PORT or PASV first."); pure false)
      else (if s.active_pasv && s.active_port
          then pure false
          else (if s.active_port then connect_active else accept_passive))

-- What every transfer does where no data connection comes about.
unfoldable pub refuse_transfer : Proc ⊤
refuse_transfer = do reset_data_fd; reply (codes "550 establish_transfer failed.")

-- Writing the lines of a listing.
unfoldable pub send_lines : Fd → List Bytes → Proc ⊤
send_lines fd [] = pure tt
send_lines fd (line ∷ lines) = call (Call.write_n fd line) >> send_lines fd lines

unfoldable pub listing : Call → Proc ⊤
listing list = do
  up ← establish_transfer
  if up
      then (do
        reply (codes "150 Here comes the directory listing.")
        s ← get_session
        a ← call list
        send_lines s.data_fd a.texts
        reply (codes "226 Directory send ok.")
        reset_data_fd)
      else refuse_transfer

unfoldable pub handle_list : Proc ⊤
handle_list = listing Call.list_dir

unfoldable pub handle_nlst : Proc ⊤
handle_nlst = listing Call.list_neat_dir
