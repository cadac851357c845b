-- ===== src/Ftp/Files.antt =====
-- The commands on files and directories: SIZE, PWD, CWD, CDUP, MKD, DELE, RMD, RNFR and RNTO.
use mini_ftpd.Prelude.{[], ◌∷◌, ◌++◌, ⊤, if◌then◌else◌}
use mini_ftpd.Text.Bytes.{Bytes, codes}
use mini_ftpd.Text.Stream.{is_empty}
use mini_ftpd.Text.Decimal.{print_u}
use mini_ftpd.Ftp.Proc.{
  Call, Proc, ◌>>=◌, ◌>>◌, call, get_session, put_session, reply, reply_buffer,
}

unfoldable pub handle_size : Proc ⊤
handle_size = do
  s ← get_session
  a ← call (Call.stat s.arg)
  if a.ok
      then (if a.regular
          then reply (codes "213 " ++ print_u a.value)
          else reply (codes "550 Could not get file size."))
      else reply (codes "550 SIZE operation failed.")

-- Where `getcwd` fails the buffer stays empty.
unfoldable pub handle_pwd : Proc ⊤
handle_pwd = do
  a ← call Call.getcwd
  reply (codes "257 \"" ++ ((if a.ok then a.text else []) ++ codes "\""))

unfoldable pub change_directory : Bytes → Proc ⊤
change_directory path = do
  a ← call (Call.chdir path)
  if a.ok
      then reply (codes "250 Directory successfully changed.")
      else reply (codes "550 Failed to change directory.")

unfoldable pub handle_cwd : Proc ⊤
handle_cwd = do s ← get_session; change_directory s.arg

unfoldable pub handle_cdup : Proc ⊤
handle_cdup = change_directory (codes "..")

unfoldable pub handle_mkd : Proc ⊤
handle_mkd = do
  s ← get_session
  a ← call (Call.mkdir s.arg)
  if a.ok
      then (do
        cwd ← call Call.getcwd
        if cwd.ok
            then reply_buffer 4196
                (codes "257 " ++ (cwd.text ++ (b'/' ∷ s.arg ++ codes " created.")))
            else reply_buffer 4196 (codes "257 " ++ (s.arg ++ codes " created.")))
      else reply (codes "550 Create directory operation failed.")

unfoldable pub handle_dele : Proc ⊤
handle_dele = do
  s ← get_session
  a ← call (Call.unlink s.arg)
  if a.ok
      then reply (codes "250 Delete operation successful.")
      else reply (codes "550 Delete operation failed.")

unfoldable pub handle_rmd : Proc ⊤
handle_rmd = do
  s ← get_session
  a ← call (Call.rmdir s.arg)
  if a.ok
      then reply (codes "250 Remove directory operation successful.")
      else reply (codes "550 Remove directory operation failed.")

unfoldable pub handle_rnfr : Proc ⊤
handle_rnfr = do
  s ← get_session
  put_session (record s { rnfr_name = s.arg })
  reply (codes "350 Ready for RNTO.")

unfoldable pub handle_rnto : Proc ⊤
handle_rnto = do
  s ← get_session
  if is_empty s.rnfr_name then reply (codes "503 RNFR required first.") else (do
    a ← call (Call.rename s.rnfr_name s.arg)
    if a.ok
        then (do put_session (record s { rnfr_name = [] }); reply (codes "250 Rename successful."))
        else reply (codes "550 Rename failed."))
