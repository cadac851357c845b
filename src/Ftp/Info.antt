-- ===== src/Ftp/Info.antt =====
-- The commands that only answer or set a field: STAT, TYPE, REST, NOOP, QUIT, ABOR, HELP, SYST, FEAT.
use mini_ftpd.Prelude.{ℕ, true, false, ◌∷◌, ◌++◌, ⊤, ◌==◌, if◌then◌else◌}
use mini_ftpd.Text.Bytes.{Bytes, codes, str_eq}
use mini_ftpd.Text.Decimal.{print_u}
use mini_ftpd.Ftp.Proc.{
  Proc, stop, exit, aborted, ◌>>=◌, ◌>>◌, case_option, get_session, get_config, put_session, reply,
}
use mini_ftpd.Ftp.Text.{stol, print_zu}

-- A rate of 0 is reported as no limit; the lines begin with a tab.
unfoldable pub rate_text : Bytes → ℕ → Bytes
rate_text direction rate =
    if rate == 0
    then 9 ∷ codes "No session " ++ (direction ++ codes " bandwidth limit")
    else 9 ∷ codes "Session "
      ++ (direction ++ (codes " bandwidth limit is " ++ (print_u rate ++ codes " bytes/s")))

unfoldable pub handle_stat : Proc ⊤
handle_stat = do
  config ← get_config
  reply (codes "211-FTP server status:")
  reply (rate_text (codes "upload") config.max_upload_rate)
  reply (rate_text (codes "download") config.max_download_rate)
  reply (9 ∷ codes "total connections limit is " ++ print_u config.maximum_clients)
  reply (9 ∷ codes "max connections per ip is " ++ print_u config.max_conns_per_ip)
  reply (codes "211 End of status.")

unfoldable pub handle_type : Proc ⊤
handle_type = do
  s ← get_session
  if str_eq s.arg (codes "A")
      then (do
        put_session (record s { ascii_mode = true })
        reply (codes "200 Switching to ASCII mode."))
      else (if str_eq s.arg (codes "I")
          then (do
            put_session (record s { ascii_mode = false })
            reply (codes "200 Switching to Binary mode."))
          else reply (codes "500 Unrecognised TYPE command."))

-- `std::stol` throws on what is no number, and nothing catches it.
unfoldable pub handle_rest : Proc ⊤
handle_rest = do
  s ← get_session
  case_option (stol s.arg) (stop aborted) λ n.
      put_session (record s { restart_position = n })
      >> reply (codes "350 Restart position accepted (" ++ (print_zu n ++ codes ")."))

unfoldable pub handle_noop : Proc ⊤
handle_noop = reply (codes "200 NOOP ok.")

unfoldable pub handle_quit : Proc ⊤
handle_quit = do reply (codes "221 Goodbye."); exit 0

unfoldable pub handle_abor : Proc ⊤
handle_abor = reply (codes "225 No transfer to ABOR.")

unfoldable pub handle_help : Proc ⊤
handle_help = reply (codes "214 Help OK.")

unfoldable pub handle_syst : Proc ⊤
handle_syst = reply (codes "215 UNIX Type: L8")

unfoldable pub handle_feat : Proc ⊤
handle_feat = do
  reply (codes "211-Features:")
  reply (codes " PASV")
  reply (codes " REST STREAM")
  reply (codes " SIZE")
  reply (codes " UTF8")
  reply (codes "211 End")
