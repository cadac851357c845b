-- ===== src/Ftp/Service.antt =====
-- The `services` table and the loop of the ftp process in `start_ftp_service`.
use mini_ftpd.Prelude.{
  ℕ, zero, suc, Bool, not, ◌&&◌, Option, none, some, List, [], ◌∷◌, ⊤, ltb, if◌then◌else◌,
}
use mini_ftpd.Text.Bytes.{Bytes, codes, str_eq}
use mini_ftpd.Session.Defs.{Session, new_session}
use mini_ftpd.Config.Defs.{Config}
use mini_ftpd.Ftp.Proc.{
  Call, Machine, Proc, pure, stop, unfinished, ◌>>=◌, ◌>>◌, call, get_session, get_config, reply,
}
use mini_ftpd.Ftp.Account.{handle_user, handle_pass}
use mini_ftpd.Ftp.Data.{handle_port, handle_pasv, handle_list, handle_nlst}
use mini_ftpd.Ftp.Files.{
  handle_size, handle_pwd, handle_cwd, handle_cdup, handle_mkd, handle_dele, handle_rmd,
  handle_rnfr, handle_rnto,
}
use mini_ftpd.Ftp.Info.{
  handle_stat, handle_type, handle_rest, handle_noop, handle_quit, handle_abor, handle_help,
  handle_syst, handle_feat,
}
use mini_ftpd.Ftp.Site.{handle_site}
use mini_ftpd.Ftp.Transfer.{parse_command, handle_retr}
use mini_ftpd.Ftp.Upload.{handle_stor, handle_appe}

-- The functions of the table.
pub data Handler : Type 0 where
  user pass syst feat pwd type port list pasv nlst cwd cdup dele rest mkd rmd size : Handler
  rnfr rnto retr stor appe noop quit abor help stat site : Handler

-- `services`; a NULL is `none`.
abbrev pub services : List (Bytes × Option Handler)
services =
    (codes "USER", some Handler.user)
    ∷ (codes "PASS", some Handler.pass)
    ∷ (codes "SYST", some Handler.syst)
    ∷ (codes "FEAT", some Handler.feat)
    ∷ (codes "PWD", some Handler.pwd)
    ∷ (codes "TYPE", some Handler.type)
    ∷ (codes "PORT", some Handler.port)
    ∷ (codes "LIST", some Handler.list)
    ∷ (codes "PASV", some Handler.pasv)
    ∷ (codes "NLST", some Handler.nlst)
    ∷ (codes "CWD", some Handler.cwd)
    ∷ (codes "CDUP", some Handler.cdup)
    ∷ (codes "DELE", some Handler.dele)
    ∷ (codes "REST", some Handler.rest)
    ∷ (codes "MKD", some Handler.mkd)
    ∷ (codes "RMD", some Handler.rmd)
    ∷ (codes "SIZE", some Handler.size)
    ∷ (codes "RNFR", some Handler.rnfr)
    ∷ (codes "RNTO", some Handler.rnto)
    ∷ (codes "RETR", some Handler.retr)
    ∷ (codes "STOR", some Handler.stor)
    ∷ (codes "APPE", some Handler.appe)
    ∷ (codes "NOOP", some Handler.noop)
    ∷ (codes "QUIT", some Handler.quit)
    ∷ (codes "ABOR", some Handler.abor)
    ∷ (codes "HELP", some Handler.help)
    ∷ (codes "STAT", some Handler.stat)
    ∷ (codes "SITE", some Handler.site)
    ∷ (codes "STRU", none)
    ∷ (codes "MODE", none)
    ∷ (codes "MDTM", none)
    ∷ (codes "EPRT", none)
    ∷ (codes "EPSV", none)
    ∷ []

-- `services.find(cmd)`: no entry, or the entry's function.
unfoldable pub find_service : Bytes → List (Bytes × Option Handler) → Option (Option Handler)
unfolding str_eq
find_service cmd [] = none
find_service cmd ((name, h) ∷ entries) =
    if str_eq cmd name then some h else find_service cmd entries

-- What is left open of a run: how many reads an upload may take, and what the arrays of PORT and
-- PASV hold before they are written.
pub record Frame : Type 0 where
  pub rounds : ℕ
  pub port_memory : List ℕ
  pub pasv_memory : List ℕ

unfoldable pub run_handler : Frame → Handler → Proc ⊤
run_handler f Handler.user = handle_user
run_handler f Handler.pass = handle_pass
run_handler f Handler.syst = handle_syst
run_handler f Handler.feat = handle_feat
run_handler f Handler.pwd = handle_pwd
run_handler f Handler.type = handle_type
run_handler f Handler.port = handle_port f.port_memory
run_handler f Handler.list = handle_list
run_handler f Handler.pasv = handle_pasv f.pasv_memory
run_handler f Handler.nlst = handle_nlst
run_handler f Handler.cwd = handle_cwd
run_handler f Handler.cdup = handle_cdup
run_handler f Handler.dele = handle_dele
run_handler f Handler.rest = handle_rest
run_handler f Handler.mkd = handle_mkd
run_handler f Handler.rmd = handle_rmd
run_handler f Handler.size = handle_size
run_handler f Handler.rnfr = handle_rnfr
run_handler f Handler.rnto = handle_rnto
run_handler f Handler.retr = handle_retr
run_handler f Handler.stor = handle_stor f.rounds
run_handler f Handler.appe = handle_appe f.rounds
run_handler f Handler.noop = handle_noop
run_handler f Handler.quit = handle_quit
run_handler f Handler.abor = handle_abor
run_handler f Handler.help = handle_help
run_handler f Handler.stat = handle_stat
run_handler f Handler.site = handle_site

unfoldable pub dispatch : Frame → Option (Option Handler) → Proc ⊤
dispatch f none = reply (codes "500 Unknown command.")
dispatch f (some none) = reply (codes "502 Unimplement command.")
dispatch f (some (some h)) = run_handler f h

-- `kill_idle_coltrol_conn`.
unfoldable pub arm_alarm : Proc ⊤
arm_alarm = do
  config ← get_config
  if ltb 0 config.idle_ctrl_timeout
      then (do call (Call.alarm config.idle_ctrl_timeout); pure tt)
      else pure tt

-- !logged_in && cmd != "USER" && cmd != "PASS"
abbrev pub is_refused : Session → Bool
is_refused s =
    not s.logged_in && (not (str_eq s.cmd (codes "USER")) && not (str_eq s.cmd (codes "PASS")))

-- Behind `parse_command`, one round of the loop.
unfoldable pub serve_command : Frame → Proc ⊤
serve_command f = do
  s ← get_session
  if is_refused s
      then reply (codes "500 Please login first")
      else (do call (Call.alarm 0); dispatch f (find_service s.cmd services))

unfoldable pub serve_round : Frame → Proc ⊤
serve_round f = do arm_alarm; parse_command; serve_command f

-- The first `n` rounds.
unfoldable pub serve : ℕ → Frame → Proc ⊤
serve zero f = stop unfinished
serve (suc n) f = serve_round f >> serve n f

-- The ftp process from its greeting on.
unfoldable pub start_ftp_service : ℕ → Frame → Proc ⊤
start_ftp_service n f = reply (codes "220 (mini ftpd version 1.0)") >> serve n f

-- The process behind the fork, with the descriptors of the client and of the socket pair.
abbrev pub fresh : Config → ℕ → ℕ → Machine
fresh config conn_fd pic_fd = record {
  session = new_session conn_fd pic_fd;
  config = config;
  log = [];
}
