-- ===== src/Ftp/Gate/Handlers.antt =====
-- Every handler, by the table.
use mini_ftpd.Prelude.{Option, none, some}
use mini_ftpd.Ftp.Proc.{Machine}
use mini_ftpd.Ftp.Service.{Handler, Frame, run_handler, dispatch}
use mini_ftpd.Ftp.Keeps.{Keeps, OfLog, Keeps-reply}
use mini_ftpd.Ftp.Gate.Account.{Keeps-handle_user, Keeps-handle_pass}
use mini_ftpd.Ftp.Gate.Data.{
  Keeps-handle_port, Keeps-handle_pasv, Keeps-handle_list, Keeps-handle_nlst,
}
use mini_ftpd.Ftp.Gate.Files.{
  Keeps-handle_size, Keeps-handle_pwd, Keeps-handle_cwd, Keeps-handle_cdup, Keeps-handle_mkd,
  Keeps-handle_dele, Keeps-handle_rmd, Keeps-handle_rnfr, Keeps-handle_rnto,
}
use mini_ftpd.Ftp.Gate.Info.{
  Keeps-handle_stat, Keeps-handle_type, Keeps-handle_rest, Keeps-handle_noop, Keeps-handle_quit,
  Keeps-handle_abor, Keeps-handle_help, Keeps-handle_syst, Keeps-handle_feat,
}
use mini_ftpd.Ftp.Gate.Site.{Keeps-handle_site}
use mini_ftpd.Ftp.Gate.Transfer.{Keeps-handle_retr}
use mini_ftpd.Ftp.Gate.Upload.{Keeps-handle_stor, Keeps-handle_appe}

-- Every handler keeps every property of the log.
Keeps-run_handler :
    {P : Machine → Type 0} (l : OfLog P) (f : Frame) (h : Handler) → Keeps P (run_handler f h)
unfolding run_handler
Keeps-run_handler l f Handler.user = Keeps-handle_user l
Keeps-run_handler l f Handler.pass = Keeps-handle_pass l
Keeps-run_handler l f Handler.syst = Keeps-handle_syst l
Keeps-run_handler l f Handler.feat = Keeps-handle_feat l
Keeps-run_handler l f Handler.pwd = Keeps-handle_pwd l
Keeps-run_handler l f Handler.type = Keeps-handle_type l
Keeps-run_handler l f Handler.port = Keeps-handle_port l f.port_memory
Keeps-run_handler l f Handler.list = Keeps-handle_list l
Keeps-run_handler l f Handler.pasv = Keeps-handle_pasv l f.pasv_memory
Keeps-run_handler l f Handler.nlst = Keeps-handle_nlst l
Keeps-run_handler l f Handler.cwd = Keeps-handle_cwd l
Keeps-run_handler l f Handler.cdup = Keeps-handle_cdup l
Keeps-run_handler l f Handler.dele = Keeps-handle_dele l
Keeps-run_handler l f Handler.rest = Keeps-handle_rest l
Keeps-run_handler l f Handler.mkd = Keeps-handle_mkd l
Keeps-run_handler l f Handler.rmd = Keeps-handle_rmd l
Keeps-run_handler l f Handler.size = Keeps-handle_size l
Keeps-run_handler l f Handler.rnfr = Keeps-handle_rnfr l
Keeps-run_handler l f Handler.rnto = Keeps-handle_rnto l
Keeps-run_handler l f Handler.retr = Keeps-handle_retr l
Keeps-run_handler l f Handler.stor = Keeps-handle_stor l f.rounds
Keeps-run_handler l f Handler.appe = Keeps-handle_appe l f.rounds
Keeps-run_handler l f Handler.noop = Keeps-handle_noop l
Keeps-run_handler l f Handler.quit = Keeps-handle_quit l
Keeps-run_handler l f Handler.abor = Keeps-handle_abor l
Keeps-run_handler l f Handler.help = Keeps-handle_help l
Keeps-run_handler l f Handler.stat = Keeps-handle_stat l
Keeps-run_handler l f Handler.site = Keeps-handle_site l

pub Keeps-dispatch :
    {P : Machine → Type 0} (l : OfLog P) (f : Frame) (o : Option (Option Handler))
    → Keeps P (dispatch f o)
unfolding dispatch
Keeps-dispatch l f none = Keeps-reply l _
Keeps-dispatch l f (some none) = Keeps-reply l _
Keeps-dispatch l f (some (some h)) = Keeps-run_handler l f h
