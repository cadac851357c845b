-- ===== src/Ftp/Finishes/Commands.antt =====
-- The commands of ftp_protocol.cpp other than transfers come to an end.
use mini_ftpd.Prelude.{ℕ, List, [], ◌∷◌, refl}
use mini_ftpd.Text.Bytes.{Bytes}
use mini_ftpd.Config.Defs.{Config}
use mini_ftpd.Ftp.Proc.{Fd, Call, Answer, Env, stop, aborted, put_config, reply_buffer}
use mini_ftpd.Ftp.Finishes.{
  Finishes-undefined, Finishes-case_option, Finishes, finish_rules, Finishes-reply, Finishes-call,
  Finishes-bind, Finishes-pure, Finishes-establish_transfer, Finishes-refuse_transfer,
  Finishes-reset_data_fd,
}
use mini_ftpd.Ftp.Account.{
  set_permissions, activate_sigurg, user_name, handle_user, log_in, check_password, handle_pass,
}
use mini_ftpd.Ftp.Files.{
  handle_size, handle_pwd, change_directory, handle_cwd, handle_cdup, handle_mkd, handle_dele,
  handle_rmd, handle_rnfr, handle_rnto,
}
use mini_ftpd.Ftp.Info.{
  handle_stat, handle_type, handle_rest, handle_noop, handle_quit, handle_abor, handle_help,
  handle_syst, handle_feat,
}
use mini_ftpd.Ftp.Site.{site_chmod, set_umask, site_umask, site_command, handle_site}
use mini_ftpd.Ftp.Data.{handle_port, handle_pasv, send_lines, listing, handle_list, handle_nlst}

module _ {env : Env} where
  pub Finishes-aborted : {A : Type 0} → Finishes env (stop {A = A} aborted)
  unfolding stop
  Finishes-aborted = record { at = λ m. refl }

  pub Finishes-put_config : (c : Config) → Finishes env (put_config c)
  unfolding put_config
  Finishes-put_config c = record { at = λ m. refl }

  pub Finishes-reply_buffer : (n : ℕ) (t : Bytes) → Finishes env (reply_buffer n t)
  unfolding reply_buffer
  Finishes-reply_buffer n t = search finish_rules depth 20

  pub ruleset command_rules =
      (finish_rules, Finishes-aborted, Finishes-put_config, Finishes-reply, Finishes-reply_buffer)

  Finishes-set_permissions : (gid uid mask : ℕ) → Finishes env (set_permissions gid uid mask)
  unfolding set_permissions
  Finishes-set_permissions gid uid mask = search command_rules depth 20

  Finishes-activate_sigurg : (fd : ℕ) → Finishes env (activate_sigurg fd)
  unfolding activate_sigurg
  Finishes-activate_sigurg fd = search command_rules depth 20

  Finishes-user_name : Finishes env user_name
  unfolding user_name
  Finishes-user_name = search command_rules depth 20

  pub Finishes-handle_user : Finishes env handle_user
  unfolding handle_user
  Finishes-handle_user = search (command_rules, Finishes-user_name) depth 20

  Finishes-log_in : (pw : Answer) → Finishes env (log_in pw)
  unfolding log_in
  Finishes-log_in pw =
      search (command_rules, Finishes-set_permissions, Finishes-activate_sigurg) depth 20

  Finishes-check_password : (uid : ℕ) → Finishes env (check_password uid)
  unfolding check_password
  Finishes-check_password uid = search (command_rules, Finishes-log_in) depth 20

  pub Finishes-handle_pass : Finishes env handle_pass
  unfolding handle_pass
  Finishes-handle_pass = search (command_rules, Finishes-check_password) depth 20

  pub Finishes-handle_size : Finishes env handle_size
  unfolding handle_size
  Finishes-handle_size = search command_rules depth 20

  pub Finishes-handle_pwd : Finishes env handle_pwd
  unfolding handle_pwd
  Finishes-handle_pwd = search command_rules depth 20

  Finishes-change_directory : (path : Bytes) → Finishes env (change_directory path)
  unfolding change_directory
  Finishes-change_directory path = search command_rules depth 20

  pub Finishes-handle_cwd : Finishes env handle_cwd
  unfolding handle_cwd
  Finishes-handle_cwd = search (command_rules, Finishes-change_directory) depth 20

  pub Finishes-handle_cdup : Finishes env handle_cdup
  unfolding handle_cdup
  Finishes-handle_cdup = search (command_rules, Finishes-change_directory) depth 20

  pub Finishes-handle_mkd : Finishes env handle_mkd
  unfolding handle_mkd
  Finishes-handle_mkd = search command_rules depth 20

  pub Finishes-handle_dele : Finishes env handle_dele
  unfolding handle_dele
  Finishes-handle_dele = search command_rules depth 20

  pub Finishes-handle_rmd : Finishes env handle_rmd
  unfolding handle_rmd
  Finishes-handle_rmd = search command_rules depth 20

  pub Finishes-handle_rnfr : Finishes env handle_rnfr
  unfolding handle_rnfr
  Finishes-handle_rnfr = search command_rules depth 20

  pub Finishes-handle_rnto : Finishes env handle_rnto
  unfolding handle_rnto
  Finishes-handle_rnto = search command_rules depth 20

  pub Finishes-handle_stat : Finishes env handle_stat
  unfolding handle_stat
  Finishes-handle_stat = search command_rules depth 20

  pub Finishes-handle_type : Finishes env handle_type
  unfolding handle_type
  Finishes-handle_type = search command_rules depth 20

  pub Finishes-handle_rest : Finishes env handle_rest
  unfolding handle_rest
  Finishes-handle_rest = search command_rules depth 20

  pub Finishes-handle_noop : Finishes env handle_noop
  unfolding handle_noop
  Finishes-handle_noop = search command_rules depth 20

  pub Finishes-handle_quit : Finishes env handle_quit
  unfolding handle_quit
  Finishes-handle_quit = search command_rules depth 20

  pub Finishes-handle_abor : Finishes env handle_abor
  unfolding handle_abor
  Finishes-handle_abor = search command_rules depth 20

  pub Finishes-handle_help : Finishes env handle_help
  unfolding handle_help
  Finishes-handle_help = search command_rules depth 20

  pub Finishes-handle_syst : Finishes env handle_syst
  unfolding handle_syst
  Finishes-handle_syst = search command_rules depth 20

  pub Finishes-handle_feat : Finishes env handle_feat
  unfolding handle_feat
  Finishes-handle_feat = search command_rules depth 20

  Finishes-site_chmod : (args : List Bytes) → Finishes env (site_chmod args)
  unfolding site_chmod
  Finishes-site_chmod args = search command_rules depth 20

  Finishes-set_umask : (mask : ℕ) → Finishes env (set_umask mask)
  unfolding set_umask
  Finishes-set_umask mask = search command_rules depth 20

  Finishes-site_umask : (args : List Bytes) → Finishes env (site_umask args)
  unfolding site_umask
  Finishes-site_umask args = search (command_rules, Finishes-set_umask) depth 20

  Finishes-site_command : (args : List Bytes) → Finishes env (site_command args)
  unfolding site_command
  Finishes-site_command [] = Finishes-undefined
  Finishes-site_command (w ∷ ws) =
      search (command_rules, Finishes-site_chmod, Finishes-site_umask) depth 20

  pub Finishes-handle_site : Finishes env handle_site
  unfolding handle_site
  Finishes-handle_site = search (command_rules, Finishes-site_command) depth 20

  pub Finishes-handle_port : (memory : List ℕ) → Finishes env (handle_port memory)
  unfolding handle_port
  Finishes-handle_port memory = search command_rules depth 20

  pub Finishes-handle_pasv : (memory : List ℕ) → Finishes env (handle_pasv memory)
  unfolding handle_pasv
  Finishes-handle_pasv memory = search command_rules depth 20

  Finishes-send_lines : (fd : Fd) (lines : List Bytes) → Finishes env (send_lines fd lines)
  unfolding send_lines
  Finishes-send_lines fd [] = Finishes-pure tt
  Finishes-send_lines fd (line ∷ lines) =
      Finishes-bind _ _ (Finishes-call _) λ _. Finishes-send_lines fd lines

  Finishes-listing : (list : Call) → Finishes env (listing list)
  unfolding listing
  Finishes-listing list =
      search
        (
          command_rules, Finishes-send_lines, Finishes-establish_transfer, Finishes-refuse_transfer,
          Finishes-reset_data_fd,
        )
        depth 20

  pub Finishes-handle_list : Finishes env handle_list
  unfolding handle_list
  Finishes-handle_list = Finishes-listing Call.list_dir

  pub Finishes-handle_nlst : Finishes env handle_nlst
  unfolding handle_nlst
  Finishes-handle_nlst = Finishes-listing Call.list_neat_dir
