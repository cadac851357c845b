-- ===== src/Ftp/Gate/Files.antt =====
-- What the programs of Ftp/Files keep.
use mini_ftpd.Text.Bytes.{Bytes}
use mini_ftpd.Ftp.Proc.{Machine}
use mini_ftpd.Ftp.Files.{
  handle_size, handle_pwd, change_directory, handle_cwd, handle_cdup, handle_mkd, handle_dele,
  handle_rmd, handle_rnfr, handle_rnto,
}
use mini_ftpd.Ftp.Keeps.{Keeps, OfLog, step_rules}

module _ {P : Machine → Type 0} (l : OfLog P) where
  pub Keeps-handle_size : Keeps P handle_size
  unfolding handle_size
  Keeps-handle_size = search step_rules depth 20

  pub Keeps-handle_pwd : Keeps P handle_pwd
  unfolding handle_pwd
  Keeps-handle_pwd = search step_rules depth 20

  Keeps-change_directory : (path : Bytes) → Keeps P (change_directory path)
  unfolding change_directory
  Keeps-change_directory path = search step_rules depth 20

  pub Keeps-handle_cwd : Keeps P handle_cwd
  unfolding handle_cwd
  Keeps-handle_cwd = search (step_rules, Keeps-change_directory) depth 20

  pub Keeps-handle_cdup : Keeps P handle_cdup
  unfolding handle_cdup
  Keeps-handle_cdup = search (step_rules, Keeps-change_directory) depth 20

  pub Keeps-handle_mkd : Keeps P handle_mkd
  unfolding handle_mkd
  Keeps-handle_mkd = search step_rules depth 20

  pub Keeps-handle_dele : Keeps P handle_dele
  unfolding handle_dele
  Keeps-handle_dele = search step_rules depth 20

  pub Keeps-handle_rmd : Keeps P handle_rmd
  unfolding handle_rmd
  Keeps-handle_rmd = search step_rules depth 20

  pub Keeps-handle_rnfr : Keeps P handle_rnfr
  unfolding handle_rnfr
  Keeps-handle_rnfr = search step_rules depth 20

  pub Keeps-handle_rnto : Keeps P handle_rnto
  unfolding handle_rnto
  Keeps-handle_rnto = search step_rules depth 20
