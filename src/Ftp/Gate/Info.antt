-- ===== src/Ftp/Gate/Info.antt =====
-- What the programs of Ftp/Info keep.
use mini_ftpd.Ftp.Proc.{Machine}
use mini_ftpd.Ftp.Info.{
  handle_stat, handle_type, handle_rest, handle_noop, handle_quit, handle_abor, handle_help,
  handle_syst, handle_feat,
}
use mini_ftpd.Ftp.Keeps.{Keeps, OfLog, step_rules}

module _ {P : Machine → Type 0} (l : OfLog P) where
  pub Keeps-handle_stat : Keeps P handle_stat
  unfolding handle_stat
  Keeps-handle_stat = search step_rules depth 20

  pub Keeps-handle_type : Keeps P handle_type
  unfolding handle_type
  Keeps-handle_type = search step_rules depth 20

  pub Keeps-handle_rest : Keeps P handle_rest
  unfolding handle_rest
  Keeps-handle_rest = search step_rules depth 20

  pub Keeps-handle_noop : Keeps P handle_noop
  unfolding handle_noop
  Keeps-handle_noop = search step_rules depth 20

  pub Keeps-handle_quit : Keeps P handle_quit
  unfolding handle_quit
  Keeps-handle_quit = search step_rules depth 20

  pub Keeps-handle_abor : Keeps P handle_abor
  unfolding handle_abor
  Keeps-handle_abor = search step_rules depth 20

  pub Keeps-handle_help : Keeps P handle_help
  unfolding handle_help
  Keeps-handle_help = search step_rules depth 20

  pub Keeps-handle_syst : Keeps P handle_syst
  unfolding handle_syst
  Keeps-handle_syst = search step_rules depth 20

  pub Keeps-handle_feat : Keeps P handle_feat
  unfolding handle_feat
  Keeps-handle_feat = search step_rules depth 20
