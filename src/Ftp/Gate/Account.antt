-- ===== src/Ftp/Gate/Account.antt =====
-- What the programs of Ftp/Account keep.
use mini_ftpd.Prelude.{ℕ}
use mini_ftpd.Ftp.Proc.{Answer, Machine}
use mini_ftpd.Ftp.Account.{
  set_permissions, activate_sigurg, user_name, handle_user, log_in, check_password, handle_pass,
}
use mini_ftpd.Ftp.Keeps.{Keeps, OfLog, step_rules}

module _ {P : Machine → Type 0} (l : OfLog P) where
  Keeps-set_permissions : (egid euid mask : ℕ) → Keeps P (set_permissions egid euid mask)
  unfolding set_permissions
  Keeps-set_permissions egid euid mask = search step_rules depth 20

  Keeps-activate_sigurg : (fd : ℕ) → Keeps P (activate_sigurg fd)
  unfolding activate_sigurg
  Keeps-activate_sigurg fd = search step_rules depth 20

  Keeps-user_name : Keeps P user_name
  unfolding user_name
  Keeps-user_name = search step_rules depth 20

  pub Keeps-handle_user : Keeps P handle_user
  unfolding handle_user
  Keeps-handle_user = search (step_rules, Keeps-user_name) depth 20

  Keeps-log_in : (pw : Answer) → Keeps P (log_in pw)
  unfolding log_in
  Keeps-log_in pw = search (step_rules, Keeps-set_permissions, Keeps-activate_sigurg) depth 20

  Keeps-check_password : (uid : ℕ) → Keeps P (check_password uid)
  unfolding check_password
  Keeps-check_password uid = search (step_rules, Keeps-log_in) depth 20

  pub Keeps-handle_pass : Keeps P handle_pass
  unfolding handle_pass
  Keeps-handle_pass = search (step_rules, Keeps-check_password) depth 20
