-- ===== src/Ftp/Gate/Site.antt =====
-- What the programs of Ftp/Site keep.
use mini_ftpd.Prelude.{ℕ, List, [], ◌∷◌}
use mini_ftpd.Text.Bytes.{Bytes}
use mini_ftpd.Ftp.Proc.{Machine, undefined}
use mini_ftpd.Ftp.Site.{site_chmod, set_umask, site_umask, site_command, handle_site}
use mini_ftpd.Ftp.Keeps.{Keeps, OfLog, Keeps-stop, step_rules}

module _ {P : Machine → Type 0} (l : OfLog P) where
  Keeps-site_chmod : (args : List Bytes) → Keeps P (site_chmod args)
  unfolding site_chmod
  Keeps-site_chmod args = search step_rules depth 20

  Keeps-set_umask : (mask : ℕ) → Keeps P (set_umask mask)
  unfolding set_umask
  Keeps-set_umask mask = search step_rules depth 20

  Keeps-site_umask : (args : List Bytes) → Keeps P (site_umask args)
  unfolding site_umask
  Keeps-site_umask args = search (step_rules, Keeps-set_umask) depth 20

  Keeps-site_command : (args : List Bytes) → Keeps P (site_command args)
  unfolding site_command
  Keeps-site_command [] = Keeps-stop undefined
  Keeps-site_command (w ∷ ws) = search (step_rules, Keeps-site_chmod, Keeps-site_umask) depth 9

  pub Keeps-handle_site : Keeps P handle_site
  unfolding handle_site
  Keeps-handle_site = search (step_rules, Keeps-site_command) depth 20
