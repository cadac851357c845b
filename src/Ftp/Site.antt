-- ===== src/Ftp/Site.antt =====
-- SITE CHMOD, SITE UMASK and SITE HELP.
use mini_ftpd.Prelude.{ℕ, List, [], ◌∷◌, ◌++◌, ⊤, length, get_or, ◌==◌, if◌then◌else◌}
use mini_ftpd.Text.Bytes.{Bytes, codes, str_eq}
use mini_ftpd.Session.Split.Defs.{split}
use mini_ftpd.Ftp.Proc.{
  Call, Proc, stop, aborted, undefined, ◌>>=◌, ◌>>◌, case_option, call, get_session, get_config,
  put_config, reply,
}
use mini_ftpd.Ftp.Text.{stoi_octal, print_o}

-- `back()` and `pop_back()` of a string: without a '\r' at its end. Words are not empty.
unfoldable pub drop_cr : Bytes → Bytes
drop_cr [] = []
drop_cr (c ∷ []) = if c == 13 then [] else c ∷ []
drop_cr (c ∷ d ∷ cs) = c ∷ drop_cr (d ∷ cs)

-- The same on the last word.
unfoldable pub trim_last : List Bytes → List Bytes
unfolding drop_cr
trim_last [] = []
trim_last (w ∷ []) = drop_cr w ∷ []
trim_last (w ∷ v ∷ ws) = w ∷ trim_last (v ∷ ws)

unfoldable pub site_chmod : List Bytes → Proc ⊤
site_chmod args =
    if length args == 3
    then case_option (stoi_octal (get_or args 1 [])) (stop aborted) (λ mode. do
      a ← call (Call.chmod (get_or args 2 []) mode)
      if a.ok
          then reply (codes "200 SITE CHMOD command ok.")
          else reply (codes "500 SITE CHMOD command failed."))
    else reply (codes "500 SITE CHMOD needs 2 arguments.")

unfoldable pub set_umask : ℕ → Proc ⊤
set_umask mask = do
  call (Call.umask mask)
  config ← get_config
  put_config (record config { local_umask = mask })
  reply (codes "200 UMASK set to 0" ++ (print_o mask ++ codes "."))

unfoldable pub site_umask : List Bytes → Proc ⊤
site_umask args =
    if length args == 1
    then (do
      config ← get_config
      reply (codes "200 Your current UMASK is 0" ++ (print_o config.local_umask ++ codes ".")))
    else case_option (stoi_octal (get_or args 1 [])) (stop aborted) set_umask

-- `args.back()` of an empty vector is undefined: the test for `args.empty()` comes behind it.
unfoldable pub site_command : List Bytes → Proc ⊤
site_command [] = stop undefined
site_command (w ∷ ws) =
    let args = trim_last (w ∷ ws) in
    let name = get_or args 0 [] in
    if str_eq name (codes "CHMOD")
    then site_chmod args
    else if str_eq name (codes "UMASK")
    then site_umask args
    else if str_eq name (codes "HELP")
    then reply (codes "214 CHMOD UMASK HELP.")
    else reply (codes "500 Unknown SITE command.")

unfoldable pub handle_site : Proc ⊤
handle_site = do
  s ← get_session
  case_option (split s.arg (codes " ")) (stop undefined) site_command
