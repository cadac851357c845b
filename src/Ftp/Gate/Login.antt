-- ===== src/Ftp/Gate/Login.antt =====
-- What a client that has not logged in can reach: USER, PASS and the refusal.
use mathlib.Core.Path.{subst}
use mini_ftpd.Prelude.{ℕ, true, false, List, [], ◌∷◌, ◌++◌, ◌≡◌, refl, ap, sym}
use mini_ftpd.Text.Bytes.{Bytes, str_eq}
use mini_ftpd.Session.Defs.{Session}
use mini_ftpd.Ftp.Proc.{Call, Answer, Event, Machine, call, get_session}
use mini_ftpd.Ftp.Account.{
  set_permissions, activate_sigurg, user_name, handle_user, log_in, check_password, handle_pass,
}
use mini_ftpd.Ftp.Gate.Defs.{touches_files, HasLogin, Gated, IsSafe}
use mini_ftpd.Ftp.Triple.{
  Gives, Gives-pure, Gives-exit, Gives-undefined, Gives-if, Gives-bind, Gives-case_option,
  Gives-from, Gives-get_session, Gives-get_config, Gives-call, Gives-put_session,
}
use mini_ftpd.Ftp.Gate.Quiet.{OfQuiet, Gives-quiet, Gives-reply}

pub IsSafe-OfQuiet : OfQuiet IsSafe
unfolding Gated
IsSafe-OfQuiet = record {
  after_quiet = λ e m quiet safe. record {
    gated = (λ h. cc (h, quiet), safe.gated);
    logged_in = λ h. HasLogin.later e m.log (safe.logged_in h);
  };
}

-- The session has been read.
abbrev pub Read : Session → Machine → Type 0
Read s m = IsSafe m × (s ≡ m.session)

pub Read-OfQuiet : (s : Session) → OfQuiet (Read s)
Read-OfQuiet s = record {
  after_quiet = λ e m quiet h. (IsSafe-OfQuiet.after_quiet e m quiet h.0, h.1);
}

-- These events stand on top of the log.
abbrev Behind : List Event → Machine → Type 0
Behind l m = IsSafe m × (log : List Event) × (m.log ≡ l ++ log)

Gives-track :
    (l : List Event) (c : Call)
    → touches_files c ≡ false
    → Gives IsSafe (Behind l) (call c) (λ a m. Behind (record { call = c; answer = a } ∷ l) m)
Gives-track l c quiet = Gives-call c λ m a h. (
  IsSafe-OfQuiet.after_quiet (record { call = c; answer = a }) m quiet h.0,
  h.1,
  ap (λ t. record { call = c; answer = a } ∷ t) h.2,
)

-- The process runs as the user.
abbrev pub Entered : Machine → Type 0
Entered m = IsSafe m × HasLogin m.log

Entered-OfQuiet : OfQuiet Entered
Entered-OfQuiet = record {
  after_quiet =
      λ e m quiet h. (IsSafe-OfQuiet.after_quiet e m quiet h.0, HasLogin.later e m.log h.1);
}

Gives-user_name : Gives IsSafe IsSafe user_name (λ _ m. IsSafe m)
unfolding user_name touches_files
Gives-user_name = Gives-bind get_session _ Gives-get_session λ s.
    Gives-bind _ _ (Gives-quiet (Read-OfQuiet s) (Call.getpwnam s.arg) refl) λ pw.
      Gives-if pw.ok _ _
        (λ _. Gives-bind _ _ (Gives-reply (Read-OfQuiet s) _) λ _.
          Gives-put_session _
            λ m h. record { gated = h.0.gated; logged_in = λ l. h.0.logged_in (cc (l, h.1)) })
        (λ _. Gives-from (λ m h. h.0) (Gives-reply IsSafe-OfQuiet _))

pub Gives-handle_user : Gives IsSafe IsSafe handle_user (λ _ m. IsSafe m)
unfolding handle_user
Gives-handle_user = Gives-bind get_session _ Gives-get_session λ s.
    Gives-from (λ m h. h.0)
      (Gives-case_option s.uid user_name _ Gives-user_name (λ _. Gives-reply IsSafe-OfQuiet _))

-- Where these two changes of a process behind `l` make a login, it has entered.
Gives-set_permissions :
    (l : List Event) (egid euid mask : ℕ)
    → ((g u : Answer) (log : List Event)
        → g.ok ≡ true
        → u.ok ≡ true
        → HasLogin (
            record { call = Call.seteuid euid; answer = u }
              ∷ record { call = Call.setegid egid; answer = g }
              ∷ l
            ++ log))
    → Gives IsSafe (Behind l) (set_permissions egid euid mask) (λ _ m. Entered m)
unfolding set_permissions touches_files
Gives-set_permissions l egid euid mask login =
    Gives-bind _ _ (Gives-track l (Call.setegid egid) refl) λ g.
      Gives-if g.ok _ _
        (λ g_ok.
          Gives-bind _ _
            (Gives-track (record { call = Call.setegid egid; answer = g } ∷ l) (Call.seteuid euid)
              refl)
            λ u.
              Gives-if u.ok _ _
                (λ u_ok.
                  Gives-from (λ m h. (h.0, subst HasLogin (sym h.2) (login g u h.1 g_ok u_ok)))
                    (Gives-bind _ _ (Gives-quiet Entered-OfQuiet (Call.umask mask) refl)
                      λ _. Gives-pure tt (λ m h. h)))
                (λ _. Gives-exit 1 (λ m h. h.0)))
        (λ _. Gives-exit 1 (λ m h. h.0))

Gives-activate_sigurg : (fd : ℕ) → Gives IsSafe Entered (activate_sigurg fd) (λ _ m. Entered m)
unfolding activate_sigurg touches_files
Gives-activate_sigurg fd =
    Gives-bind _ _ (Gives-quiet Entered-OfQuiet (Call.own_sigurg fd) refl)
      λ a. Gives-if a.ok _ _ (λ _. Gives-pure tt (λ m h. h)) (λ _. Gives-exit 1 (λ m h. h.0))

-- The events of a password that is confirmed.
abbrev confirmed : ℕ → Bytes → Answer → Answer → Answer → List Event
confirmed uid password pw sp encrypted =
    record { call = Call.crypt password sp.text; answer = encrypted }
    ∷ record { call = Call.getspnam pw.text; answer = sp }
    ∷ record { call = Call.getpwuid uid; answer = pw }
    ∷ []

Gives-log_in :
    (uid : ℕ) (password : Bytes) (pw sp encrypted : Answer)
    → pw.ok ≡ true
    → sp.ok ≡ true
    → encrypted.ok ≡ true
    → str_eq encrypted.text sp.text ≡ true
    → Gives IsSafe (Behind (confirmed uid password pw sp encrypted)) (log_in pw) (λ _ m. IsSafe m)
unfolding log_in
Gives-log_in uid password pw sp encrypted found shadow ok same =
    Gives-bind get_session _ Gives-get_session λ s.
      Gives-from (λ m h. h.0)
        (Gives-bind _ _ Gives-get_config λ config.
          Gives-bind _ _
            (Gives-set_permissions (confirmed uid password pw sp encrypted) pw.group pw.value
              config.local_umask
              λ g u log g_ok u_ok.
                HasLogin.now uid password pw sp encrypted g u log found shadow ok same g_ok u_ok)
            λ _. Gives-bind _ _ (Gives-activate_sigurg s.control_fd) λ _.
              Gives-bind _ _ (Gives-reply Entered-OfQuiet _)
                λ _. Gives-put_session _ λ m h. record { gated = h.0.gated; logged_in = λ _. h.1 })

Gives-check_password : (uid : ℕ) → Gives IsSafe IsSafe (check_password uid) (λ _ m. IsSafe m)
unfolding check_password touches_files
Gives-check_password uid = Gives-bind get_session _ Gives-get_session λ s.
    Gives-from {P = Behind []} (λ m h. (h.0, m.log, refl))
      (Gives-bind _ _ (Gives-track [] (Call.getpwuid uid) refl) λ pw.
        Gives-if pw.ok _ _
          (λ found.
            Gives-bind _ _
              (Gives-track (record { call = Call.getpwuid uid; answer = pw } ∷ [])
                (Call.getspnam pw.text) refl)
              λ sp.
                Gives-if sp.ok _ _
                  (λ shadow.
                    Gives-bind _ _
                      (Gives-track
                        (record { call = Call.getspnam pw.text; answer = sp }
                          ∷ record { call = Call.getpwuid uid; answer = pw }
                          ∷ [])
                        (Call.crypt s.arg sp.text) refl)
                      λ encrypted.
                        Gives-if encrypted.ok _ _
                          (λ ok.
                            Gives-if (str_eq encrypted.text sp.text) _ _
                              (λ same. Gives-log_in uid s.arg pw sp encrypted found shadow ok same)
                              (λ _. Gives-from (λ m h. h.0) (Gives-reply IsSafe-OfQuiet _)))
                          (λ _. Gives-undefined (λ m h. h.0)))
                  (λ _. Gives-from (λ m h. h.0) (Gives-reply IsSafe-OfQuiet _)))
          (λ _. Gives-from (λ m h. h.0) (Gives-reply IsSafe-OfQuiet _)))

pub Gives-handle_pass : Gives IsSafe IsSafe handle_pass (λ _ m. IsSafe m)
unfolding handle_pass
Gives-handle_pass = Gives-bind get_session _ Gives-get_session λ s.
    Gives-from (λ m h. h.0)
      (Gives-case_option s.uid _ check_password (Gives-reply IsSafe-OfQuiet _) Gives-check_password)
