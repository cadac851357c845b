-- ===== src/Ftp/Gate/Safe.antt =====
-- The gate over the whole ftp process.
use mini_ftpd.Prelude.{
  ℕ, zero, suc, true, false, Option, some, ⊤, ◌≡◌, inl, inr, refl, arith, ltb, ◌==◌, Bool-cases,
}
use mini_ftpd.Text.Bytes.{Bytes, codes, str_eq}
use mini_ftpd.Session.Defs.{Session, new_session}
use mini_ftpd.Session.Parse.Defs.{parse_line}
use mini_ftpd.Config.Defs.{Config}
use mini_ftpd.Ftp.Proc.{
  Call, Env, Machine, Outcome, done, exited, aborted, undefined, unfinished, get_session,
}
use mini_ftpd.Ftp.Transfer.{control_alarm_handler, parse_command}
use mini_ftpd.Ftp.Service.{
  Handler, services, find_service, Frame, run_handler, dispatch, arm_alarm, is_refused,
  serve_command, serve_round, serve, start_ftp_service, fresh,
}
use mini_ftpd.Ftp.Keeps.{OfLog}
use mini_ftpd.Ftp.Gate.Defs.{touches_files, HasLogin, Gated, IsSafe}
use mini_ftpd.Ftp.Triple.{
  Ends, Gives, Gives-pure, Gives-exit, Gives-unfinished, Gives-if, Gives-bind, Gives-from,
  Gives-get_session, Gives-get_config, Gives-put_session,
}
use mini_ftpd.Ftp.Gate.Quiet.{Gives-quiet, Gives-reply}
use mini_ftpd.Ftp.Gate.Login.{IsSafe-OfQuiet, Read-OfQuiet, Gives-handle_user, Gives-handle_pass}
use mini_ftpd.Ftp.Gate.Handlers.{Keeps-dispatch}

-- A user may touch files.
abbrev OfUser : Machine → Type 0
OfUser m = Gated m.log × HasLogin m.log

OfUser-OfLog : OfLog OfUser
unfolding Gated
OfUser-OfLog = record {
  after_call = λ m e h. (((λ _. h.1), h.0), HasLogin.later e m.log h.1);
  after_session = λ m s h. h;
  after_config = λ m c h. h;
}

-- A program of a user's session leaves a safe machine.
Ends-OfUser :
    {A : Type 0} (o : Outcome A) (m : Machine) → OfUser m → Ends IsSafe (λ _ n. IsSafe n) (o, m)
Ends-OfUser (done a) m h = record { gated = h.0; logged_in = λ _. h.1 }
Ends-OfUser (exited n) m h = record { gated = h.0; logged_in = λ _. h.1 }
Ends-OfUser aborted m h = record { gated = h.0; logged_in = λ _. h.1 }
Ends-OfUser undefined m h = record { gated = h.0; logged_in = λ _. h.1 }
Ends-OfUser unfinished m h = record { gated = h.0; logged_in = λ _. h.1 }

Gives-dispatch_user :
    (f : Frame) (o : Option (Option Handler)) → Gives IsSafe OfUser (dispatch f o) (λ _ m. IsSafe m)
Gives-dispatch_user f o = record {
  at = λ env m h.
      let (out, m') = dispatch f o env m in
      Ends-OfUser out m' ((Keeps-dispatch OfUser-OfLog f o).at env m h);
}

Gives-arm_alarm : Gives IsSafe IsSafe arm_alarm (λ _ m. IsSafe m)
unfolding arm_alarm touches_files
Gives-arm_alarm = Gives-bind _ _ Gives-get_config λ config.
    Gives-if (ltb 0 config.idle_ctrl_timeout) _ _
      (λ _.
        Gives-bind _ _ (Gives-quiet IsSafe-OfQuiet (Call.alarm config.idle_ctrl_timeout) refl)
          λ _. Gives-pure tt (λ m h. h))
      (λ _. Gives-pure tt (λ m h. h))

parse_line-logged_in : (line : Bytes) (s : Session) → (parse_line line s).logged_in ≡ s.logged_in
unfolding parse_line
parse_line-logged_in line s = ground arith

Gives-control_alarm_handler : Gives IsSafe IsSafe control_alarm_handler (λ _ m. IsSafe m)
unfolding control_alarm_handler touches_files
Gives-control_alarm_handler = Gives-bind get_session _ Gives-get_session λ s.
    Gives-from (λ m h. h.0)
      (Gives-bind _ _ (Gives-quiet IsSafe-OfQuiet (Call.shutdown (some s.control_fd)) refl) λ _.
        Gives-bind _ _ (Gives-reply IsSafe-OfQuiet _) λ _.
          Gives-bind _ _ (Gives-quiet IsSafe-OfQuiet (Call.shutdown (some s.control_fd)) refl)
            λ _. Gives-exit 0 (λ m h. h))

Gives-parse_command : Gives IsSafe IsSafe parse_command (λ _ m. IsSafe m)
unfolding parse_command touches_files
Gives-parse_command = Gives-bind get_session _ Gives-get_session λ s.
    Gives-bind _ _ (Gives-quiet (Read-OfQuiet s) (Call.readline s.control_fd) refl) λ a.
      Gives-if a.expired _ _ (λ _. Gives-from (λ m h. h.0) Gives-control_alarm_handler)
        (λ _.
          Gives-if a.ok _ _
            (λ _.
              Gives-if (a.value == 0) _ _ (λ _. Gives-exit 0 (λ m h. h.0))
                (λ _. Gives-put_session _ λ m h. record {
                  gated = h.0.gated;
                  logged_in = λ l. h.0.logged_in (cc (l, h.1, parse_line-logged_in a.text s));
                }))
            (λ _. Gives-exit 1 (λ m h. h.0)))

-- The two commands that need no login are in the table.
find_service-user :
    (cmd : Bytes)
    → str_eq cmd (codes "USER") ≡ true
    → find_service cmd services ≡ some (some Handler.user)
unfolding find_service
find_service-user cmd e = rw e refl

find_service-pass :
    (cmd : Bytes)
    → str_eq cmd (codes "USER") ≡ false
    → str_eq cmd (codes "PASS") ≡ true
    → find_service cmd services ≡ some (some Handler.pass)
unfolding find_service
find_service-pass cmd n e = rw (n, e) refl

refused-pass :
    (s : Session)
    → is_refused s ≡ false
    → s.logged_in ≡ false
    → str_eq s.cmd (codes "USER") ≡ false
    → str_eq s.cmd (codes "PASS") ≡ true
refused-pass s allowed guest other = ground (arith, allowed, guest, other)

Gives-dispatch_guest :
    (f : Frame) (s : Session)
    → is_refused s ≡ false
    → s.logged_in ≡ false
    → Gives IsSafe IsSafe (dispatch f (find_service s.cmd services)) (λ _ m. IsSafe m)
unfolding dispatch run_handler
Gives-dispatch_guest f s allowed guest = elim (Bool-cases (str_eq s.cmd (codes "USER"))) [
  | inl user ↦ rw (find_service-user s.cmd user) Gives-handle_user
  | inr other ↦
      rw (find_service-pass s.cmd other (refused-pass s allowed guest other)) Gives-handle_pass
]

Gives-serve_command : (f : Frame) → Gives IsSafe IsSafe (serve_command f) (λ _ m. IsSafe m)
unfolding serve_command touches_files
Gives-serve_command f = Gives-bind get_session _ Gives-get_session λ s.
    Gives-if (is_refused s) _ _ (λ _. Gives-from (λ m h. h.0) (Gives-reply IsSafe-OfQuiet _))
      (λ allowed. Gives-bind _ _ (Gives-quiet (Read-OfQuiet s) (Call.alarm 0) refl) λ _.
        elim (Bool-cases s.logged_in) [
          | inl user ↦
              Gives-from (λ m h. (h.0.gated, h.0.logged_in (cc (user, h.1))))
                (Gives-dispatch_user f _)
          | inr guest ↦ Gives-from (λ m h. h.0) (Gives-dispatch_guest f s allowed guest)
        ])

Gives-serve : (n : ℕ) (f : Frame) → Gives IsSafe IsSafe (serve n f) (λ _ m. IsSafe m)
unfolding serve serve_round
Gives-serve zero f = Gives-unfinished (λ m h. h)
Gives-serve (suc n) f =
    Gives-bind _ _
      (Gives-bind _ _ Gives-arm_alarm
        λ _. Gives-bind _ _ Gives-parse_command λ _. Gives-serve_command f)
      (λ _. Gives-serve n f)

Ends-IsSafe : (o : Outcome ⊤) (m : Machine) → Ends IsSafe (λ _ n. IsSafe n) (o, m) → IsSafe m
Ends-IsSafe (done a) m h = h
Ends-IsSafe (exited n) m h = h
Ends-IsSafe aborted m h = h
Ends-IsSafe undefined m h = h
Ends-IsSafe unfinished m h = h

fresh-IsSafe : (config : Config) (conn_fd pic_fd : ℕ) → IsSafe (fresh config conn_fd pic_fd)
unfolding new_session Gated
fresh-IsSafe config conn_fd pic_fd = record { gated = tt; logged_in = λ h. cc h }

start_ftp_service-IsSafe :
    (env : Env) (n : ℕ) (f : Frame) (config : Config) (conn_fd pic_fd : ℕ)
    → IsSafe (start_ftp_service n f env (fresh config conn_fd pic_fd)).1
unfolding start_ftp_service
start_ftp_service-IsSafe env n f config conn_fd pic_fd =
    let g : Gives IsSafe IsSafe (start_ftp_service n f) (λ _ m. IsSafe m) =
      Gives-bind _ _ (Gives-reply IsSafe-OfQuiet _) (λ _. Gives-serve n f) in
    let (o, m) = start_ftp_service n f env (fresh config conn_fd pic_fd) in
    Ends-IsSafe o m (g.at env (fresh config conn_fd pic_fd) (fresh-IsSafe config conn_fd pic_fd))

-- Whatever the client sends and whatever the calls answer, after any number of rounds of the ftp
-- process and however it has ended: every call on a file or a directory in its log comes behind a
-- login. A login is an account that `getpwuid` has found, its hash from `getspnam`, a `crypt` with that
-- hash that gave it back, and then a `setegid` and a `seteuid` to the group and the user of this
-- account, all with success.
pub start_ftp_service-Gated :
    (env : Env) (n : ℕ) (f : Frame) (config : Config) (conn_fd pic_fd : ℕ)
    → Gated (start_ftp_service n f env (fresh config conn_fd pic_fd)).1.log
start_ftp_service-Gated env n f config conn_fd pic_fd =
    (start_ftp_service-IsSafe env n f config conn_fd pic_fd).gated

-- Whatever the client sends and whatever the calls answer, after any number of rounds of the ftp
-- process and however it has ended: where its session is logged in, the log holds a login. A login is
-- an account that `getpwuid` has found, its hash from `getspnam`, a `crypt` with that hash that gave it
-- back, and then, with no other call in between, a `setegid` and a `seteuid` to the group and the user
-- of this account, all with success.
pub start_ftp_service-HasLogin :
    (env : Env) (n : ℕ) (f : Frame) (config : Config) (conn_fd pic_fd : ℕ)
    → (start_ftp_service n f env (fresh config conn_fd pic_fd)).1.session.logged_in ≡ true
    → HasLogin (start_ftp_service n f env (fresh config conn_fd pic_fd)).1.log
start_ftp_service-HasLogin env n f config conn_fd pic_fd h =
    (start_ftp_service-IsSafe env n f config conn_fd pic_fd).logged_in h
