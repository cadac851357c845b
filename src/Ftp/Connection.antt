-- ===== src/Ftp/Connection.antt =====
-- The data connections of the ftp process, by its log, and the parts of a transfer that leave them
-- as they are.
use Prim.Native.Nat.{min}
use mini_ftpd.Prelude.{
  ℕ, zero, suc, ◌-◌, ◌==◌, Bool, true, false, Option, none, some, List, [], ◌∷◌, ◌≡◌, ◌⊎◌, inl, inr,
  refl, ap, ◌∙◌, arith, Bool-cases, if◌then◌else◌,
}
use mini_ftpd.Prelude.Int.{ℤ}
use mini_ftpd.Text.Bytes.{Bytes}
use mini_ftpd.Session.Defs.{Session}
use mini_ftpd.Session.Parse.Defs.{parse_line}
use mini_ftpd.Ftp.Proc.{
  Fd, Call, Answer, Event, Env, Machine, Proc, pure, exit, ◌>>=◌, case_option, call, get_session,
  get_config, put_session, reply, reply_buffer,
}
use mini_ftpd.Ftp.Triple.{
  Gives, Gives-pure, Gives-exit, Gives-unfinished, Gives-if, Gives-bind, Gives-case_option,
  Anything, Gives-get_session, Gives-get_config, Gives-call, Gives-put_session,
}
use mini_ftpd.Ftp.Data.{send_lines}
use mini_ftpd.Ftp.Transfer.{
  control_alarm_handler, parse_command, sigurg_handler, deliver, await_data, send_piece, send_loop,
}
use mini_ftpd.Ftp.Upload.{store_piece, receive_piece, receive_loop, position}

abbrev pub without : ℕ → List ℕ → List ℕ
without fd [] = []
without fd (d ∷ ds) = if d == fd then ds else d ∷ without fd ds

unfoldable pub open_after : Call → Answer → List ℕ → List ℕ
open_after (Call.recv_fd d) a fds = if a.ok then a.value ∷ fds else fds
open_after (Call.close (some fd)) a fds = without fd fds
open_after c a fds = fds

-- The data connections that the nobody process has handed over and that are not closed, the latest
-- first.
unfoldable pub open_connections : List Event → List ℕ
open_connections [] = []
open_connections (e ∷ log) = open_after e.call e.answer (open_connections log)

-- No data connection but this one.
abbrev pub IsOnly : Fd → List ℕ → Type 0
IsOnly none fds = fds ≡ []
IsOnly (some fd) fds = (fds ≡ []) ⊎ (fds ≡ fd ∷ [])

-- The session holds `fd`, and no other data connection is open.
pub record Tracks (fd : Fd) (m : Machine) : Type 0 where
  pub held : m.session.data_fd ≡ fd
  pub only : IsOnly fd (open_connections m.log)

IsOnly-without : (fd : Fd) (n : ℕ) (fds : List ℕ) → IsOnly fd fds → IsOnly fd (without n fds)
IsOnly-without none n fds e = rw e refl
IsOnly-without (some fd) n fds (inl e) = inl (rw e refl)
IsOnly-without (some fd) n fds (inr e) = elim (Bool-cases (fd == n)) [
  | inl same ↦ inl (rw (e, same) refl)
  | inr other ↦ inr (rw (e, other) refl)
]

abbrev pub is_recv : Call → Bool
is_recv (Call.recv_fd d) = true
is_recv _ = false

module _ (fd : Fd) where
  IsOnly-after :
      (c : Call) (a : Answer) (fds : List ℕ)
      → is_recv c ≡ false
      → IsOnly fd fds
      → IsOnly fd (open_after c a fds)
  unfolding open_after
  IsOnly-after (Call.recv_fd d) a fds other h = cc other
  IsOnly-after (Call.close (some n)) a fds other h = IsOnly-without fd n fds h
  IsOnly-after (Call.close none) a fds other h = h
  IsOnly-after _ a fds other h = h

  -- `p` leaves the data connections as they are, where it comes back.
  pub record Kept {A : Type 0} (p : Proc A) : Type 0 where
    pub at : Gives {X = Env} Anything (Tracks fd) p (λ _. Tracks fd)

  -- The session that is read holds the data connection.
  pub reads :
      {A : Type 0} {R : A → Machine → Type 0} (f : Session → Proc A)
      → ((s : Session) → s.data_fd ≡ fd → Gives {X = Env} Anything (Tracks fd) (f s) R)
      → Gives {X = Env} Anything (Tracks fd) (get_session >>= f) R
  reads f k =
      Gives-bind get_session f Gives-get_session
        λ s. record { at = λ env m h. (k s (ap (λ t. t.data_fd) h.1 ∙ h.0.held)).at env m h.0 }

  pub writes : (s : Session) → s.data_fd ≡ fd → Kept (put_session s)
  writes s e = record {
    at = Gives-put_session {R = λ _. Tracks fd} s (λ m h. record { held = e; only = h.only });
  }

  pub calls : (c : Call) → is_recv c ≡ false → Kept (call c)
  unfolding open_connections
  calls c other = record {
    at = Gives-call {R = λ _. Tracks fd} c λ m a h. record {
      held = h.held;
      only = IsOnly-after c a (open_connections m.log) other h.only;
    };
  }

  module _ {A : Type 0} where
    pub pure-Kept : (a : A) → Kept (pure a)
    pure-Kept a = record { at = Gives-pure a (λ m h. h) }

    pub exit-Kept : (n : ℕ) → Kept (exit {A = A} n)
    exit-Kept n = record { at = Gives-exit n (λ _ _. tt) }

    pub if-Kept : (b : Bool) (p q : Proc A) → Kept p → Kept q → Kept (if b then p else q)
    if-Kept b p q kp kq = record { at = Gives-if b p q (λ _. kp.at) (λ _. kq.at) }

    pub read-Kept :
        (f : Session → Proc A)
        → ((s : Session) → s.data_fd ≡ fd → Kept (f s))
        → Kept (get_session >>= f)
    read-Kept f k = record { at = reads f (λ s e. (k s e).at) }

  pub bind-Kept :
      {A B : Type 0} (p : Proc A) (f : A → Proc B)
      → Kept p
      → ((a : A) → Kept (f a))
      → Kept (p >>= f)
  bind-Kept p f kp kf = record { at = Gives-bind p f kp.at (λ a. (kf a).at) }

  pub case_option-Kept :
      {A B : Type 0} (o : Option A) (p : Proc B) (q : A → Proc B)
      → Kept p
      → ((a : A) → Kept (q a))
      → Kept (case_option o p q)
  case_option-Kept o p q kp kq = record { at = Gives-case_option o p q kp.at (λ a. (kq a).at) }

  pub config-Kept : Kept get_config
  config-Kept = record { at = Gives-get_config }

  pub ruleset kept_rules = (
    read-Kept, writes, calls, pure-Kept, exit-Kept, if-Kept, bind-Kept, case_option-Kept,
    config-Kept,
  )

  pub reply-Kept : (text : Bytes) → Kept (reply text)
  unfolding reply
  reply-Kept text = search kept_rules depth 20

  pub reply_buffer-Kept : (size : ℕ) (text : Bytes) → Kept (reply_buffer size text)
  unfolding reply_buffer
  reply_buffer-Kept size text = search kept_rules depth 20

  control_alarm_handler-Kept : Kept control_alarm_handler
  unfolding control_alarm_handler
  control_alarm_handler-Kept = search (kept_rules, reply-Kept) depth 20

  parsed : (line : Bytes) (s : Session) → s.data_fd ≡ fd → (parse_line line s).data_fd ≡ fd
  unfolding parse_line
  parsed line s e = ground (arith, e)

  parse_command-Kept : Kept parse_command
  unfolding parse_command
  parse_command-Kept = search (kept_rules, parsed, control_alarm_handler-Kept) depth 20

  sigurg_handler-Kept : Kept sigurg_handler
  unfolding sigurg_handler
  sigurg_handler-Kept = search (kept_rules, reply-Kept, parse_command-Kept) depth 20

  deliver-Kept : (a : Answer) → Kept (deliver a)
  unfolding deliver
  deliver-Kept a = search (kept_rules, sigurg_handler-Kept) depth 20

  await_read-Kept : Kept (await_data Call.read_timeout)
  unfolding await_data
  await_read-Kept = search (kept_rules, reply-Kept) depth 20

  await_write-Kept : Kept (await_data Call.write_timeout)
  unfolding await_data
  await_write-Kept = search (kept_rules, reply-Kept) depth 20

  send_piece-Kept : (file_fd n : ℕ) → Kept (send_piece file_fd n)
  unfolding send_piece
  send_piece-Kept file_fd n = search (kept_rules, await_write-Kept, deliver-Kept) depth 20

  pub send_loop-Kept : (f file_fd left : ℕ) → Kept (send_loop f file_fd left)
  unfolding send_loop
  send_loop-Kept zero file_fd left = record { at = Gives-unfinished (λ _ _. tt) }
  send_loop-Kept (suc f) file_fd left =
      let piece = min left 65536 in
      if-Kept (left == 0) (pure false) _ (pure-Kept false) (
        bind-Kept (send_piece file_fd piece) _ (send_piece-Kept file_fd piece) λ failed.
          if-Kept failed (pure true) _ (pure-Kept true) (send_loop-Kept f file_fd (left - piece)))

  store_piece-Kept : (file_fd : ℕ) (piece : Bytes) → Kept (store_piece file_fd piece)
  unfolding store_piece
  store_piece-Kept file_fd piece = search kept_rules depth 20

  receive_piece-Kept : (file_fd : ℕ) → Kept (receive_piece file_fd)
  unfolding receive_piece
  receive_piece-Kept file_fd =
      search (kept_rules, await_read-Kept, deliver-Kept, store_piece-Kept) depth 20

  pub receive_loop-Kept : (rounds file_fd : ℕ) → Kept (receive_loop rounds file_fd)
  unfolding receive_loop
  receive_loop-Kept zero file_fd = record { at = Gives-unfinished (λ _ _. tt) }
  receive_loop-Kept (suc rounds) file_fd =
      bind-Kept (receive_piece file_fd) _ (receive_piece-Kept file_fd)
        λ e. case_option-Kept e _ pure (receive_loop-Kept rounds file_fd) pure-Kept

  pub position-Kept :
      (append_mode : Bool) (file_fd : ℕ) (offset : ℤ) → Kept (position append_mode file_fd offset)
  unfolding position
  position-Kept append_mode file_fd offset = search kept_rules depth 20

  pub send_lines-Kept : (to : Fd) (lines : List Bytes) → Kept (send_lines to lines)
  unfolding send_lines
  send_lines-Kept to [] = pure-Kept tt
  send_lines-Kept to (line ∷ lines) =
      bind-Kept (call (Call.write_n to line)) _ (calls (Call.write_n to line) refl)
        (λ _. send_lines-Kept to lines)
