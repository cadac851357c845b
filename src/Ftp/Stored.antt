-- ===== src/Ftp/Stored.antt =====
-- The bytes of an upload: what has been read from the client and what has been written to the file.
use mini_ftpd.Prelude.{
  ap, sym, ℕ, ◌≤◌, ◌≡◌, refl, ◌∙◌, Bool, ◌&&◌, List, [], ◌∷◌, ◌++◌, length, ◌==◌, if◌then◌else◌,
}
use mathlib.Core.List.{append-nil}
use mini_ftpd.Text.Bytes.{Bytes}
use mini_ftpd.Ftp.Proc.{Call, Answer, Event, Env, Machine, Proc, call, get_session}
use mini_ftpd.Ftp.View
use mini_ftpd.Ftp.View.{View, viewed}
use mini_ftpd.Ftp.Triple.{Gives-from, Gives, Gives-into, Anything}
use mini_ftpd.Ftp.Transfer.{deliver, await_data}

-- The bytes that the reads of the data connection have brought.
abbrev pub took_from : Call → Answer → Bytes
took_from (Call.read_data fd) a = if a.ok then a.text else []
took_from c a = []

unfoldable pub taken : List Event → Bytes
taken [] = []
taken (e ∷ log) = taken log ++ took_from e.call e.answer

-- The bytes that `file_fd` has taken whole.
abbrev pub put_to : ℕ → Call → Answer → Bytes
put_to file_fd (Call.write_file fd bs) a =
    if fd == file_fd && (a.ok && a.value == length bs) then bs else []
put_to file_fd c a = []

unfoldable pub stored : ℕ → List Event → Bytes
stored file_fd [] = []
stored file_fd (e ∷ log) = stored file_fd log ++ put_to file_fd e.call e.answer

nothing_more : (s : Bytes × Bytes) → (s.0 ++ [], s.1 ++ []) ≡ s
nothing_more (t, s) = rw (append-nil t, append-nil s) refl

-- Both at once.
abbrev stored_view : ℕ → View
stored_view file_fd = record {
  State = Bytes × Bytes;
  start = ([], []);
  after = λ c a s. (s.0 ++ took_from c a, s.1 ++ put_to file_fd c a);
  write_n = λ fd bs a s. nothing_more s;
  readline = λ fd a s. nothing_more s;
  shutdown = λ fd a s. nothing_more s;
  read_timeout = λ fd k a s. nothing_more s;
  write_timeout = λ fd k a s. nothing_more s;
  limit_speed = λ k up a s. nothing_more s;
}

viewed-is :
    (file_fd : ℕ) (log : List Event)
    → viewed (stored_view file_fd) log ≡ (taken log, stored file_fd log)
unfolding viewed taken stored
viewed-is file_fd [] = refl
viewed-is file_fd (e ∷ log) = rw (viewed-is file_fd log) refl

module _ (file_fd : ℕ) where
  -- At least `k` events, and these bytes.
  pub record At (k : ℕ) (t s : Bytes) (m : Machine) : Type 0 where
    pub events : k ≤ length m.log
    pub took : taken m.log ≡ t
    pub put : stored file_fd m.log ≡ s

  pub record Steady {A : Type 0} (p : Proc A) : Type 0 where
    pub at : (k : ℕ) (t s : Bytes) → Gives {X = Env} Anything (At k t s) p (λ _. At k t s)

  to_view :
      (k : ℕ) (t s : Bytes) (m : Machine) → At k t s m → View.At (stored_view file_fd) k (t, s) m
  to_view k t s m h = record {
    events = h.events;
    shown = viewed-is file_fd m.log ∙ rw (h.took, h.put) refl;
  }

  of_view :
      (k : ℕ) (t s : Bytes) (m : Machine) → View.At (stored_view file_fd) k (t, s) m → At k t s m
  of_view k t s m h =
      let e = sym (viewed-is file_fd m.log) ∙ h.shown in
      record { events = h.events; took = ap (λ x. x.0) e; put = ap (λ x. x.1) e }

  -- What the view does not show.
  unseen : {A : Type 0} (p : Proc A) → View.Steady (stored_view file_fd) p → Steady p
  unseen p k = record {
    at = λ n t s. Gives-from (to_view n t s) (Gives-into (λ _. of_view n t s) (k.at n (t, s)));
  }

  pub limit_speed-Steady : (n : ℕ) (up : Bool) → Steady (call (Call.limit_speed n up))
  limit_speed-Steady n up = unseen _ (View.limit_speed-Steady (stored_view file_fd) n up)

  pub get_session-Steady : Steady get_session
  get_session-Steady = unseen _ (View.get_session-Steady (stored_view file_fd))

  pub deliver-Steady : (a : Answer) → Steady (deliver a)
  deliver-Steady a = unseen _ (View.deliver-Steady (stored_view file_fd) a)

  pub await_data-Steady : Steady (await_data Call.read_timeout)
  await_data-Steady = unseen _ (View.await_read-Steady (stored_view file_fd))
