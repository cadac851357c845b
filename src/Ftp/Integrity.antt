-- ===== src/Ftp/Integrity.antt =====
-- One piece of an upload.
use mini_ftpd.Prelude.{
  ==_self, ℕ, suc, ◌≤◌, ◌≡◌, ◌≢◌, refl, sym, ap, ◌∙◌, arith, true, false, ◌&&◌, Option, none, some,
  List, [], ◌∷◌, ◌++◌, length, ◌==◌, if◌then◌else◌, Bool-cases, inl, inr,
}
use mathlib.Core.List.{append-nil}
use mini_ftpd.Text.Bytes.{Bytes}
use mini_ftpd.Program.Settles.{Comes, Comes-bind, Comes-if, settled-Comes}
use mini_ftpd.Ftp.Proc.{Fd, Call, Answer, Event, Env, Machine, pure, call, get_session}
use mini_ftpd.Ftp.Triple.{
  Gives, Gives-pure, Gives-if, Gives-bind, Gives-from, Gives-into, Gives-call, Anything,
}
use mini_ftpd.Ftp.Transfer.{deliver, await_data}
use mini_ftpd.Ftp.Upload.{
  Ending, complete, network_failure, file_failure, store_piece, receive_piece,
}
use mini_ftpd.Ftp.Ends.{
  get_session-Settles, deliver-Settles, await_data-Settles, store_piece-Settles,
}
use mini_ftpd.Ftp.Stored.{
  taken, stored, At, limit_speed-Steady, get_session-Steady, deliver-Steady, await_data-Steady,
}

-- The client sends no more once the log has `n` events: a read then gives 0 bytes.
abbrev pub StopsBy : ℕ → Env → Type 0
StopsBy n env =
    (log : List Event) (fd : Fd)
    → n ≤ length log
    → ((env log (Call.read_data fd)).ok ≡ true) × ((env log (Call.read_data fd)).text ≡ [])

module _ (file_fd : ℕ) where
  -- Behind a piece that has been read: it is stored, or the file has failed.
  abbrev Placed : ℕ → Bytes → Bytes → Bytes → Option Ending → Machine → Type 0
  Placed k t s piece (some file_failure) m = At file_fd k t s m
  Placed k t s piece _ m = At file_fd k t (s ++ piece) m

  write_file-Gives :
      (k : ℕ) (t s piece : Bytes)
      → Gives {X = Env} Anything
          (At file_fd k t s)
          (call (Call.write_file file_fd piece))
          (λ a. At file_fd k t (s ++ (if a.ok && a.value == length piece then piece else [])))
  unfolding taken stored
  write_file-Gives k t s piece =
      Gives-call
        {R = λ a. At file_fd k t (s ++ (if a.ok && a.value == length piece then piece else []))} _
        (λ m a h. record {
          events = omega (arith, h.events);
          took = append-nil (taken m.log) ∙ h.took;
          put =
              rw (==_self file_fd)
                (ap (λ x. x ++ (if a.ok && a.value == length piece then piece else [])) h.put);
        })

  store_piece-Placed :
      (k : ℕ) (t s piece : Bytes)
      → Gives {X = Env} Anything (At file_fd k t s) (store_piece file_fd piece) (Placed k t s piece)
  unfolding store_piece
  store_piece-Placed k t s piece = Gives-bind (call _) _ (write_file-Gives k t s piece) λ w.
      Gives-if (w.ok && w.value == length piece) _ _
        (λ all.
          Gives-from {P = At file_fd k t (s ++ piece)}
            (λ m h. record { events = h.events; took = h.took; put = h.put ∙ rw all refl })
            (Gives-bind _ _ ((limit_speed-Steady file_fd _ true).at k t (s ++ piece)) λ _.
              Gives-bind _ _ ((get_session-Steady file_fd).at k t (s ++ piece)) λ x.
                Gives-pure _ (λ m h. elim (Bool-cases x.received_abor) [
                  | inl on ↦ rw on h
                  | inr off ↦ rw off h
                ])))
        (λ few.
          Gives-pure (some file_failure) (λ m h. record {
            events = h.events;
            took = h.took;
            put = h.put ∙ rw few (append-nil s);
          }))

  -- Behind one round, which has taken a piece `d` off the connection.
  abbrev pub Round : ℕ → Bytes → Bytes → Option Ending → Machine → Type 0
  Round k t s none m = (d : Bytes) × At file_fd (suc k) (t ++ d) (s ++ d) m
  Round k t s (some file_failure) m = (d : Bytes) × At file_fd (suc k) (t ++ d) s m
  Round k t s (some _) m = (d : Bytes) × At file_fd (suc k) (t ++ d) (s ++ d) m

  Placed-Round :
      (k : ℕ) (t s d : Bytes) (r : Option Ending) (m : Machine)
      → Placed (suc k) (t ++ d) s d r m
      → Round k t s r m
  Placed-Round k t s d none m h = (d, h)
  Placed-Round k t s d (some complete) m h = (d, h)
  Placed-Round k t s d (some network_failure) m h = (d, h)
  Placed-Round k t s d (some file_failure) m h = (d, h)

  module _ (n : ℕ) (env : Env) (stops : StopsBy n env) where
    -- The round ends the loop where the client has stopped.
    abbrev pub Behind : ℕ → Bytes → Bytes → Option Ending → Machine → Type 0
    Behind k t s r m = Round k t s r m × (n ≤ k → r ≢ none)

    -- Behind the read.
    abbrev Read : ℕ → Bytes → Bytes → Answer → Machine → Type 0
    Read k t s a m =
        At file_fd (suc k) (t ++ (if a.ok then a.text else [])) s m
        × (n ≤ k → (a.ok ≡ true) × (a.text ≡ []))

    Read-Comes :
        (k : ℕ) (t s : Bytes) (fd : Fd) (m : Machine)
        → At file_fd k t s m
        → Comes (Read k t s) (call (Call.read_data fd) env m)
    unfolding call taken stored
    Read-Comes k t s fd m h = (
      record {
        events = omega (arith, h.events);
        took = rw (h.took) refl;
        put = append-nil (stored file_fd m.log) ∙ h.put;
      },
      λ late. stops m.log fd (omega (arith, late, h.events)),
    )

    abbrev bytes : Answer → Bytes
    bytes a = if a.ok then a.text else []

    nothing_taken :
        (k : ℕ) (t s bs : Bytes) (m : Machine)
        → bs ≡ []
        → At file_fd k (t ++ bs) s m
        → At file_fd k (t ++ []) (s ++ []) m
    nothing_taken k t s bs m e h = record {
      events = h.events;
      took = h.took ∙ ap (λ x. t ++ x) e;
      put = h.put ∙ sym (append-nil s);
    }

    no_length : (bs : Bytes) → (length bs == 0) ≡ true → bs ≡ []
    no_length [] e = refl
    no_length (b ∷ bs) e = absurd (ground arith)

    store_read :
        (k : ℕ) (t s : Bytes) (a : Answer) (m : Machine)
        → a.ok ≡ true
        → (length a.text == 0) ≡ false
        → At file_fd (suc k) (t ++ bytes a) s m
        → (n ≤ k → (a.ok ≡ true) × (a.text ≡ []))
        → Comes (Behind k t s) (store_piece file_fd a.text env m)
    store_read k t s a m ok some_bytes h late =
        settled-Comes {R = Behind k t s} (store_piece-Settles file_fd a.text)
          (Gives-into
            (λ r m' placed. (
              Placed-Round k t s a.text r m' placed,
              λ l e.
                  let none_left = (late l).1 in
                  let empty : (length a.text == 0) ≡ true = rw none_left refl in
                  cc (empty, some_bytes),
            ))
            (store_piece-Placed (suc k) (t ++ a.text) s a.text))
          m record { events = h.events; took = h.took ∙ rw ok refl; put = h.put }

    after_read :
        (k : ℕ) (t s : Bytes) (a : Answer) (m : Machine)
        → At file_fd (suc k) (t ++ bytes a) s m
        → (n ≤ k → (a.ok ≡ true) × (a.text ≡ []))
        → Comes (Behind k t s) (
            (if a.ok
                then (if length a.text == 0
                    then pure (some complete)
                    else store_piece file_fd a.text)
                else pure (if a.retry then none else some network_failure))
              env m)
    unfolding pure
    after_read k t s a m h late =
        Comes-if (Behind k t s) a.ok _ _ env m
          (λ ok.
            Comes-if (Behind k t s) (length a.text == 0) _ _ env m
              (λ empty. (
                ([], nothing_taken (suc k) t s (bytes a) m (rw ok (no_length a.text empty)) h),
                λ _ e. cc e,
              ))
              (λ some_bytes. store_read k t s a m ok some_bytes h late))
          (λ bad.
            let same = nothing_taken (suc k) t s (bytes a) m (rw bad refl) h in
            elim (Bool-cases a.retry) [
              | inl again ↦ rw again (([], same), λ l e. cc (bad, (late l).0))
              | inr over ↦ rw over (([], same), λ _ e. cc e)
            ])

    pub receive_piece-Behind :
        (k : ℕ) (t s : Bytes) (m : Machine)
        → At file_fd k t s m
        → Comes (Behind k t s) (receive_piece file_fd env m)
    unfolding receive_piece
    receive_piece-Behind k t s m h =
        let R = Behind k t s in
        Comes-bind (λ _. At file_fd k t s) R (await_data Call.read_timeout) _ env m
          (settled-Comes (await_data-Settles Call.read_timeout)
            ((await_data-Steady file_fd).at k t s) m h)
          λ _ m1 h1.
            Comes-bind (λ _. At file_fd k t s) R get_session _ env m1
              (settled-Comes get_session-Settles ((get_session-Steady file_fd).at k t s) m1 h1)
              λ x m2 h2.
                Comes-bind (Read k t s) R (call (Call.read_data x.data_fd)) _ env m2
                  (Read-Comes k t s x.data_fd m2 h2)
                  λ a m3 h3.
                    Comes-bind (λ _. At file_fd (suc k) (t ++ bytes a) s) R (deliver a) _ env m3
                      (settled-Comes (deliver-Settles a)
                        ((deliver-Steady file_fd a).at (suc k) (t ++ bytes a) s) m3 h3.0)
                      λ _ m4 h4. after_read k t s a m4 h4 h3.1
