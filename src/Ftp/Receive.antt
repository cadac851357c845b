-- ===== src/Ftp/Receive.antt =====
-- The loop of STOR and APPE in ftp_protocol.cpp, against the bytes read and written.
use mini_ftpd.Prelude.{
  ℕ, zero, suc, ◌+◌, ◌<◌, ◌≡◌, refl, sym, ap, ◌∙◌, arith, Option, none, some, [], ◌++◌,
}
use mathlib.Core.List.{append-nil, append_assoc}
use mini_ftpd.Text.Bytes.{Bytes}
use mini_ftpd.Program.Settles.{Comes, Comes-bind, Comes-into}
use mini_ftpd.Ftp.Proc.{Env, Machine, pure, case_option}
use mini_ftpd.Ftp.Upload.{
  Ending, complete, network_failure, file_failure, receive_piece, receive_loop,
}
use mini_ftpd.Ftp.Stored.{taken, stored, At}
use mini_ftpd.Ftp.Integrity.{StopsBy, Round, Behind, receive_piece-Behind}

module _ (file_fd : ℕ) where
  -- Of what was read behind `t`, all is stored behind `s`, or all but a last piece on which the file
  -- has failed.
  abbrev pub Whole : Bytes → Bytes → Ending → Machine → Type 0
  Whole t s file_failure m =
      (d : Bytes) × (last : Bytes) × (taken m.log ≡ t ++ (d ++ last))
      × (stored file_fd m.log ≡ s ++ d)
  Whole t s _ m = (d : Bytes) × (taken m.log ≡ t ++ d) × (stored file_fd m.log ≡ s ++ d)

  Whole-of :
      (k : ℕ) (t s : Bytes) (e : Ending) (m : Machine)
      → Round file_fd k t s (some e) m
      → Whole t s e m
  Whole-of k t s complete m (d, h) = (d, h.took, h.put)
  Whole-of k t s network_failure m (d, h) = (d, h.took, h.put)
  Whole-of k t s file_failure m (d, h) = ([], d, h.took, h.put ∙ sym (append-nil s))

  -- A piece in front.
  longer : (t s d : Bytes) (e : Ending) (m : Machine) → Whole (t ++ d) (s ++ d) e m → Whole t s e m
  longer t s d complete m (x, took, put) =
      (d ++ x, took ∙ append_assoc t d x, put ∙ append_assoc s d x)
  longer t s d network_failure m (x, took, put) =
      (d ++ x, took ∙ append_assoc t d x, put ∙ append_assoc s d x)
  longer t s d file_failure m (x, last, took, put) = (
    d ++ x,
    last,
    took ∙ append_assoc t d (x ++ last) ∙ ap (λ y. t ++ y) (sym (append_assoc d x last)),
    put ∙ append_assoc s d x,
  )

  Comes-longer :
      (t s d : Bytes) (f : ℕ) (env : Env) (m : Machine)
      → Comes (Whole (t ++ d) (s ++ d)) (receive_loop f file_fd env m)
      → Comes (Whole t s) (receive_loop f file_fd env m)
  Comes-longer t s d f env m h =
      Comes-into (Whole (t ++ d) (s ++ d)) (Whole t s) (receive_loop f file_fd env m).0
        (receive_loop f file_fd env m).1 (longer t s d) h

  module _ (n : ℕ) (env : Env) (stops : StopsBy n env) where
    abbrev Runs : ℕ → Type 0
    Runs f =
        (k : ℕ) (t s : Bytes) (m : Machine)
        → 0 < f
        → n < f + k
        → At file_fd k t s m
        → Comes (Whole t s) (receive_loop f file_fd env m)

    next_round :
        (f k : ℕ) (t s : Bytes) (r : Option Ending) (m : Machine)
        → Runs f
        → n < suc f + k
        → Behind file_fd n env stops k t s r m
        → Comes (Whole t s) (case_option r (receive_loop f file_fd) pure env m)
    unfolding case_option pure
    next_round f k t s (some e) m ih l (h, late) = Whole-of k t s e m h
    next_round zero k t s none m ih l (h, late) = absurd (late (omega (arith, l)) refl)
    next_round (suc f) k t s none m ih l ((d, h), late) =
        Comes-longer t s d (suc f) env m
          (ih (suc k) (t ++ d) (s ++ d) m (omega arith) (omega (arith, l)) h)

    receive_loop-Runs : (f : ℕ) → Runs f
    unfolding receive_loop
    receive_loop-Runs zero k t s m some_left l h = elim some_left [ ]
    receive_loop-Runs (suc f) k t s m some_left l h =
        Comes-bind (Behind file_fd n env stops k t s) (Whole t s) (receive_piece file_fd) _ env m
          (receive_piece-Behind file_fd n env stops k t s m h)
          λ r m' behind. next_round f k t s r m' (receive_loop-Runs f) l behind

-- Where the client sends no more once the log has `n` events, the loop of an upload ends within its
-- rounds, which are more than `n`, or by `exit`, whatever else happens. Where it ends with 226 or
-- 426, the file has been given, behind what it had, exactly the bytes that the reads have brought,
-- in their order; where it ends with 451, all of them but a last piece, which has not been written
-- whole.
pub receive_loop-Whole :
    (n rounds file_fd : ℕ) (env : Env) (m : Machine)
    → StopsBy n env
    → n < rounds
    → Comes (Whole file_fd (taken m.log) (stored file_fd m.log)) (receive_loop rounds file_fd env m)
receive_loop-Whole n rounds file_fd env m stops enough =
    receive_loop-Runs file_fd n env stops rounds 0 (taken m.log) (stored file_fd m.log) m
      (omega arith) (omega arith) record { events = omega arith; took = refl; put = refl }
