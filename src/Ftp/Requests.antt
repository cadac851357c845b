-- ===== src/Ftp/Requests.antt =====
-- The bytes of a download: what the loop of RETR asks `sendfile` for.
use Prim.Native.Nat.{min}
use mini_ftpd.Prelude.{
  ℕ, zero, suc, ◌+◌, ◌-◌, ◌≤◌, ◌≡◌, refl, ap, ◌∙◌, arith, Bool, true, false, List, [], ◌∷◌, ◌++◌, ⊤,
  ◌==◌,
}
use mini_ftpd.Program.Settles.{Comes, settled-Comes}
use mini_ftpd.Ftp.Proc.{Call, Answer, Event, Env, Machine, pure, call}
use mini_ftpd.Ftp.Triple.{
  Gives, Gives-pure, Gives-unfinished, Gives-if, Gives-bind, Gives-from, Gives-into, Anything,
}
use mini_ftpd.Ftp.Transfer.{send_piece, send_loop}
use mini_ftpd.Ftp.Ends.{send_loop-Settles}
use mini_ftpd.Ftp.View.{
  View, viewed, At, call-At, get_session-Steady, limit_speed-Steady, deliver-Steady,
  await_write-Steady,
}

-- A call of `sendfile`: the file that it sends, the bytes that it is asked for, and whether it has
-- given no error.
pub record Request : Type 0 where
  pub file_fd : ℕ
  pub size : ℕ
  pub ok : Bool

abbrev pub requested : Call → Answer → List Request → List Request
requested (Call.sendfile fd from n) a rs = record { file_fd = from; size = n; ok = a.ok } ∷ rs
requested c a rs = rs

abbrev pub requests_view : View
requests_view = record {
  State = List Request;
  start = [];
  after = requested;
  write_n = λ fd bs a s. refl;
  readline = λ fd a s. refl;
  shutdown = λ fd a s. refl;
  read_timeout = λ fd k a s. refl;
  write_timeout = λ fd k a s. refl;
  limit_speed = λ k up a s. refl;
}

-- All calls of `sendfile`, the latest first.
abbrev pub requests : List Event → List Request
requests = viewed requests_view

-- Each is for `file_fd`, for at most 64 KiB, and has given no error.
abbrev pub AreFine : ℕ → List Request → Type 0
AreFine file_fd [] = ⊤
AreFine file_fd (r ∷ rs) =
    (r.file_fd ≡ file_fd) × (r.size ≤ 65536) × (r.ok ≡ true) × AreFine file_fd rs

abbrev pub total : List Request → ℕ
total [] = 0
total (r ∷ rs) = r.size + total rs

abbrev fine : ℕ → ℕ → Request
fine file_fd piece = record { file_fd = file_fd; size = piece; ok = true }

AreFine-snoc :
    (file_fd piece : ℕ) (rs : List Request)
    → piece ≤ 65536
    → AreFine file_fd rs
    → AreFine file_fd (rs ++ fine file_fd piece ∷ [])
AreFine-snoc file_fd piece [] small h = (refl, small, refl, tt)
AreFine-snoc file_fd piece (r ∷ rs) small (from, fits, ok, h) =
    (from, fits, ok, AreFine-snoc file_fd piece rs small h)

total-snoc :
    (file_fd piece : ℕ) (rs : List Request)
    → total (rs ++ fine file_fd piece ∷ []) ≡ total rs + piece
total-snoc file_fd piece [] = omega arith
total-snoc file_fd piece (r ∷ rs) = omega (arith, total-snoc file_fd piece rs)

snoc_under : (r : Request) (rs ss : List Request) → rs ++ (r ∷ ss) ≡ (rs ++ r ∷ []) ++ ss
snoc_under r [] ss = refl
snoc_under r (x ∷ rs) ss = ap (λ t. x ∷ t) (snoc_under r rs ss)

-- What is new since `start`: requests that are all in order, for `n` bytes together.
abbrev pub Sends : ℕ → ℕ → List Request → List Request → Type 0
Sends file_fd n start end =
    (new : List Request) × (end ≡ new ++ start) × AreFine file_fd new × (total new ≡ n)

module _ (file_fd : ℕ) where
  abbrev Requested : List Request → Machine → Type 0
  Requested = At requests_view 0

  -- Unless the loop has failed.
  abbrev Unless : ℕ → List Request → Bool → Machine → Type 0
  Unless n start failed m = failed ≡ false → Sends file_fd n start (requests m.log)

  send_piece-Unless :
      (start : List Request) (piece : ℕ)
      → Gives {X = Env} Anything
          (Requested start)
          (send_piece file_fd piece)
          (λ failed m. failed ≡ false → Requested (fine file_fd piece ∷ start) m)
  unfolding send_piece
  send_piece-Unless start piece =
      let v = requests_view in
      Gives-bind _ _ ((await_write-Steady v).at 0 start) λ _.
        Gives-bind _ _ ((get_session-Steady v).at 0 start) λ s.
          Gives-bind (call _) _ (call-At v (Call.sendfile s.data_fd file_fd piece) 0 start) λ a.
            Gives-bind _ _ ((deliver-Steady v a).at 1 _) λ _.
              Gives-if a.ok _ _
                (λ ok.
                  Gives-from {P = Requested (fine file_fd piece ∷ start)}
                    (λ m h. record { events = omega arith; shown = h.shown ∙ rw ok refl })
                    (Gives-bind _ _ ((limit_speed-Steady v a.value false).at 0 _) λ _.
                      Gives-bind _ _ ((get_session-Steady v).at 0 _)
                        λ x. Gives-pure _ (λ m h _. h)))
                (λ _. Gives-pure true (λ m h e. cc e))

  Sends-piece :
      (start end : List Request) (piece left : ℕ)
      → piece ≤ 65536
      → piece ≤ left
      → Sends file_fd (left - piece) (fine file_fd piece ∷ start) end
      → Sends file_fd left start end
  Sends-piece start end piece left small part (new, e, h, sum) = (
    new ++ fine file_fd piece ∷ [],
    e ∙ snoc_under (fine file_fd piece) new start,
    AreFine-snoc file_fd piece new small h,
    omega (arith, total-snoc file_fd piece new, sum, part),
  )

  send_loop-Unless :
      (f : ℕ) (start : List Request) (left : ℕ)
      → Gives {X = Env} Anything (Requested start) (send_loop f file_fd left) (Unless left start)
  unfolding send_loop
  send_loop-Unless zero start left = Gives-unfinished (λ _ _. tt)
  send_loop-Unless (suc f) start left =
      let piece = min left 65536 in
      Gives-if (left == 0) _ _
        (λ nothing.
          Gives-pure false
            (λ m h _. let none_left : 0 ≡ left = ground arith in ([], h.shown, tt, none_left)))
        (λ _. Gives-bind (send_piece file_fd piece) _ (send_piece-Unless start piece) λ failed.
          Gives-if failed (pure true) _ (λ _. Gives-pure true (λ m h e. cc e))
            (λ good.
              Gives-from {P = Requested (fine file_fd piece ∷ start)} (λ m h. h good)
                (Gives-into
                  (λ r m h e.
                    Sends-piece start (requests m.log) piece left (omega arith) (omega arith) (h e))
                  (send_loop-Unless f (fine file_fd piece ∷ start) (left - piece)))))

-- The loop of RETR, with one round more than the bytes to send, comes to an end. Where it says that
-- nothing has failed, the calls of `sendfile` that it has made are all for the file, for at most
-- 64 KiB each and for exactly the bytes to send together, and none has given an error.
pub send_loop-Sends :
    (file_fd left : ℕ) (env : Env) (m : Machine)
    → Comes
        (λ failed m'. failed ≡ false → Sends file_fd left (requests m.log) (requests m'.log))
        (send_loop (left + 1) file_fd left env m)
send_loop-Sends file_fd left env m =
    settled-Comes (send_loop-Settles (left + 1) file_fd left (omega arith))
      (send_loop-Unless file_fd (left + 1) (requests m.log) left) m
      record { events = omega arith; shown = refl }
