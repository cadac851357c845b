-- ===== src/Ftp/Contents.antt =====
-- The loop of an upload and what comes before it, by what they leave in the file.
use mini_ftpd.Prelude.{
  ==_self, ℕ, zero, suc, ◌≡◌, refl, ap, arith, Bool, true, false, ◌&&◌, some, [], ◌∷◌, ◌++◌, length,
  ◌==◌, if◌then◌else◌,
}
use mini_ftpd.Prelude.Int.{ℤ, pos}
use mini_ftpd.Text.Bytes.{Bytes}
use mini_ftpd.Ftp.Proc.{Call, Answer, Env, Machine, Proc, call}
use mini_ftpd.Ftp.Triple.{
  Gives, Gives-pure, Gives-if, Gives-bind, Gives-from, Gives-into, Gives-unfinished,
  Gives-case_option, Anything,
}
use mini_ftpd.Ftp.View
use mini_ftpd.Ftp.View.{viewed}
use mini_ftpd.Ftp.Transfer.{is_zero}
use mini_ftpd.Ftp.Upload.{
  complete, file_failure, store_piece, receive_piece, receive_loop, position,
}
use mini_ftpd.Ftp.Disk.{Upload, upload_after, upload_view, upload_of}
use mini_ftpd.Ftp.Disk.Steps.{
  Behind, nothing-Behind, Behind-Behind, Wants, write_file-Behind, Starts, first_content,
  first_offset, or_failed-Starts, lseek-Starts, emptied-Starts,
}

module _ (file_fd : ℕ) (old : Bytes) where
  abbrev pub view : View.View
  view = upload_view file_fd old

  abbrev pub Shows : Upload → Machine → Type 0
  Shows u m = upload_of file_fd old m.log ≡ u

  abbrev pub Steady : {A : Type 0} → Proc A → Type 0
  Steady p = (u : Upload) → Gives {X = Env} Anything (Shows u) p (λ _. Shows u)

  pub seen : {A : Type 0} (p : Proc A) → View.Steady view p → Steady p
  seen p k u =
      Gives-from (λ m h. record { events = omega arith; shown = h })
        (Gives-into (λ _ m h. h.shown) (k.at 0 u))

  pub call-Shows :
      (c : Call) (u : Upload)
      → Gives {X = Env} Anything (Shows u) (call c) (λ a. Shows (upload_after file_fd c a u))
  call-Shows c u =
      Gives-from (λ m h. record { events = omega arith; shown = h })
        (Gives-into (λ a m h. h.shown) (View.call-At view c 0 u))

  abbrev pub Wrote : {A : Type 0} → Upload → A → Machine → Type 0
  Wrote u _ m = (d : Bytes) × Behind u d (upload_of file_fd old m.log)

  write_file-Gives :
      (u v : Upload) (d : Bytes)
      → Wants u d v
      → Gives {X = Env} Anything (Shows v) (call (Call.write_file file_fd d)) (λ a. Wrote u a)
  write_file-Gives u v d w =
      Gives-into (λ a m h. (d, rw h (write_file-Behind file_fd u v d a w)))
        (call-Shows (Call.write_file file_fd d) v)

  -- One part behind another.
  after-Wrote :
      {A : Type 0} (p : Proc A)
      → ((v : Upload) → Gives {X = Env} Anything (Shows v) p (Wrote v))
      → (u : Upload) → Gives {X = Env} Anything (Wrote u tt) p (Wrote u)
  after-Wrote p k u = record {
    at = λ env m (d, b).
        let v = upload_of file_fd old m.log in
        (Gives-into {S = Wrote u}
            (λ a n (e, c). (d ++ e, Behind-Behind u v (upload_of file_fd old n.log) d e b c))
            (k v)).at
          env m refl;
  }

  pub unseen-Wrote :
      {A : Type 0} (p : Proc A)
      → Steady p
      → (u : Upload) → Gives {X = Env} Anything (Wrote u tt) p (Wrote u)
  unseen-Wrote p k u =
      after-Wrote p (λ v. Gives-into (λ a m h. ([], rw h (nothing-Behind v))) (k v)) u

  store_piece-Gives :
      (u v : Upload) (d : Bytes)
      → Wants u d v
      → Gives {X = Env} Anything (Shows v) (store_piece file_fd d) (Wrote u)
  unfolding store_piece
  store_piece-Gives u v d w = Gives-bind (call _) _ (write_file-Gives u v d w) λ a.
      Gives-if (a.ok && a.value == length d) _ _
        (λ _. Gives-bind _ _ (unseen-Wrote _ (seen _ (View.limit_speed-Steady view _ true)) u) λ _.
          Gives-bind _ _ (unseen-Wrote _ (seen _ (View.get_session-Steady view)) u)
            λ x. Gives-pure _ (λ m h. h))
        (λ _. Gives-pure (some file_failure) (λ m h. h))

  no_bytes : (bs : Bytes) → (length bs == 0) ≡ true → bs ≡ []
  no_bytes [] e = refl
  no_bytes (b ∷ bs) e = absurd (ground arith)

  abbrev brought : Answer → Bytes
  brought a = if a.ok then a.text else []

  after_read : Upload → Answer → Upload
  after_read u a = record u { got = u.got ++ brought a }

  nothing_brought :
      (u : Upload) (a : Answer) (m : Machine)
      → brought a ≡ []
      → Shows (after_read u a) m
      → Wrote u tt m
  unfolding after_read
  nothing_brought u a m empty h =
      ([], rw h (ap (λ g. u.got ++ g) empty, λ fine. (fine, refl, omega arith)))

  receive_piece-Gives :
      (u : Upload) → Gives {X = Env} Anything (Shows u) (receive_piece file_fd) (Wrote u)
  unfolding receive_piece after_read
  receive_piece-Gives u = Gives-bind _ _ (seen _ (View.await_read-Steady view) u) λ _.
      Gives-bind _ _ (seen _ (View.get_session-Steady view) u) λ x.
        Gives-bind (call _) _ (call-Shows (Call.read_data x.data_fd) u) λ a.
          Gives-bind _ _ (seen _ (View.deliver-Steady view a) (after_read u a)) λ _.
            Gives-if a.ok _ _
              (λ ok.
                Gives-if (length a.text == 0) _ _
                  (λ empty.
                    Gives-pure (some complete)
                      (λ m h. nothing_brought u a m (rw ok (no_bytes a.text empty)) h))
                  (λ _.
                    store_piece-Gives u (after_read u a) a.text (rw ok (refl, refl, refl, refl))))
              (λ bad. Gives-pure _ (λ m h. nothing_brought u a m (rw bad refl) h))

  pub receive_loop-Gives :
      (f : ℕ) (u : Upload)
      → Gives {X = Env} Anything (Wrote u tt) (receive_loop f file_fd) (Wrote u)
  unfolding receive_loop
  receive_loop-Gives zero u = Gives-unfinished (λ _ _. tt)
  receive_loop-Gives (suc f) u =
      Gives-bind _ _ (after-Wrote _ receive_piece-Gives u)
        λ e. Gives-case_option e _ _ (receive_loop-Gives f u) (λ x. Gives-pure x (λ m h. h))

  abbrev pub Begins : Upload → Bool → ℤ → Machine → Type 0
  Begins u append_mode p m =
      Starts u (first_content append_mode p u.content) (first_offset append_mode p u.content)
        (upload_of file_fd old m.log)

  pub position-Gives :
      (append_mode : Bool) (p : ℤ) (u : Upload)
      → Gives {X = Env} Anything
          (Shows u)
          (position append_mode file_fd p)
          (λ _. Begins u append_mode p)
  unfolding position
  position-Gives true p u = Gives-bind (call _) _ (call-Shows (Call.lseek_end file_fd) u) λ a.
      Gives-pure a.ok (λ m h.
        rw (h, ==_self file_fd)
          (or_failed-Starts u u u.content (length u.content) a.ok refl (λ fine. fine)))
  position-Gives false p u =
      Gives-if (is_zero p) _ _
        (λ first. Gives-bind (call _) _ (call-Shows (Call.ftruncate file_fd) u) λ t.
          Gives-bind (call _) _ (call-Shows (Call.lseek file_fd (pos 0)) _)
            λ a. Gives-pure _ (λ m h. rw (h, first) (emptied-Starts file_fd t a u)))
        (λ other.
          Gives-bind (call _) _ (call-Shows (Call.lseek file_fd p) u)
            λ a. Gives-pure a.ok (λ m h. rw (h, other) (lseek-Starts file_fd p a u)))
