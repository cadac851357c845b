-- ===== src/Ftp/Leaves.antt =====
-- What STOR and APPE leave in the file.
use mini_ftpd.Prelude.{
  ℕ, ◌<◌, ◌≡◌, refl, ◌∙◌, Bool, true, false, [], ◌++◌, if◌then◌else◌, Bool-cases, inl, inr,
}
use mini_ftpd.Prelude.Int.{ℤ, pos}
use mini_ftpd.Text.Bytes.{Bytes, codes}
use mini_ftpd.Ftp.Proc.{Env, Machine, Proc, ◌>>=◌, call, get_session, put_session, reply_buffer}
use mini_ftpd.Ftp.Triple.{Gives, Gives-if, Gives-bind, Gives-from, Gives-into, Anything}
use mini_ftpd.Ftp.View
use mini_ftpd.Ftp.View.{viewed}
use mini_ftpd.Ftp.Transfer.{fail_with, answer_abor, is_zero}
use mini_ftpd.Ftp.Upload.{receive_loop, position, receive_file, store_from}
use mini_ftpd.Program.Settles.{Comes, Settles, settled-Comes, Comes-settled}
use mini_ftpd.Ftp.Integrity.{StopsBy}
use mini_ftpd.Ftp.Receive.{receive_loop-Whole}
use mini_ftpd.Ftp.Ends.{ends_rules, reply-Settles}
use mini_ftpd.Ftp.Disk.{overwrite, Upload, upload_of, overwrite_empty, overwrite_end}
use mini_ftpd.Ftp.Data.{reset_data_fd}
use mini_ftpd.Ftp.Contents.{
  view, Shows, Wrote, Begins, seen, position-Gives, unseen-Wrote, receive_loop-Gives,
}
use mini_ftpd.Ftp.Disk.Steps.{Behind, nothing-Behind, Starts, first_content, first_offset, nat_of}

-- What an upload of `d` makes of the content `c`: APPE adds it, STOR replaces all, or what lies
-- behind the restart position.
abbrev pub uploaded : Bool → ℤ → Bytes → Bytes → Bytes
uploaded append_mode p c d =
    if append_mode then c ++ d else (if is_zero p then d else overwrite (nat_of p) d c)

uploaded-overwrite :
    (append_mode : Bool) (p : ℤ) (c d : Bytes)
    → overwrite (first_offset append_mode p c) d (first_content append_mode p c)
      ≡ uploaded append_mode p c d
uploaded-overwrite true p c d = overwrite_end c d
uploaded-overwrite false p c d = elim (Bool-cases (is_zero p)) [
  | inl first ↦ rw first (overwrite_empty d)
  | inr other ↦ rw other refl
]

-- The bytes `d` that were read stand in the file.
abbrev pub Filled : Upload → Bool → ℤ → Upload → Type 0
Filled u append_mode p v =
    (d : Bytes) × (v.got ≡ u.got ++ d)
    × (v.failed ≡ false → v.content ≡ uploaded append_mode p u.content d)

Filled-of :
    (u v w : Upload) (append_mode : Bool) (p : ℤ) (d : Bytes)
    → Starts u (first_content append_mode p u.content) (first_offset append_mode p u.content) v
    → Behind v d w
    → Filled u append_mode p w
Filled-of u v w append_mode p d (got, start) (got', put) = (
  d,
  rw (← got) got',
  λ fine.
      let (fine', content', offset') = put fine in
      let (_, content, offset) = start fine' in
      content' ∙ rw (content, offset) (uploaded-overwrite append_mode p u.content d),
)

module _ (file_fd : ℕ) (old : Bytes) where
  abbrev pub Fills : {A : Type 0} → Upload → Bool → ℤ → A → Machine → Type 0
  Fills u append_mode p _ m = Filled u append_mode p (upload_of file_fd old m.log)

  -- A part that begins where the file is placed.
  after-Begins :
      {A : Type 0} (q : Proc A) (u : Upload) (append_mode : Bool) (p : ℤ)
      → ((v : Upload) → Gives {X = Env} Anything (Shows file_fd old v) q (Wrote file_fd old v))
      → Gives {X = Env} Anything (Begins file_fd old u append_mode p) q (Fills u append_mode p)
  after-Begins q u append_mode p k = record {
    at = λ env m b.
        let v = upload_of file_fd old m.log in
        (Gives-into {S = Fills u append_mode p}
            (λ a n (d, c). Filled-of u v (upload_of file_fd old n.log) append_mode p d b c)
            (k v)).at
          env m refl;
  }

  reset_data_fd-Steady : View.Steady (view file_fd old) reset_data_fd
  unfolding reset_data_fd
  reset_data_fd-Steady = search (View.steady_rules, View.neutral-Steady) depth 20

  fail_with-Steady : (text : Bytes) → View.Steady (view file_fd old) (fail_with text file_fd)
  unfolding fail_with
  fail_with-Steady text =
      search (View.steady_rules, View.neutral-Steady, View.reply-Steady, reset_data_fd-Steady) depth
        20

  answer_abor-Steady : View.Steady (view file_fd old) answer_abor
  unfolding answer_abor
  answer_abor-Steady = search (View.steady_rules, View.reply-Steady) depth 20

  reply_buffer-Steady :
      (n : ℕ) (text : Bytes) → View.Steady (view file_fd old) (reply_buffer n text)
  unfolding reply_buffer
  reply_buffer-Steady n text = search (View.steady_rules) depth 20

  -- Behind the loop.
  hidden :
      {A : Type 0} (q : Proc A)
      → View.Steady (view file_fd old) q
      → (v : Upload) → Gives {X = Env} Anything (Wrote file_fd old v tt) q (Wrote file_fd old v)
  hidden q k v = unseen-Wrote file_fd old q (seen file_fd old q k) v

  receive_file-Gives :
      (rounds size : ℕ) (v : Upload)
      → Gives {X = Env} Anything
          (Shows file_fd old v)
          (receive_file rounds file_fd size)
          (Wrote file_fd old v)
  unfolding receive_file
  receive_file-Gives rounds size v =
      Gives-from (λ m h. ([], rw h (nothing-Behind v)))
        (Gives-bind _ _ (hidden _ (View.get_session-Steady (view file_fd old)) v) λ s.
          Gives-bind _ _ (hidden _ (reply_buffer-Steady 1024 _) v) λ _.
            Gives-bind (call _) _
              (hidden _ (View.neutral-Steady (view file_fd old) _ λ a u. refl) v)
              λ _. Gives-bind _ _ (receive_loop-Gives file_fd old rounds v) λ e.
                Gives-bind (call _) _
                  (hidden _ (View.neutral-Steady (view file_fd old) _ λ a u. refl) v)
                  λ _. Gives-bind _ _ (hidden _ reset_data_fd-Steady v) λ _.
                    Gives-bind _ _ (hidden _ (View.reply-Steady (view file_fd old) _) v)
                      λ _. hidden _ answer_abor-Steady v)

  placed-Gives :
      (rounds size : ℕ) (append_mode : Bool) (p : ℤ) (u : Upload)
      → Gives {X = Env} Anything
          (Shows file_fd old u)
          (position append_mode file_fd p >>= λ ready.
            if ready
            then receive_file rounds file_fd size
            else fail_with (codes "553 Failed to create file.") file_fd)
          (Fills u append_mode p)
  placed-Gives rounds size append_mode p u =
      Gives-bind _ _ (position-Gives file_fd old append_mode p u) λ ready.
        Gives-if ready _ _ (λ _. after-Begins _ u append_mode p (receive_file-Gives rounds size))
          (λ _. after-Begins _ u append_mode p λ v.
            Gives-from (λ m h. ([], rw h (nothing-Behind v))) (hidden _ (fail_with-Steady _) v))

  store_from-Gives :
      (rounds size : ℕ) (append_mode : Bool) (p : ℤ) (u : Upload)
      → Gives {X = Env} Anything
          (λ m. Shows file_fd old u m × (m.session.restart_position ≡ p))
          (store_from rounds append_mode file_fd size)
          (Fills u append_mode p)
  unfolding store_from ◌>>=◌ get_session put_session
  store_from-Gives rounds size append_mode p u = record {
    at = λ env m (h, e). rw e (
        (placed-Gives rounds size append_mode p u).at env
          (record m { session = record m.session { restart_position = pos 0 } }) h);
  }

module _ (n : ℕ) (env : Env) (stops : StopsBy n env) (rounds file_fd : ℕ)
    (enough : n < rounds) where
  receive_loop-Settles : Settles env (receive_loop rounds file_fd)
  receive_loop-Settles = record {
    at = λ m. Comes-settled _ _ _ (receive_loop-Whole n rounds file_fd env m stops enough);
  }

  reset_data_fd-Settles : Settles env reset_data_fd
  unfolding reset_data_fd
  reset_data_fd-Settles = search ends_rules depth 20

  reply_buffer-Settles : (k : ℕ) (text : Bytes) → Settles env (reply_buffer k text)
  unfolding reply_buffer
  reply_buffer-Settles k text = search ends_rules depth 20

  answer_abor-Settles : Settles env answer_abor
  unfolding answer_abor
  answer_abor-Settles = search (ends_rules, reply-Settles) depth 20

  fail_with-Settles : (text : Bytes) → Settles env (fail_with text file_fd)
  unfolding fail_with
  fail_with-Settles text = search (ends_rules, reply-Settles, reset_data_fd-Settles) depth 20

  position-Settles : (append_mode : Bool) (p : ℤ) → Settles env (position append_mode file_fd p)
  unfolding position
  position-Settles append_mode p = search ends_rules depth 20

  receive_file-Settles : (size : ℕ) → Settles env (receive_file rounds file_fd size)
  unfolding receive_file
  receive_file-Settles size =
      search
        (
          ends_rules, receive_loop-Settles, reply_buffer-Settles, reset_data_fd-Settles,
          reply-Settles, answer_abor-Settles,
        )
        depth 30

  store_from-Settles :
      (append_mode : Bool) (size : ℕ) → Settles env (store_from rounds append_mode file_fd size)
  unfolding store_from
  store_from-Settles append_mode size =
      search (ends_rules, position-Settles, receive_file-Settles, fail_with-Settles) depth 30

-- Where the client sends no more once the log has `n` events, and there are more rounds than `n`,
-- STOR and APPE behind the lock return or exit, whatever else happens. Where they return, and no call
-- on the file has failed, the reads have brought some bytes `d`, and the file holds exactly: for APPE
-- what it held and then `d`; for STOR `d` alone, or, behind a REST with a position other than 0, what
-- it held with `d` written over it from that position on.
pub store_from-Fills :
    (n rounds file_fd size : ℕ) (append_mode : Bool) (old : Bytes) (env : Env) (m : Machine)
    → StopsBy n env
    → n < rounds
    → Comes
        (Fills file_fd old (upload_of file_fd old m.log) append_mode m.session.restart_position)
        (store_from rounds append_mode file_fd size env m)
store_from-Fills n rounds file_fd size append_mode old env m stops enough =
    settled-Comes (store_from-Settles n env stops rounds file_fd enough append_mode size)
      (store_from-Gives file_fd old rounds size append_mode m.session.restart_position
        (upload_of file_fd old m.log))
      m (refl, refl)
