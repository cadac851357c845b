-- ===== src/Ftp/Drops.antt =====
-- The end of the data connection of a transfer: `reset_data_fd` on each branch of its commands.
use mini_ftpd.Prelude.{
  ==_self, ℕ, ◌+◌, Bool, false, none, some, List, [], ⊤, ◌≡◌, refl, ◌&&◌, inl, inr, if◌then◌else◌,
}
use mini_ftpd.Prelude.Int.{pos}
use mini_ftpd.Text.Bytes.{Bytes, codes}
use mini_ftpd.Session.Defs.{Session}
use mini_ftpd.Ftp.Proc.{Fd, Call, Answer, Machine, Proc, call, get_session, reply, ◌>>=◌, ◌>>◌}
use mini_ftpd.Ftp.Data.{send_lines, reset_data_fd, refuse_transfer}
use mini_ftpd.Ftp.Transfer.{
  fail_with, answer_abor, send_file, send_loop, retrieve_from, retrieve, is_positive, bytes_to_send,
}
use mini_ftpd.Ftp.Upload.{receive_file, store_from, store, opening_text}
use mini_ftpd.Ftp.Triple.{
  Gives, Gives-pure, Gives-if, Gives-bind, Gives-case_option, Gives-undefined, Gives-get_session,
  Gives-call, Gives-put_session, Anything,
}
use mini_ftpd.Ftp.Connection.{
  open_after, open_connections, IsOnly, Tracks, is_recv, Kept, reads, writes, calls, reply-Kept,
  reply_buffer-Kept, send_loop-Kept, receive_loop-Kept, position-Kept, send_lines-Kept,
}

-- The session holds no data connection, none is open, and neither mode is on.
pub record IsClosed (m : Machine) : Type 0 where
  pub no_fd : m.session.data_fd ≡ none
  pub no_port : m.session.active_port ≡ false
  pub no_pasv : m.session.active_pasv ≡ false
  pub no_open : open_connections m.log ≡ []

abbrev pub Closes : {A : Type 0} → (Machine → Type 0) → Proc A → Type 0
Closes P p = Gives Anything P p (λ _ m. IsClosed m)

reply-Closes : (t : Bytes) → Closes IsClosed (reply t)
unfolding reply open_connections open_after
reply-Closes t = Gives-bind get_session _ Gives-get_session λ s.
    Gives-bind _ _
      (Gives-call {R = λ _ m. IsClosed m} (Call.write_n _ _) λ m a h. record {
        no_fd = h.0.no_fd;
        no_port = h.0.no_port;
        no_pasv = h.0.no_pasv;
        no_open = h.0.no_open;
      })
      λ _. Gives-pure tt (λ m h. h)

answer_abor-Closes : Closes IsClosed answer_abor
unfolding answer_abor
answer_abor-Closes = Gives-bind get_session _ Gives-get_session λ s.
    Gives-if s.received_abor _ _
      (λ _.
        Gives-bind _ _
          (Gives-put_session {R = λ _ m. IsClosed m} _ λ m h. record {
            no_fd = cc (h.1, h.0.no_fd);
            no_port = cc (h.1, h.0.no_port);
            no_pasv = cc (h.1, h.0.no_pasv);
            no_open = h.0.no_open;
          })
          λ _. reply-Closes _)
      (λ _. Gives-pure tt (λ m h. h.0))

closes_last :
    (fd : Fd) (fds : List ℕ) (a : Answer) → IsOnly fd fds → open_after (Call.close fd) a fds ≡ []
unfolding open_after
closes_last none fds a e = e
closes_last (some n) fds a (inl e) = rw e refl
closes_last (some n) fds a (inr e) = rw (e, ==_self n) refl

-- The transfers, from a session that holds `fd`.
module _ (fd : Fd) where
  abbrev pub Drops : {A : Type 0} → Proc A → Type 0
  Drops p = Closes (Tracks fd) p

  -- A part that leaves the data connection, and what is behind it.
  behind :
      {A B : Type 0} (p : Proc A) (f : A → Proc B)
      → Kept fd p
      → ((a : A) → Drops (f a))
      → Drops (p >>= f)
  behind p f kept k = Gives-bind p f kept.at k

  reset_data_fd-Closes : Drops reset_data_fd
  unfolding reset_data_fd open_connections
  reset_data_fd-Closes = reads fd _ λ s e.
      Gives-bind _ _
        (Gives-call {R = λ _ m. open_connections m.log ≡ []} (Call.close s.data_fd)
          λ m a h. rw e (closes_last fd (open_connections m.log) a h.only))
        λ _.
          Gives-put_session _
            λ m h. record { no_fd = refl; no_port = refl; no_pasv = refl; no_open = h }

  pub refuse_transfer-Closes : Drops refuse_transfer
  unfolding refuse_transfer
  refuse_transfer-Closes = Gives-bind _ _ reset_data_fd-Closes λ _. reply-Closes _

  pub listed-Closes :
      (c : Call)
      → is_recv c ≡ false
      → Drops (do
        reply (codes "150 Here comes the directory listing.")
        s ← get_session
        a ← call c
        send_lines s.data_fd a.texts
        reply (codes "226 Directory send ok.")
        reset_data_fd)
  listed-Closes c other = behind _ _ (reply-Kept fd _) λ _. reads fd _ λ s _.
      behind _ _ (calls fd c other) λ a.
        behind _ _ (send_lines-Kept fd s.data_fd a.texts)
          λ _. behind _ _ (reply-Kept fd _) λ _. reset_data_fd-Closes

  fail_with-Closes : (t : Bytes) (file_fd : ℕ) → Drops (fail_with t file_fd)
  unfolding fail_with
  fail_with-Closes t file_fd =
      behind _ _ (reply-Kept fd t)
        λ _. behind _ _ (calls fd (Call.close (some file_fd)) refl) λ _. reset_data_fd-Closes

  send_file-Closes : (file_fd left : ℕ) → Drops (send_file file_fd left)
  unfolding send_file
  send_file-Closes file_fd left = behind _ _ (calls fd Call.start_clock refl) λ _.
      behind (send_loop (left + 1) file_fd left) _ (send_loop-Kept fd (left + 1) file_fd left)
        λ failed. behind _ _ (calls fd (Call.close (some file_fd)) refl) λ _.
          Gives-bind _ _ reset_data_fd-Closes λ _.
            Gives-bind _ _ (Gives-if failed _ _ (λ _. reply-Closes _) (λ _. reply-Closes _))
              λ _. answer_abor-Closes

  retrieve_from-Closes : (file_fd size : ℕ) → Drops (retrieve_from file_fd size)
  unfolding retrieve_from
  retrieve_from-Closes file_fd size = reads fd _ λ s e.
      behind _ _ (writes fd (record s { restart_position = pos 0 }) e) λ _.
        Gives-case_option (bytes_to_send s.restart_position size) _ _ (Gives-undefined (λ _ _. tt))
          λ left.
            Gives-if (is_positive s.restart_position) _ _
              (λ _. behind _ _ (calls fd (Call.lseek file_fd s.restart_position) refl) λ a.
                Gives-if a.ok _ _ (λ _. send_file-Closes file_fd left)
                  (λ _. fail_with-Closes _ file_fd))
              (λ _. send_file-Closes file_fd left)

  pub retrieve-Closes : (file_fd : ℕ) → Drops (retrieve file_fd)
  unfolding retrieve
  retrieve-Closes file_fd = behind _ _ (calls fd (Call.fstat file_fd) refl) λ st.
      Gives-if (st.ok && st.regular) _ _
        (λ _. behind _ _ (calls fd (Call.lock_read file_fd) refl) λ l.
          Gives-if l.ok _ _ (λ _. retrieve_from-Closes file_fd st.value)
            (λ _. fail_with-Closes _ file_fd))
        (λ _. fail_with-Closes _ file_fd)

  -- Behind the opening of the file.
  pub opened-Closes :
      (c : Session → Call) (text : Bytes) (go : ℕ → Proc ⊤)
      → ((s : Session) → is_recv (c s) ≡ false)
      → ((file_fd : ℕ) → Drops (go file_fd))
      → Drops (do
        s ← get_session
        file ← call (c s)
        if file.ok then go file.value else (do reply text; reset_data_fd))
  opened-Closes c text go other k = reads fd _ λ s _. behind _ _ (calls fd (c s) (other s)) λ file.
      Gives-if file.ok _ _ (λ _. k file.value)
        (λ _. behind _ _ (reply-Kept fd text) λ _. reset_data_fd-Closes)

  receive_file-Closes : (rounds file_fd size : ℕ) → Drops (receive_file rounds file_fd size)
  unfolding receive_file
  receive_file-Closes rounds file_fd size = reads fd _ λ s _.
      behind _ _ (reply_buffer-Kept fd 1024 (opening_text s size)) λ _.
        behind _ _ (calls fd Call.start_clock refl) λ _.
          behind _ _ (receive_loop-Kept fd rounds file_fd) λ ending.
            behind _ _ (calls fd (Call.close (some file_fd)) refl) λ _.
              Gives-bind _ _ reset_data_fd-Closes
                λ _. Gives-bind _ _ (reply-Closes _) λ _. answer_abor-Closes

  store_from-Closes :
      (rounds : ℕ) (append_mode : Bool) (file_fd size : ℕ)
      → Drops (store_from rounds append_mode file_fd size)
  unfolding store_from
  store_from-Closes rounds append_mode file_fd size = reads fd _ λ s e.
      behind _ _ (writes fd (record s { restart_position = pos 0 }) e) λ _.
        behind _ _ (position-Kept fd append_mode file_fd s.restart_position) λ ready.
          Gives-if ready _ _ (λ _. receive_file-Closes rounds file_fd size)
            (λ _. fail_with-Closes _ file_fd)

  pub store-Closes :
      (rounds : ℕ) (append_mode : Bool) (file_fd : ℕ) → Drops (store rounds append_mode file_fd)
  unfolding store
  store-Closes rounds append_mode file_fd = behind _ _ (calls fd (Call.fstat file_fd) refl) λ st.
      Gives-if (st.ok && st.regular) _ _
        (λ _. behind _ _ (calls fd (Call.lock_write file_fd) refl) λ l.
          Gives-if l.ok _ _ (λ _. store_from-Closes rounds append_mode file_fd st.value)
            (λ _. fail_with-Closes _ file_fd))
        (λ _. fail_with-Closes _ file_fd)
