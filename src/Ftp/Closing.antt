-- ===== src/Ftp/Closing.antt =====
-- The data connection behind the transfers of ftp_protocol.cpp.
use mathlib.Core.Path.{subst}
use mini_ftpd.Prelude.{
  true, false, not, none, some, [], ◌∷◌, ⊤, ◌≡◌, refl, ap, ◌&&◌, ◌==◌, inr, if◌then◌else◌,
}
use mini_ftpd.Ftp.Proc.{Fd, Call, Env, Machine, done, Proc, call, ◌>>=◌}
use mini_ftpd.Ftp.Data.{
  connect_in_actv, accept_in_pasv, result_ok, result_bad, receive_data_fd, nobody_result,
  connect_active, accept_passive, refuse_transfer, establish_transfer, listing, handle_list,
  handle_nlst,
}
use mini_ftpd.Ftp.Transfer.{retrieve, handle_retr}
use mini_ftpd.Ftp.Upload.{store, upload_auxiliary, handle_stor, handle_appe}
use mini_ftpd.Ftp.Service.{Handler, Frame, run_handler}
use mini_ftpd.Ftp.Triple.{
  Ends, Gives, Gives-pure, Gives-exit, Gives-if, Gives-bind, Gives-call, Gives-put_session,
  Anything,
}
use mini_ftpd.Ftp.Connection.{
  open_after, open_connections, IsOnly, Tracks, reads, calls, reply-Kept,
}
use mini_ftpd.Ftp.Drops.{
  IsClosed, Closes, Drops, refuse_transfer-Closes, listed-Closes, retrieve-Closes, opened-Closes,
  store-Closes,
}

-- A session that holds at most the one data connection that is open.
abbrev Holds : Machine → Type 0
Holds m = (fd : Fd) × Tracks fd m

held :
    {A : Type 0} {R : A → Machine → Type 0} (p : Proc A)
    → ((fd : Fd) → Gives {X = Env} Anything (Tracks fd) p R)
    → Gives {X = Env} Anything Holds p R
held p k = record { at = λ env m (fd, h). (k fd).at env m h }

receive_data_fd-Holds : Gives {X = Env} Anything (Tracks none) receive_data_fd (λ _ m. Holds m)
unfolding receive_data_fd open_connections open_after
receive_data_fd-Holds = reads none _ λ s e.
    Gives-bind (call (Call.recv_fd s.pic_fd)) _
      (Gives-call {P = Tracks none}
        {R = λ a m. a.ok ≡ true → IsOnly (some a.value) (open_connections m.log)}
        (Call.recv_fd s.pic_fd) (λ m a h ok. inr (rw ok (ap (λ t. a.value ∷ t) h.only))))
      λ a.
        Gives-if a.ok _ _
          (λ ok.
            Gives-bind _ _
              (Gives-put_session {R = λ _ m. Holds m} _
                (λ m h. (some a.value, record { held = refl; only = h ok })))
              λ _. Gives-pure true (λ m h. h))
          (λ _. Gives-exit 1 (λ _ _. tt))

nobody_result-Holds : Gives {X = Env} Anything (Tracks none) nobody_result (λ _ m. Holds m)
unfolding nobody_result
nobody_result-Holds = reads none _ λ s e.
    Gives-bind _ _ (calls none (Call.get_char s.pic_fd) refl).at λ res.
      Gives-if (res.value == 0) _ _ (λ _. Gives-exit 1 (λ _ _. tt))
        (λ _.
          Gives-if (res.value == result_bad) _ _ (λ _. Gives-pure false (λ m h. (none, h)))
            (λ _.
              Gives-if (res.value == result_ok) _ _ (λ _. receive_data_fd-Holds)
                (λ _. Gives-pure true (λ m h. (none, h)))))

establish_transfer-Holds :
    Gives {X = Env} Anything (Tracks none) establish_transfer (λ _ m. Holds m)
unfolding establish_transfer connect_active accept_passive
establish_transfer-Holds = reads none _ λ s e.
    Gives-if (not s.active_pasv && not s.active_port) _ _
      (λ _. Gives-bind _ _ (reply-Kept none _).at λ _. Gives-pure false (λ m h. (none, h)))
      (λ _.
        Gives-if (s.active_pasv && s.active_port) _ _ (λ _. Gives-pure false (λ m h. (none, h)))
          (λ _.
            Gives-if s.active_port _ _
              (λ _. reads none _ λ s' _.
                Gives-bind _ _ (calls none (Call.send_char s'.pic_fd connect_in_actv) refl).at λ _.
                  Gives-bind _ _ (calls none (Call.send_addr s'.pic_fd s'.port_addr) refl).at λ a.
                    Gives-if a.ok _ _ (λ _. nobody_result-Holds) (λ _. Gives-exit 1 (λ _ _. tt)))
              (λ _. reads none _ λ s' _.
                Gives-bind _ _ (calls none (Call.send_char s'.pic_fd accept_in_pasv) refl).at
                  λ _. nobody_result-Holds)))

-- A transfer, by what it does with its data connection.
transfer-Closes :
    (go : Proc ⊤)
    → ((fd : Fd) → Drops fd go)
    → Closes (Tracks none) (establish_transfer >>= λ up. if up then go else refuse_transfer)
transfer-Closes go k =
    Gives-bind establish_transfer _ establish_transfer-Holds
      λ up. Gives-if up _ _ (λ _. held go k) (λ _. held refuse_transfer refuse_transfer-Closes)

-- The commands that move data.
pub data IsTransfer : Handler → Type 0 where
  list : IsTransfer Handler.list
  nlst : IsTransfer Handler.nlst
  retr : IsTransfer Handler.retr
  stor : IsTransfer Handler.stor
  appe : IsTransfer Handler.appe

run_handler-Closes :
    (f : Frame) (h : Handler) → IsTransfer h → Closes (Tracks none) (run_handler f h)
unfolding run_handler handle_list handle_nlst handle_retr handle_stor handle_appe listing
    upload_auxiliary
run_handler-Closes f _ list = transfer-Closes _ λ fd. listed-Closes fd Call.list_dir refl
run_handler-Closes f _ nlst = transfer-Closes _ λ fd. listed-Closes fd Call.list_neat_dir refl
run_handler-Closes f _ retr =
    transfer-Closes _
      λ fd. opened-Closes fd (λ s. Call.open_read s.arg) _ retrieve (λ s. refl) (retrieve-Closes fd)
run_handler-Closes f _ stor = transfer-Closes _ λ fd.
    opened-Closes fd (λ s. Call.open_write s.arg) _ (store f.rounds false) (λ s. refl)
      (store-Closes fd f.rounds false)
run_handler-Closes f _ appe = transfer-Closes _ λ fd.
    opened-Closes fd (λ s. Call.open_write s.arg) _ (store f.rounds true) (λ s. refl)
      (store-Closes fd f.rounds true)

-- Where LIST, NLST, RETR, STOR or APPE begin with no data connection, held by the session or open by
-- the log, and come back to the loop of the ftp process, on whichever of their branches: there is
-- again none that the session holds, and every descriptor that the nobody process has handed over has
-- been closed. Neither active nor passive mode is on: the next transfer needs a PORT or a PASV of its
-- own.
pub run_handler-IsClosed :
    (f : Frame) (h : Handler) (env : Env) (m m' : Machine)
    → IsTransfer h
    → m.session.data_fd ≡ none
    → open_connections m.log ≡ []
    → run_handler f h env m ≡ (done tt, m')
    → IsClosed m'
run_handler-IsClosed f h env m m' t nothing shut e =
    subst (λ r. Ends Anything (λ _ n. IsClosed n) r) e
      ((run_handler-Closes f h t).at env m record { held = nothing; only = shut })
