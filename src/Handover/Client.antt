-- ===== src/Handover/Client.antt =====
-- `establish_transfer` of ftp_protocol.cpp against the exchanges.
use mini_ftpd.Prelude.{
  ℕ, ◌≡◌, ◌⊎◌, refl, ap, ◌∙◌, arith, Bool, true, false, not, ◌&&◌, List, [], ◌∷◌, ⊤, ◌==◌,
  if◌then◌else◌, inl, inr,
}
use mini_ftpd.Session.Defs.{Session}
use mini_ftpd.Ftp.Proc.{
  Call, Answer, Event, Env, Machine, Proc, pure, exit, ◌>>=◌, call, get_session, put_session, reply,
}
use mini_ftpd.Ftp.Triple.{
  Gives, Gives-pure, Gives-exit, Gives-if, Gives-bind, Gives-from, Gives-into, Anything,
  Gives-get_session, Gives-call, Gives-put_session,
}
use mini_ftpd.Ftp.Data.{
  connect_in_actv, accept_in_pasv, result_ok, result_bad, receive_data_fd, nobody_result,
  connect_active, accept_passive, establish_transfer,
}
use mini_ftpd.Handover.Spec.{
  Message, Ending, handed, refused, strange, Exchange, active, passive, ending, transcript, behind,
}
use mini_ftpd.Handover.Wire.{on, on_self}

unfoldable pub said_after : ℕ → Call → Answer → List Message → List Message
said_after pic_fd (Call.send_char d n) a ms = on pic_fd d (Message.command n) ms
said_after pic_fd (Call.send_addr d addr) a ms =
    if a.ok then on pic_fd d (Message.address addr) ms else ms
said_after pic_fd (Call.get_char d) a ms = on pic_fd d (Message.result a.value) ms
said_after pic_fd (Call.recv_fd d) a ms = if a.ok then on pic_fd d Message.descriptor ms else ms
said_after pic_fd (Call.read_port d) a ms = on pic_fd d (Message.port a.value) ms
said_after pic_fd c a ms = ms

-- The messages of the ftp process, the latest first.
unfoldable pub said : ℕ → List Event → List Message
said pic_fd [] = []
said pic_fd (e ∷ log) = said_after pic_fd e.call e.answer (said pic_fd log)

-- The session `s`, and what has been said.
abbrev pub At : Session → List Message → Machine → Type 0
At s ms m = (m.session ≡ s) × (said s.pic_fd m.log ≡ ms)

abbrev pub Said : Session → List Message → Machine → Type 0
Said s ms m = said s.pic_fd m.log ≡ ms

fact :
    {A : Type 0} {F : Type 0} {E P : Machine → Type 0} {R : A → Machine → Type 0} {p : Proc A}
    → (F → Gives E P p R)
    → Gives {X = Env} E (λ m. F × P m) p R
fact k = record { at = λ env m h. (k h.0).at env m h.1 }

get_session-At :
    (s : Session) (ms : List Message)
    → Gives {X = Env} Anything (At s ms) get_session (λ r m. (r ≡ s) × At s ms m)
get_session-At s ms =
    Gives-into (λ r m h. (h.1 ∙ h.0.0, h.0)) (Gives-get_session {E = Anything} {P = At s ms})

-- A program that begins with the session.
pub with_session :
    {A : Type 0} (s : Session) (ms : List Message) (f : Session → Proc A) (R : A → Machine → Type 0)
    → Gives Anything (At s ms) (f s) R
    → Gives Anything (At s ms) (get_session >>= f) R
with_session s ms f R k = Gives-bind get_session f (get_session-At s ms) λ r. fact (λ e. rw e k)

-- A call, by what it says.
pub call-Says :
    (s : Session) (ms : List Message) (c : Call)
    → Gives {X = Env} Anything (At s ms) (call c) (λ a. At s (said_after s.pic_fd c a ms))
unfolding said
call-Says s ms c =
    Gives-call {R = λ a. At s (said_after s.pic_fd c a ms)} c
      (λ m a h. (h.0, ap (said_after s.pic_fd c a) h.1))

pub send_char-Says :
    (s : Session) (ms : List Message) (n : ℕ)
    → Gives {X = Env} Anything
        (At s ms)
        (call (Call.send_char s.pic_fd n))
        (λ _. At s (Message.command n ∷ ms))
unfolding said_after
send_char-Says s ms n =
    Gives-into (λ a m h. (h.0, h.1 ∙ on_self s.pic_fd _ ms))
      (call-Says s ms (Call.send_char s.pic_fd n))

abbrev pub is_up : Ending → Bool
is_up handed = true
is_up refused = false
is_up (strange n) = true

-- A strange answer is neither result.
abbrev pub IsHonest : Ending → Type 0
IsHonest handed = ⊤
IsHonest refused = ⊤
IsHonest (strange n) = ((n == result_bad) ≡ false) × ((n == result_ok) ≡ false)

abbrev Ended : Session → List Message → Bool → Machine → Type 0
Ended s ms up m = (e : Ending) × (up ≡ is_up e) × IsHonest e × Said s (behind (ending e) ms) m

receive_data_fd-Ended :
    (s : Session) (ms : List Message)
    → Gives {X = Env} Anything (At s (Message.result result_ok ∷ ms)) receive_data_fd (Ended s ms)
unfolding receive_data_fd said_after
receive_data_fd-Ended s ms =
    let ms1 = Message.result result_ok ∷ ms in
    with_session s ms1 _ (Ended s ms) (
      Gives-bind (call _) _ (call-Says s ms1 (Call.recv_fd s.pic_fd)) λ a.
        Gives-if a.ok _ (exit 1)
          (λ ok.
            Gives-bind (put_session _) _
              (Gives-put_session {R = λ _. Said s (Message.descriptor ∷ ms1)} _
                (λ m h. h.1 ∙ rw ok (on_self s.pic_fd _ ms1)))
              λ _. Gives-pure true (λ m h. (handed, refl, tt, h)))
          (λ _. Gives-exit 1 (λ _ _. tt)))

nobody_result-Ended :
    (s : Session) (ms : List Message)
    → Gives {X = Env} Anything (At s ms) nobody_result (Ended s ms)
unfolding nobody_result said_after
nobody_result-Ended s ms = with_session s ms _ (Ended s ms) (
    Gives-bind (call _) _ (call-Says s ms (Call.get_char s.pic_fd)) λ res.
      Gives-from {P = At s (Message.result res.value ∷ ms)}
        (λ m h. (h.0, h.1 ∙ on_self s.pic_fd _ ms))
        (Gives-if (res.value == 0) (exit 1) _ (λ _. Gives-exit 1 (λ _ _. tt))
          (λ _.
            Gives-if (res.value == result_bad) (pure false) _
              (λ is.
                let e : res.value ≡ result_bad = ground arith in
                Gives-pure false (λ m h. (refused, refl, tt, h.1 ∙ rw e refl)))
              (λ no1.
                Gives-if (res.value == result_ok) receive_data_fd (pure true)
                  (λ is.
                    let e : res.value ≡ result_ok = ground arith in
                    rw e (receive_data_fd-Ended s ms))
                  (λ no2. Gives-pure true (λ m h. (strange res.value, refl, (no1, no2), h.1)))))))

-- The exchange of `establish_transfer`, by the mode of the session.
abbrev pub IsAsked : Session → Bool → Exchange → Type 0
IsAsked s up (active a e) = (s.active_port ≡ true) × (a ≡ s.port_addr) × (up ≡ is_up e) × IsHonest e
IsAsked s up (passive e) = (s.active_pasv ≡ true) × (up ≡ is_up e) × IsHonest e
IsAsked s up _ = ⊥

-- One exchange, or none where not just one mode is on.
abbrev pub Asks : Session → List Message → Bool → Machine → Type 0
Asks s ms up m =
    ((x : Exchange) × IsAsked s up x × Said s (behind (transcript x) ms) m)
    ⊎ ((up ≡ false) × (s.active_port ≡ s.active_pasv) × Said s ms m)

connect_active-Asks :
    (s : Session) (ms : List Message)
    → s.active_port ≡ true
    → Gives {X = Env} Anything (At s ms) connect_active (Asks s ms)
unfolding connect_active said_after
connect_active-Asks s ms on_port =
    let ms1 = Message.command connect_in_actv ∷ ms in
    with_session s ms _ (Asks s ms) (
      Gives-bind (call _) _ (send_char-Says s ms connect_in_actv) λ _.
        Gives-bind (call _) _ (call-Says s ms1 (Call.send_addr s.pic_fd s.port_addr)) λ a.
          Gives-if a.ok nobody_result (exit 1)
            (λ ok.
              Gives-from {P = At s (Message.address s.port_addr ∷ ms1)}
                (λ m h. (h.0, h.1 ∙ rw ok (on_self s.pic_fd _ ms1)))
                (Gives-into
                  (λ up m h.
                    let (e, same, honest, heard) = h in
                    inl (active s.port_addr e, (on_port, refl, same, honest), heard))
                  (nobody_result-Ended s (Message.address s.port_addr ∷ ms1))))
            (λ _. Gives-exit 1 (λ _ _. tt)))

accept_passive-Asks :
    (s : Session) (ms : List Message)
    → s.active_pasv ≡ true
    → Gives {X = Env} Anything (At s ms) accept_passive (Asks s ms)
unfolding accept_passive
accept_passive-Asks s ms on_pasv = with_session s ms _ (Asks s ms) (
    Gives-bind (call _) _ (send_char-Says s ms accept_in_pasv) λ _.
      Gives-into
        (λ up m h.
          let (e, same, honest, heard) = h in inl (passive e, (on_pasv, same, honest), heard))
        (nobody_result-Ended s (Message.command accept_in_pasv ∷ ms)))

pub establish_transfer-Gives :
    (s : Session) (ms : List Message)
    → Gives {X = Env} Anything (At s ms) establish_transfer (Asks s ms)
unfolding establish_transfer reply said_after
establish_transfer-Gives s ms = with_session s ms _ (Asks s ms) (
    Gives-if (not s.active_pasv && not s.active_port) _ _
      (λ neither.
        let same : s.active_port ≡ s.active_pasv = ground arith in
        Gives-bind _ _
          (with_session s ms _ (λ _. At s ms)
            (Gives-bind (call _) _ (call-Says s ms (Call.write_n _ _))
              λ _. Gives-pure tt (λ m h. h)))
          λ _. Gives-pure false (λ m h. inr (refl, same, h.1)))
      (λ some_mode.
        Gives-if (s.active_pasv && s.active_port) _ _
          (λ both.
            let same : s.active_port ≡ s.active_pasv = ground arith in
            Gives-pure false (λ m h. inr (refl, same, h.1)))
          (λ _. Gives-if s.active_port _ _ (connect_active-Asks s ms) (λ off.
            accept_passive-Asks s ms (let on : s.active_pasv ≡ true = ground arith in on)))))
