-- ===== src/Handover/Pasv.antt =====
-- `handle_pasv` of ftp_protocol.cpp against the exchanges.
use mini_ftpd.Prelude.{ℕ, ◌≡◌, refl, ◌∙◌, true, List, ◌∷◌}
use mini_ftpd.Text.Bytes.{Bytes}
use mini_ftpd.Session.Defs.{Session}
use mini_ftpd.Program.Settles.{Comes, settled-Comes}
use mini_ftpd.Ftp.Proc.{Call, Env, Machine, call, get_config, put_session, reply}
use mini_ftpd.Ftp.Triple.{
  Gives, Gives-pure, Gives-bind, Gives-into, Anything, Gives-get_config, Gives-put_session,
}
use mini_ftpd.Ftp.Data.{listen_in_pasv, handle_pasv}
use mini_ftpd.Ftp.Ends.{handle_pasv-Settles}
use mini_ftpd.Handover.Spec.{Message, listening, transcript, behind}
use mini_ftpd.Handover.Wire.{on_self}
use mini_ftpd.Handover.Client.{said, said_after, At, with_session, call-Says, send_char-Says}

reply-At :
    (s : Session) (ms : List Message) (text : Bytes)
    → Gives {X = Env} Anything (At s ms) (reply text) (λ _. At s ms)
unfolding reply said_after
reply-At s ms text =
    with_session s ms _ (λ _. At s ms)
      (Gives-bind (call _) _ (call-Says s ms (Call.write_n _ _)) λ _. Gives-pure tt (λ m h. h))

-- One exchange for a listening socket, and passive mode on.
abbrev pub Listens : Session → List Message → Machine → Type 0
Listens s ms m =
    (port : ℕ) × (said s.pic_fd m.log ≡ behind (transcript (listening port)) ms)
    × (m.session ≡ record s { active_pasv = true })

handle_pasv-Gives :
    (memory : List ℕ) (s : Session) (ms : List Message)
    → Gives {X = Env} Anything (At s ms) (handle_pasv memory) (λ _. Listens s ms)
unfolding handle_pasv said_after
handle_pasv-Gives memory s ms =
    let ms1 = Message.command listen_in_pasv ∷ ms in
    let on = record s { active_pasv = true } in
    with_session s ms _ (λ _. Listens s ms)
      (Gives-bind get_config _ (Gives-get_config {E = Anything} {P = At s ms}) λ config.
        Gives-bind (call _) _ (send_char-Says s ms listen_in_pasv) λ _.
          Gives-bind (call _) _ (call-Says s ms1 (Call.read_port s.pic_fd)) λ port.
            Gives-bind (put_session on) _
              (Gives-put_session {R = λ _. At on (Message.port port.value ∷ ms1)} on
                (λ m h. (refl, h.1 ∙ on_self s.pic_fd _ ms1)))
              λ _.
                Gives-into (λ _ m h. (port.value, h.1, h.0))
                  (reply-At on (Message.port port.value ∷ ms1) _))

-- `handle_pasv` comes to an end, in any session and whatever its calls answer. Where it returns, it
-- has had exactly one exchange with the nobody process, for a listening socket and its port, and
-- passive mode is on; the rest of the session is as before.
pub handle_pasv-Listens :
    (memory : List ℕ) (env : Env) (m : Machine)
    → Comes (λ _. Listens m.session (said m.session.pic_fd m.log)) (handle_pasv memory env m)
handle_pasv-Listens memory env m =
    settled-Comes (handle_pasv-Settles memory)
      (handle_pasv-Gives memory m.session (said m.session.pic_fd m.log)) m (refl, refl)
