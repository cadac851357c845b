-- ===== src/Handover/Wire.antt =====
-- The messages of the nobody process, in its log.
use mini_ftpd.Prelude.{
  ==_self, ℕ, ◌≡◌, ◌⊎◌, refl, ◌∙◌, arith, true, ◌&&◌, List, [], ◌∷◌, ◌==◌, if◌then◌else◌,
}
use mini_ftpd.Program.{pure, exit}
use mini_ftpd.Program.Triple.{
  Gives, Gives-pure, Gives-exit, Gives-if, Gives-bind, Gives-into, Anything,
}
use mini_ftpd.Ftp.Data.{result_ok, result_bad}
use mini_ftpd.System.Calls.{Call, Answer, Log, Env, Proc, call}
use mini_ftpd.System.View.{View, Sees, call-Sees}
use mini_ftpd.System.Timeout.Steady.{IsBlind}
use mini_ftpd.System.Create.Defs.{call_or_exit}
use mini_ftpd.System.Ipc.{send_fd}
use mini_ftpd.System.Nobody.Defs.{send_result}
use mini_ftpd.Handover.Spec.{Message}

-- A message on the descriptor `d`.
abbrev pub on : ℕ → ℕ → Message → List Message → List Message
on pic_fd d x ms = if d == pic_fd then x ∷ ms else ms

unfoldable pub wire_after : ℕ → Call → Answer → List Message → List Message
wire_after pic_fd (Call.get_char d) a ms = on pic_fd d (Message.command a.value) ms
wire_after pic_fd (Call.send_char d n) a ms = on pic_fd d (Message.result n) ms
wire_after pic_fd (Call.recv_addr d) a ms =
    if a.ok then on pic_fd d (Message.address a.addr) ms else ms
wire_after pic_fd (Call.write_port d p) a ms = on pic_fd d (Message.port p) ms
wire_after pic_fd (Call.send_rights d fd) a ms =
    if a.ok then on pic_fd d Message.descriptor ms else ms
wire_after pic_fd c a ms = ms

-- The messages of the nobody process, the latest first.
abbrev pub wire : ℕ → View
wire pic_fd = record { State = List Message; start = []; after = wire_after pic_fd }

pub on_self : (pic_fd : ℕ) (x : Message) (ms : List Message) → on pic_fd pic_fd x ms ≡ x ∷ ms
on_self pic_fd x ms = rw (==_self pic_fd) refl

module _ (pic_fd : ℕ) where
  pub blind : IsBlind (wire pic_fd)
  unfolding wire_after
  blind = record {
    get_flags = λ _ _ _. refl;
    set_flags = λ _ _ _ _. refl;
    connect = λ _ _ _ _. refl;
    socket_error = λ _ _ _. refl;
    select_read = λ _ _ _ _. refl;
    select_write = λ _ _ _ _. refl;
  }

  abbrev pub Says : {A : Type 0} → List Message → Proc A → (A → List Message) → Type 0
  Says {A} ms p f =
      Gives {X = Env} Anything (Sees (wire pic_fd) ms) p (λ a. Sees (wire pic_fd) (f a))

  pub get_char-Says :
      (ms : List Message)
      → Says ms (call (Call.get_char pic_fd)) (λ a. Message.command a.value ∷ ms)
  unfolding wire_after
  get_char-Says ms =
      Gives-into (λ a log h. h ∙ on_self pic_fd _ ms)
        (call-Sees (wire pic_fd) (Call.get_char pic_fd) ms)

  pub send_result-Says :
      (n : ℕ) (ms : List Message) → Says ms (send_result pic_fd n) (λ _. Message.result n ∷ ms)
  unfolding send_result wire_after
  send_result-Says n ms =
      Gives-bind (call _) _ (call-Sees (wire pic_fd) (Call.send_char pic_fd n) ms)
        λ _. Gives-pure tt (λ log h. h ∙ on_self pic_fd _ ms)

  pub write_port-Says :
      (p : ℕ) (ms : List Message)
      → Says ms (call (Call.write_port pic_fd p)) (λ _. Message.port p ∷ ms)
  unfolding wire_after
  write_port-Says p ms =
      Gives-into (λ a log h. h ∙ on_self pic_fd _ ms)
        (call-Sees (wire pic_fd) (Call.write_port pic_fd p) ms)

  pub recv_addr-Says :
      (ms : List Message)
      → Says ms (call_or_exit (Call.recv_addr pic_fd)) (λ a. Message.address a.addr ∷ ms)
  unfolding call_or_exit wire_after
  recv_addr-Says ms =
      Gives-bind (call _) _ (call-Sees (wire pic_fd) (Call.recv_addr pic_fd) ms) λ a.
        Gives-if a.ok (pure a) (exit 1)
          (λ ok.
            Gives-pure {R = λ a. Sees (wire pic_fd) (Message.address a.addr ∷ ms)} a
              (λ log h. h ∙ rw ok (on_self pic_fd _ ms)))
          (λ _. Gives-exit 1 (λ _ _. tt))

  pub send_fd-Says :
      (fd : ℕ) (ms : List Message) → Says ms (send_fd pic_fd fd) (λ _. Message.descriptor ∷ ms)
  unfolding send_fd wire_after
  send_fd-Says fd ms =
      Gives-bind (call _) _ (call-Sees (wire pic_fd) (Call.send_rights pic_fd fd) ms) λ a.
        Gives-if (a.ok && a.value == 1) (pure tt) (exit 1)
          (λ both.
            let ok : a.ok ≡ true = ground arith in
            Gives-pure tt (λ log h. h ∙ rw ok (on_self pic_fd _ ms)))
          (λ _. Gives-exit 1 (λ _ _. tt))

  -- The endings that the nobody process may give, behind `ms`.
  abbrev pub EndsAs : List Message → Log → Type 0
  EndsAs ms log =
      Sees (wire pic_fd) (Message.descriptor ∷ Message.result result_ok ∷ ms) log
      ⊎ Sees (wire pic_fd) (Message.result result_bad ∷ ms) log
