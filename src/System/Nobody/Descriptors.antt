-- ===== src/System/Nobody/Descriptors.antt =====
-- The descriptors that the nobody process holds behind its requests.
use mini_ftpd.Prelude.{
  ==_self, ℕ, ◌<◌, ◌≡◌, ◌⊎◌, refl, ap, ◌∙◌, Bool, true, false, Option, none, some, List, [], ◌∷◌,
  ◌==◌, if◌then◌else◌, inl, inr, Bool-cases,
}
use mini_ftpd.Text.Bytes.{Bytes}
use mini_ftpd.Config.Defs.{Config}
use mini_ftpd.Program.{case_option}
use mini_ftpd.Program.Triple.{
  Gives, Gives-pure, Gives-if, Gives-bind, Gives-case_option, Gives-from, Gives-into, Anything,
}
use mini_ftpd.Ftp.Data.{result_bad}
use mini_ftpd.System.Calls.{Call, Answer, Log, Env, call}
use mini_ftpd.System.Retry.{IsCalm, Gives-call}
use mini_ftpd.System.Timeout.Defs.{Status}
use mini_ftpd.System.Create.Defs.{bind_client, create_client}
use mini_ftpd.System.Held.{remove, held_after, held_view, held, Holds}
use mini_ftpd.System.View.{
  viewed, IsNeutral, Steady, call-Steady, bind-Steady, if-Steady, pure-Steady, exit-Steady,
  call_or_exit-Steady,
}
use mini_ftpd.System.Timeout.Steady.{IsBlind, connect_with_timeout-Steady}
use mini_ftpd.System.Ipc.{send_fd}
use mini_ftpd.Program.Settles.{Comes, settled-Comes}
use mini_ftpd.System.Nobody.Ends.{serve_connect-Settles}
use mini_ftpd.System.Nobody.Defs.{
  send_result, hand_over, report_connect, connect_client, serve_connect,
}

pub held_blind : IsBlind held_view
unfolding held_after
held_blind = record {
  get_flags = λ _ _ _. refl;
  set_flags = λ _ _ _ _. refl;
  connect = λ _ _ _ _. refl;
  socket_error = λ _ _ _. refl;
  select_read = λ _ _ _ _. refl;
  select_write = λ _ _ _ _. refl;
}

pub send_fd-Steady : (pic_fd fd : ℕ) → Steady held_view (send_fd pic_fd fd)
unfolding send_fd held_after
send_fd-Steady pic_fd fd =
    bind-Steady held_view (call _) _ (call-Steady held_view _ λ a fds. refl)
      λ a. if-Steady held_view _ _ _ (pure-Steady held_view tt) (exit-Steady held_view 1)

pub send_result-Steady : (pic_fd result : ℕ) → Steady held_view (send_result pic_fd result)
unfolding send_result held_after
send_result-Steady pic_fd result =
    bind-Steady held_view (call _) _ (call-Steady held_view _ λ a fds. refl)
      λ _. pure-Steady held_view tt

pub hand_over-Steady : (pic_fd fd : ℕ) → Steady held_view (hand_over pic_fd fd)
unfolding hand_over
hand_over-Steady pic_fd fd =
    bind-Steady held_view _ _ (send_result-Steady pic_fd _) λ _. send_fd-Steady pic_fd fd

pub remove_self : (fd : ℕ) (fds : List ℕ) → remove fd (fd ∷ fds) ≡ fds
unfolding remove
remove_self fd fds = rw (==_self fd) refl

pub close-Gives :
    (fd : ℕ) (fds : List ℕ)
    → Gives {X = Env} Anything
        (Holds fds)
        (call (Call.close (some fd)))
        (λ _. Holds (remove fd fds))
unfolding held_after viewed
close-Gives fd fds = Gives-call {R = λ _. Holds (remove fd fds)} _ (λ log a h. ap (remove fd) h)

-- Behind a call that may open a descriptor.
abbrev pub Opened : List ℕ → Answer → Log → Type 0
Opened fds a = Holds (if a.ok then a.value ∷ fds else fds)

pub Opened-ok :
    (fds : List ℕ) (a : Answer) (log : Log)
    → a.ok ≡ true
    → Opened fds a log
    → Holds (a.value ∷ fds) log
Opened-ok fds a log ok h = h ∙ rw ok refl

pub Opened-bad :
    (fds : List ℕ) (a : Answer) (log : Log) → a.ok ≡ false → Opened fds a log → Holds fds log
Opened-bad fds a log bad h = h ∙ rw bad refl

pub socket-Gives :
    (fds : List ℕ) → Gives {X = Env} Anything (Holds fds) (call Call.socket) (Opened fds)
unfolding held_after viewed
socket-Gives fds =
    Gives-call {R = Opened fds} _ (λ log a h. ap (λ l. if a.ok then a.value ∷ l else l) h)

pub accept-Gives :
    (l : Option ℕ) (fds : List ℕ)
    → Gives {X = Env} Anything (Holds fds) (call (Call.accept l)) (Opened fds)
unfolding held_after viewed
accept-Gives l fds =
    Gives-call {R = Opened fds} _ (λ log a h. ap (λ l. if a.ok then a.value ∷ l else l) h)

-- The calls of `create_client` behind `socket`.
abbrev is_setup : ℕ → Call → Bool
is_setup fd (Call.reuse_addr d) = d == fd
is_setup fd (Call.bind d addr) = d == fd
is_setup fd _ = false

abbrev pub HasFailed : ℕ → Log → Type 0
HasFailed fd [] = ⊥
HasFailed fd (e ∷ log) = (e.answer.ok ≡ false) × (is_setup fd e.call ≡ true)

-- A descriptor is held that nothing will close: `reuse_addr` or `bind` has failed on it.
abbrev pub Leaks : List ℕ → Log → Type 0
Leaks fds log = (fd : ℕ) × Holds (fd ∷ fds) log × HasFailed fd log

abbrev pub Made : List ℕ → Option ℕ → Log → Type 0
Made fds none log = Holds fds log ⊎ Leaks fds log
Made fds (some fd) log = Holds (fd ∷ fds) log

-- Behind the call that decides.
setup-Gives :
    (fd : ℕ) (fds : List ℕ) (c : Call)
    → IsNeutral held_view c
    → is_setup fd c ≡ true
    → Gives {X = Env} Anything
        (Holds (fd ∷ fds))
        (call c)
        (λ a log. Holds (fd ∷ fds) log × (a.ok ≡ false → HasFailed fd log))
unfolding viewed
setup-Gives fd fds c k is =
    Gives-call {R = λ a log. Holds (fd ∷ fds) log × (a.ok ≡ false → HasFailed fd log)} c
      (λ log a h. (ap (held_after c a) h ∙ k a (fd ∷ fds), λ bad. (bad, is)))

bind_client-Made :
    (fd : ℕ) (fds : List ℕ) (ip : Bytes) (port : ℕ)
    → Gives {X = Env} Anything (Holds (fd ∷ fds)) (bind_client fd ip port) (Made fds)
unfolding bind_client held_after
bind_client-Made fd fds ip port =
    Gives-bind (call _) _ (call-Steady held_view _ (λ a fds. refl) (fd ∷ fds)) λ host.
      Gives-bind (call _) _ (setup-Gives fd fds _ (λ a fds. refl) (==_self fd)) λ b.
        Gives-pure _ (λ log h. elim (Bool-cases b.ok) [
          | inl ok ↦ rw ok h.0
          | inr bad ↦ rw bad (inr (fd, h.0, h.1 bad))
        ])

create_client-Made :
    (fds : List ℕ) (ip : Bytes) (port : ℕ)
    → Gives {X = Env} Anything (Holds fds) (create_client ip port) (Made fds)
unfolding create_client held_after
create_client-Made fds ip port = Gives-bind (call Call.socket) _ (socket-Gives fds) λ s.
    Gives-if s.ok _ _
      (λ ok.
        Gives-from (λ log h. Opened-ok fds s log ok h)
          (Gives-if (port == 0) _ _ (λ _. Gives-pure _ (λ log h. h))
            (λ _.
              Gives-bind (call _) _ (setup-Gives s.value fds _ (λ a fds. refl) (==_self s.value))
                λ r.
                  Gives-if r.ok _ _
                    (λ _. Gives-from (λ log h. h.0) (bind_client-Made s.value fds ip port))
                    (λ bad. Gives-pure none (λ log h. inr (s.value, h.0, h.1 bad))))))
      (λ bad. Gives-pure none (λ log h. inl (Opened-bad fds s log bad h)))

-- The log without its last event.
abbrev pub before_last : Log → Log
before_last [] = []
before_last (e ∷ log) = log

-- The descriptors are as before, or the last event but one has left one open.
abbrev pub Balanced : List ℕ → Log → Type 0
Balanced fds log =
    Holds fds log ⊎ ((fd : ℕ) × Holds (fd ∷ fds) log × HasFailed fd (before_last log))

report_failed :
    (fds : List ℕ) (pic_fd result : ℕ)
    → Gives {X = Env} Anything (Made fds none) (send_result pic_fd result) (λ _. Balanced fds)
unfolding send_result viewed held_after
report_failed fds pic_fd result =
    Gives-bind (call _) _
      (Gives-call {R = λ _. Balanced fds} _ (λ log a h. elim h [
        | inl same ↦ inl same
        | inr (fd, more, failed) ↦ inr (fd, more, failed)
      ]))
      λ _. Gives-pure tt (λ log h. h)

report_connect-Holds :
    (fds : List ℕ) (pic_fd fd : ℕ) (status : Status)
    → Gives {X = Env} Anything (Holds (fd ∷ fds)) (report_connect pic_fd fd status) (λ _. Holds fds)
unfolding report_connect
report_connect-Holds fds pic_fd fd status =
    let closed : (log : Log) → Holds (remove fd (fd ∷ fds)) log → Holds fds log =
      λ log h. h ∙ remove_self fd fds in
    Gives-case_option status _ _
      (Gives-bind _ _ (hand_over-Steady pic_fd fd (fd ∷ fds)) λ _.
        Gives-bind (call _) _ (close-Gives fd (fd ∷ fds))
          λ _. Gives-pure tt (λ log h. closed log h))
      λ _.
        Gives-bind (call _) _ (close-Gives fd (fd ∷ fds))
          λ _. Gives-from closed (send_result-Steady pic_fd result_bad fds)

connect_client-Holds :
    (rounds : ℕ) (config : Config) (pic_fd fd : ℕ) (fds : List ℕ)
    → Gives {X = Env} Anything
        (Holds (fd ∷ fds))
        (connect_client rounds config pic_fd fd)
        (λ _. Holds fds)
unfolding connect_client held_after
connect_client-Holds rounds config pic_fd fd fds =
    Gives-bind _ _ (call_or_exit-Steady held_view _ (λ a fds. refl) (fd ∷ fds)) λ a.
      Gives-bind _ _
        (connect_with_timeout-Steady held_view held_blind rounds fd a.addr _ (fd ∷ fds))
        λ status. report_connect-Holds fds pic_fd fd status

answer-Made :
    (rounds : ℕ) (config : Config) (pic_fd : ℕ) (fds : List ℕ) (c : Option ℕ)
    → Gives {X = Env} Anything
        (Made fds c)
        (case_option c (send_result pic_fd result_bad) (connect_client rounds config pic_fd))
        (λ _. Balanced fds)
unfolding case_option
answer-Made rounds config pic_fd fds none = report_failed fds pic_fd result_bad
answer-Made rounds config pic_fd fds (some fd) =
    Gives-into (λ _ log h. inl h) (connect_client-Holds rounds config pic_fd fd fds)

serve_connect-Gives :
    (rounds : ℕ) (config : Config) (pic_fd : ℕ) (fds : List ℕ)
    → Gives {X = Env} Anything (Holds fds) (serve_connect rounds config pic_fd) (λ _. Balanced fds)
unfolding serve_connect
serve_connect-Gives rounds config pic_fd fds =
    Gives-bind _ _ (create_client-Made fds config.listen_address 20)
      λ c. answer-Made rounds config pic_fd fds c

-- Where no call is interrupted once the log has `n` events and there are more rounds than `n`,
-- `connect_in_actv` returns or exits, whatever its calls answer. Where it returns, the nobody
-- process holds the descriptors that it held before, the data connection being handed over or
-- given up; but when `setsockopt` or `bind` has failed on the new socket, which is the event right
-- before the result is sent, that socket is held too.
pub serve_connect-Balanced :
    (n rounds : ℕ) (env : Env) (config : Config) (pic_fd : ℕ) (fds : List ℕ) (log : Log)
    → IsCalm n env
    → n < rounds
    → held log ≡ fds
    → Comes (λ _. Balanced fds) (serve_connect rounds config pic_fd env log)
serve_connect-Balanced n rounds env config pic_fd fds log calm enough h =
    settled-Comes (serve_connect-Settles n rounds calm enough config pic_fd)
      (serve_connect-Gives rounds config pic_fd fds) log h
