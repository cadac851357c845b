-- ===== src/System/Nobody/Passive.antt =====
-- The descriptors of the nobody process over a passive data connection.
use mini_ftpd.Prelude.{
  ==_self, ℕ, ◌<◌, ◌≡◌, ◌⊎◌, refl, ◌∙◌, arith, Option, none, some, List, [], ◌∷◌, ◌==◌, inl, inr,
  Bool-cases,
}
use mini_ftpd.Text.Bytes.{Bytes}
use mini_ftpd.Config.Defs.{Config}
use mini_ftpd.Program.{pure, exit, ◌>>=◌, ◌>>◌, case_option}
use mini_ftpd.Program.Triple.{
  Gives, Gives-pure, Gives-exit, Gives-if, Gives-bind, Gives-case_option, Gives-into, Anything,
}
use mini_ftpd.Ftp.Data.{result_bad}
use mini_ftpd.System.Calls.{Call, Log, Env, Proc, call}
use mini_ftpd.System.Retry.{IsCalm, Gives-call}
use mini_ftpd.System.Timeout.Defs.{accept_now, await_accept, accept_with_timeout}
use mini_ftpd.System.Create.Defs.{call_or_exit}
use mini_ftpd.System.Held.{remove, held_after, held_view, held, Holds}
use mini_ftpd.System.View.{
  viewed, Steady, call-Steady, until_done-Steady, bind-Steady, pure-Steady, call_or_exit-Steady,
}
use mini_ftpd.Program.Settles.{Comes, settled-Comes}
use mini_ftpd.System.Nobody.Defs.{send_result, hand_over, serve_accept}
use mini_ftpd.Program.Settles.{Comes-bind}
use mini_ftpd.System.Timeout.Defs.{accept_now}
use mini_ftpd.System.Create.Defs.{host_addr, create_server_or_exit, get_local_addr}
use mini_ftpd.System.Nobody.Defs.{serve_listen, serve_accept}
use mini_ftpd.System.Nobody.Ends.{serve_listen-Settles, serve_accept-Settles}
use mini_ftpd.System.Nobody.Descriptors.{
  hand_over-Steady, close-Gives, Opened-ok, Opened-bad, socket-Gives, accept-Gives,
}

-- A listening socket on top of what was held.
abbrev pub Listening : List ℕ → Option ℕ → Log → Type 0
Listening fds none log = ⊥
Listening fds (some fd) log = Holds (fd ∷ fds) log

host_addr-Steady : (host : Option Bytes) → Steady held_view (host_addr host)
unfolding host_addr held_after
host_addr-Steady host fds = Gives-case_option host _ _ (pure-Steady held_view _ fds) λ ip.
    bind-Steady held_view _ _ (call_or_exit-Steady held_view _ λ a fds. refl)
      (λ a. pure-Steady held_view a.addr) fds

get_local_addr-Steady : (fd : ℕ) → Steady held_view (get_local_addr fd)
unfolding get_local_addr held_after
get_local_addr-Steady fd =
    bind-Steady held_view _ _ (call_or_exit-Steady held_view _ λ a fds. refl)
      λ a. pure-Steady held_view a.addr

pub create_server-Gives :
    (host : Option Bytes) (port : ℕ) (fds : List ℕ)
    → Gives {X = Env} Anything
        (Holds fds)
        (create_server_or_exit host port)
        (λ fd. Holds (fd ∷ fds))
unfolding create_server_or_exit call_or_exit held_after
create_server-Gives host port fds =
    Gives-bind _ _
      (Gives-bind (call Call.socket) _ (socket-Gives fds) λ s.
        Gives-if s.ok (pure s) (exit 1)
          (λ ok. Gives-pure {R = λ s. Holds (s.value ∷ fds)} s (λ log h. Opened-ok fds s log ok h))
          (λ _. Gives-exit 1 (λ _ _. tt)))
      λ s. Gives-bind _ _ (host_addr-Steady host (s.value ∷ fds)) λ addr.
        Gives-bind _ _ (call_or_exit-Steady held_view _ (λ a fds. refl) (s.value ∷ fds)) λ _.
          Gives-bind _ _ (call_or_exit-Steady held_view _ (λ a fds. refl) (s.value ∷ fds)) λ _.
            Gives-bind _ _ (call_or_exit-Steady held_view _ (λ a fds. refl) (s.value ∷ fds))
              λ _. Gives-pure s.value (λ log h. h)

serve_listen-Gives :
    (config : Config) (pic_fd : ℕ) (fds : List ℕ)
    → Gives {X = Env} Anything (Holds fds) (serve_listen config pic_fd) (Listening fds)
unfolding serve_listen held_after
serve_listen-Gives config pic_fd fds = Gives-bind _ _ (create_server-Gives _ 0 fds) λ fd.
    Gives-bind _ _ (get_local_addr-Steady fd (fd ∷ fds)) λ addr.
      Gives-bind (call _) _ (call-Steady held_view _ (λ a fds. refl) (fd ∷ fds))
        λ _. Gives-pure (some fd) (λ log h. h)

-- The event on top is the result.
abbrev pub HasSent : ℕ → ℕ → Log → Type 0
HasSent pic_fd result [] = ⊥
HasSent pic_fd result (e ∷ log) = e.call ≡ Call.send_char pic_fd result

-- The listening socket is closed, or a failure has been reported and it is not.
abbrev pub Answered : ℕ → ℕ → List ℕ → Log → Type 0
Answered pic_fd fd fds log = Holds fds log ⊎ (Holds (fd ∷ fds) log × HasSent pic_fd result_bad log)

abbrev Accepted : List ℕ → Option ℕ → Log → Type 0
Accepted fds none log = Holds fds log
Accepted fds (some fd) log = Holds (fd ∷ fds) log

accept_now-Gives :
    (l : Option ℕ) (fds : List ℕ)
    → Gives {X = Env} Anything (Holds fds) (accept_now l) (Accepted fds)
unfolding accept_now
accept_now-Gives l fds = Gives-bind (call _) _ (accept-Gives l fds) λ a. Gives-pure _ (λ log h.
    elim (Bool-cases a.ok) [
      | inl ok ↦ rw ok (Opened-ok fds a log ok h)
      | inr bad ↦ rw bad (Opened-bad fds a log bad h)
    ])

accept_with_timeout-Gives :
    (rounds fd wait : ℕ) (fds : List ℕ)
    → Gives {X = Env} Anything
        (Holds fds)
        (accept_with_timeout rounds (some fd) wait)
        (Accepted fds)
unfolding accept_with_timeout await_accept held_after
accept_with_timeout-Gives rounds fd wait fds =
    Gives-if (wait == 0) _ _ (λ _. accept_now-Gives (some fd) fds)
      (λ _. Gives-bind _ _ (until_done-Steady held_view rounds _ (λ a fds. refl) fds) λ s.
        Gives-if s.ok _ _
          (λ _.
            Gives-if (s.value == 0) _ _ (λ _. Gives-pure none (λ log h. h))
              (λ _. accept_now-Gives (some fd) fds))
          (λ _. Gives-pure none (λ log h. h)))

-- Closing the listening socket, then the connection that came after it.
remove-both : (new fd : ℕ) (fds : List ℕ) → remove new (remove fd (new ∷ fd ∷ fds)) ≡ fds
unfolding remove
remove-both new fd fds = elim (Bool-cases (new == fd)) [
  | inl same ↦ rw same (let e : fd ≡ new = ground arith in rw (e, ==_self new) refl)
  | inr other ↦ rw (other, ==_self fd, ==_self new) refl
]

answer_accept :
    (pic_fd fd : ℕ) (fds : List ℕ) (c : Option ℕ)
    → Gives {X = Env} Anything
        (Accepted (fd ∷ fds) c)
        (case_option c (send_result pic_fd result_bad) λ new.
          hand_over pic_fd new
          >> (call (Call.close (some fd)) >> (call (Call.close (some new)) >> pure tt)))
        (λ _. Answered pic_fd fd fds)
unfolding case_option send_result viewed held_after
answer_accept pic_fd fd fds none =
    Gives-bind (call _) _
      (Gives-call {R = λ _. Answered pic_fd fd fds} _ (λ log a h. inr (h, refl)))
      λ _. Gives-pure tt (λ log h. h)
answer_accept pic_fd fd fds (some new) =
    Gives-bind _ _ (hand_over-Steady pic_fd new (new ∷ fd ∷ fds)) λ _.
      Gives-bind (call _) _ (close-Gives fd (new ∷ fd ∷ fds)) λ _.
        Gives-bind (call _) _ (close-Gives new (remove fd (new ∷ fd ∷ fds)))
          λ _. Gives-pure tt (λ log h. inl (h ∙ remove-both new fd fds))

serve_accept-Gives :
    (rounds : ℕ) (config : Config) (pic_fd fd : ℕ) (fds : List ℕ)
    → Gives {X = Env} Anything
        (Holds (fd ∷ fds))
        (serve_accept rounds config pic_fd (some fd))
        (λ _. Answered pic_fd fd fds)
unfolding serve_accept
serve_accept-Gives rounds config pic_fd fd fds =
    Gives-bind _ _ (accept_with_timeout-Gives rounds fd _ (fd ∷ fds))
      λ c. answer_accept pic_fd fd fds c

after_listen :
    {B : Type 0} (fds : List ℕ) (S : B → Log → Type 0) (q : Option ℕ → Proc B) (env : Env)
    → ((fd : ℕ) (log : Log) → Holds (fd ∷ fds) log → Comes S (q (some fd) env log))
    → (l : Option ℕ) (log : Log) → Listening fds l log
    → Comes S (q l env log)
after_listen fds S q env k none log h = absurd h
after_listen fds S q env k (some fd) log h = k fd log h

-- Where no call is interrupted once the log has `n` events and there are more rounds than `n`, a
-- `listen_in_pasv` and the `accept_in_pasv` behind it return or exit, whatever their calls answer.
-- Where they return, the nobody process holds the descriptors that it held before; or the last
-- event sends the result for a failure, and the listening socket is held too.
pub serve_passive-Answered :
    (n rounds : ℕ) (env : Env) (config : Config) (pic_fd : ℕ) (fds : List ℕ) (log : Log)
    → IsCalm n env
    → n < rounds
    → held log ≡ fds
    → Comes
        (λ _ log'. (fd : ℕ) × Answered pic_fd fd fds log')
        ((serve_listen config pic_fd >>= λ fd. serve_accept rounds config pic_fd fd) env log)
serve_passive-Answered n rounds env config pic_fd fds log calm enough h =
    Comes-bind (Listening fds) _ (serve_listen config pic_fd) (serve_accept rounds config pic_fd)
      env log
      (settled-Comes (serve_listen-Settles config pic_fd) (serve_listen-Gives config pic_fd fds) log
        h)
      (after_listen fds (λ _ l. (fd : ℕ) × Answered pic_fd fd fds l)
        (serve_accept rounds config pic_fd) env
        λ fd log' listening.
          settled-Comes {env = env} {R = λ _ l. (fd : ℕ) × Answered pic_fd fd fds l}
            (serve_accept-Settles n rounds calm enough config pic_fd fd)
            (Gives-into (λ _ log a. (fd, a)) (serve_accept-Gives rounds config pic_fd fd fds)) log'
            listening)

-- A second `listen_in_pasv` leaves the first socket open, and forgets it.
pub serve_listen-again :
    (env : Env) (config : Config) (pic_fd : ℕ) (fds : List ℕ) (log : Log)
    → held log ≡ fds
    → Comes
        (λ fd log'. (old : ℕ) × Listening (old ∷ fds) fd log')
        ((serve_listen config pic_fd >> serve_listen config pic_fd) env log)
serve_listen-again env config pic_fd fds log h =
    Comes-bind (Listening fds) _ (serve_listen config pic_fd) (λ _. serve_listen config pic_fd) env
      log
      (settled-Comes (serve_listen-Settles config pic_fd) (serve_listen-Gives config pic_fd fds) log
        h)
      (after_listen fds (λ fd l. (old : ℕ) × Listening (old ∷ fds) fd l)
        (λ _. serve_listen config pic_fd) env
        λ old log' listening.
          settled-Comes {env = env} {R = λ fd l. (old : ℕ) × Listening (old ∷ fds) fd l}
            (serve_listen-Settles config pic_fd)
            (Gives-into (λ _ log a. (old, a)) (serve_listen-Gives config pic_fd (old ∷ fds))) log'
            listening)
