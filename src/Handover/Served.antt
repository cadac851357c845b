-- ===== src/Handover/Served.antt =====
-- What the ftp process sees of a round of the nobody process.
use mini_ftpd.Prelude.{
  ℕ, ◌≡◌, ◌<◌, refl, ap, sym, ◌∙◌, arith, Bool, true, false, Option, some, List, ◌∷◌, ◌==◌,
  if◌then◌else◌,
}
use mini_ftpd.Config.Defs.{Config}
use mini_ftpd.Program.Settles.{
  Comes, Settles, Settles-pure, Settles-bind, Comes-bind, Comes-if, Comes-exit, settled-Comes,
}
use mini_ftpd.Ftp.Data.{connect_in_actv, accept_in_pasv, listen_in_pasv}
use mini_ftpd.System.Calls.{Call, Log, Env, Proc, call}
use mini_ftpd.System.View.{viewed}
use mini_ftpd.System.Retry.{IsCalm}
use mini_ftpd.System.Nobody.Ends.{serve_connect-Settles, serve_listen-Settles, serve_accept-Settles}
use mini_ftpd.System.Nobody.Defs.{serve_request, serve_nobody_round}
use mini_ftpd.Handover.Spec.{Message, Exchange, transcript, behind, IsServed}
use mini_ftpd.Handover.Wire.{wire, get_char-Says}
use mini_ftpd.Handover.Quiet.{Seen}
use mini_ftpd.Handover.Rounds.{Goes, serve_request-Goes}

-- A listening socket, where the request needs one.
abbrev IsReady : ℕ → Option ℕ → Type 0
IsReady cmd l = cmd ≡ accept_in_pasv → (fd : ℕ) × (l ≡ some fd)

if_known-Settles :
    {A : Type 0} {env : Env} (b : Bool) (p q : Proc A)
    → (b ≡ true → Settles env p)
    → (b ≡ false → Settles env q)
    → Settles env (if b then p else q)
if_known-Settles true p q kp kq = kp refl
if_known-Settles false p q kp kq = kq refl

module _ (n rounds : ℕ) (env : Env) (config : Config) (pic_fd : ℕ) (calm : IsCalm n env)
    (enough : n < rounds) where
  serve_request-Settles :
      (l : Option ℕ) (cmd : ℕ)
      → IsReady cmd l
      → Settles env (serve_request rounds config pic_fd l cmd)
  unfolding serve_request
  serve_request-Settles l cmd ready =
      if_known-Settles (cmd == connect_in_actv) _ _
        (λ _.
          Settles-bind _ _ (serve_connect-Settles n rounds calm enough config pic_fd)
            λ _. Settles-pure l)
        λ _.
          if_known-Settles (cmd == listen_in_pasv) _ _ (λ _. serve_listen-Settles config pic_fd)
            λ _.
              if_known-Settles (cmd == accept_in_pasv) _ _
                (λ is.
                  let (fd, e) = ready (let same : cmd ≡ accept_in_pasv = ground arith in same) in
                  rw e (
                    Settles-bind _ _ (serve_accept-Settles n rounds calm enough config pic_fd fd)
                      λ _. Settles-pure (some fd)))
                λ _. Settles-pure l

  serve_request-Comes :
      (l : Option ℕ) (cmd : ℕ) (ms : List Message) (log : Log)
      → IsReady cmd l
      → Seen pic_fd (Message.command cmd ∷ ms) log
      → Comes (λ _. Goes pic_fd ms) (serve_request rounds config pic_fd l cmd env log)
  serve_request-Comes l cmd ms log ready h =
      settled-Comes (serve_request-Settles l cmd ready)
        (serve_request-Goes pic_fd rounds config l cmd ms) log h

get_char-Comes :
    (pic_fd : ℕ) (ms : List Message) (env : Env) (log : Log)
    → Seen pic_fd ms log
    → Comes
        (λ a log'.
          (a ≡ env log (Call.get_char pic_fd)) × Seen pic_fd (Message.command a.value ∷ ms) log')
        (call (Call.get_char pic_fd) env log)
unfolding call
get_char-Comes pic_fd ms env log h = (refl, (get_char-Says pic_fd ms).at env log h)

-- The nobody process keeps to the exchanges: where no call is interrupted once the log has `n`
-- events and there are more rounds than `n`, and where there is a listening socket if the command
-- that comes is `accept_in_pasv`, a round returns or exits, whatever its calls answer. Where it
-- returns, what it has said and heard is the transcript of one exchange; a request for a data
-- connection has been answered by a descriptor or by a refusal, which may come before the address.
pub serve_nobody_round-Goes :
    (n rounds : ℕ) (env : Env) (config : Config) (pic_fd : ℕ) (l : Option ℕ) (ms : List Message)
    (log : Log)
    → IsCalm n env
    → n < rounds
    → ((env log (Call.get_char pic_fd)).value ≡ accept_in_pasv → (fd : ℕ) × (l ≡ some fd))
    → viewed (wire pic_fd) log ≡ ms
    → Comes
        (λ _ log'.
          (x : Exchange) × IsServed x × (viewed (wire pic_fd) log' ≡ behind (transcript x) ms))
        (serve_nobody_round rounds config pic_fd l env log)
unfolding serve_nobody_round
serve_nobody_round-Goes n rounds env config pic_fd l ms log calm enough ready h =
    let cmd = Call.get_char pic_fd in
    Comes-bind (λ a log'. (a ≡ env log cmd) × Seen pic_fd (Message.command a.value ∷ ms) log')
      (λ _. Goes pic_fd ms) (call cmd) _ env log (get_char-Comes pic_fd ms env log h)
      λ a log' got.
        Comes-if (λ _. Goes pic_fd ms) (a.value == 0) _ _ env log'
          (λ _. Comes-exit (λ _. Goes pic_fd ms) 0 env log')
          (λ _.
            serve_request-Comes n rounds env config pic_fd calm enough l a.value ms log'
              (λ is. ready (ap (λ b. b.value) (sym got.0) ∙ is)) got.1)
