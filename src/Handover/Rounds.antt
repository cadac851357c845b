-- ===== src/Handover/Rounds.antt =====
-- The rounds of the nobody process against the exchanges.
use mini_ftpd.Prelude.{ℕ, ◌≡◌, refl, arith, Option, some, List, ◌∷◌, ◌==◌, inl, inr}
use mini_ftpd.Config.Defs.{Config}
use mini_ftpd.Program.{pure, ◌>>◌, case_option}
use mini_ftpd.Program.Triple.{
  Gives, Gives-pure, Gives-if, Gives-bind, Gives-case_option, Gives-into, Anything,
}
use mini_ftpd.Ftp.Data.{connect_in_actv, accept_in_pasv, listen_in_pasv, result_ok, result_bad}
use mini_ftpd.System.Create.Steady.{create_server-Steady}
use mini_ftpd.System.Calls.{Call, Answer, Log, Env, call}
use mini_ftpd.System.Timeout.Defs.{Status}
use mini_ftpd.System.Timeout.Steady.{connect_with_timeout-Steady}
use mini_ftpd.System.Create.Defs.{get_local_addr}
use mini_ftpd.System.Nobody.Defs.{
  send_result, hand_over, report_connect, connect_client, serve_connect, serve_listen, serve_accept,
  serve_request,
}
use mini_ftpd.Handover.Spec.{
  Message, Exchange, active, passive, listening, stranded, ignored, transcript, behind, handed,
  refused, IsServed,
}
use mini_ftpd.Handover.Wire.{
  wire_after, wire, blind, Says, EndsAs, send_result-Says, write_port-Says, recv_addr-Says,
  send_fd-Says,
}
use mini_ftpd.Handover.Quiet.{
  Seen, neutral-Steady, server_call, create_client-Steady, server_blind, accept_with_timeout-Steady,
}

module _ (pic_fd : ℕ) where
  hand_over-Says :
      (fd : ℕ) (ms : List Message)
      → Says pic_fd ms
          (hand_over pic_fd fd)
          (λ _. Message.descriptor ∷ Message.result result_ok ∷ ms)
  unfolding hand_over
  hand_over-Says fd ms =
      Gives-bind _ _ (send_result-Says pic_fd result_ok ms) λ _. send_fd-Says pic_fd fd _

  report_connect-EndsAs :
      (fd : ℕ) (s : Status) (ms : List Message)
      → Gives {X = Env} Anything
          (Seen pic_fd ms)
          (report_connect pic_fd fd s)
          (λ _. EndsAs pic_fd ms)
  unfolding report_connect wire_after
  report_connect-EndsAs fd s ms =
      Gives-case_option s _ _
        (Gives-bind _ _ (hand_over-Says fd ms) λ _.
          Gives-bind (call _) _ (neutral-Steady pic_fd (Call.close (some fd)) (λ a s. refl) _)
            λ _. Gives-pure tt (λ log h. inl h))
        λ _.
          Gives-bind (call _) _ (neutral-Steady pic_fd (Call.close (some fd)) (λ a s. refl) ms)
            λ _. Gives-into (λ _ log h. inr h) (send_result-Says pic_fd result_bad ms)

  connect_client-EndsAs :
      (rounds : ℕ) (config : Config) (fd : ℕ) (ms : List Message)
      → Gives {X = Env} Anything
          (Seen pic_fd ms)
          (connect_client rounds config pic_fd fd)
          (λ _ log. (a : Answer) × EndsAs pic_fd (Message.address a.addr ∷ ms) log)
  unfolding connect_client
  connect_client-EndsAs rounds config fd ms = Gives-bind _ _ (recv_addr-Says pic_fd ms) λ a.
      Gives-bind _ _
        (connect_with_timeout-Steady (wire pic_fd) (blind pic_fd) rounds fd a.addr
          config.connect_timeout (Message.address a.addr ∷ ms))
        λ s. Gives-into (λ _ log h. (a, h)) (report_connect-EndsAs fd s _)

  -- An exchange that the nobody process may have, behind `ms`.
  abbrev pub Goes : List Message → Log → Type 0
  Goes ms log = (x : Exchange) × IsServed x × Seen pic_fd (behind (transcript x) ms) log

  answer_connect :
      (rounds : ℕ) (config : Config) (c : Option ℕ) (ms : List Message)
      → Gives {X = Env} Anything
          (Seen pic_fd (Message.command connect_in_actv ∷ ms))
          (case_option c (send_result pic_fd result_bad) (connect_client rounds config pic_fd))
          (λ _. Goes ms)
  answer_connect rounds config c ms =
      Gives-case_option c _ _
        (Gives-into (λ _ log h. (stranded, tt, h)) (send_result-Says pic_fd result_bad _))
        λ fd.
          Gives-into
            (λ _ log h. elim (h.1) [
              | inl e ↦ (active (h.0).addr handed, tt, e)
              | inr e ↦ (active (h.0).addr refused, tt, e)
            ])
            (connect_client-EndsAs rounds config fd _)

  pub serve_connect-Goes :
      (rounds : ℕ) (config : Config) (ms : List Message)
      → Gives {X = Env} Anything
          (Seen pic_fd (Message.command connect_in_actv ∷ ms))
          (serve_connect rounds config pic_fd)
          (λ _. Goes ms)
  unfolding serve_connect
  serve_connect-Goes rounds config ms =
      Gives-bind _ _ (create_client-Steady pic_fd config.listen_address 20 _)
        λ c. answer_connect rounds config c ms

  serve_listen-Goes :
      (config : Config) (ms : List Message)
      → Gives {X = Env} Anything
          (Seen pic_fd (Message.command listen_in_pasv ∷ ms))
          (serve_listen config pic_fd)
          (λ _. Goes ms)
  unfolding serve_listen get_local_addr wire_after
  serve_listen-Goes config ms =
      Gives-bind _ _ (create_server-Steady (wire pic_fd) (server_blind pic_fd) _ 0 _) λ fd.
        Gives-bind _ _
          (Gives-bind _ _ (server_call pic_fd (Call.getsockname fd) (λ a s. refl) _) λ a.
            Gives-pure {R = λ _. Seen pic_fd (Message.command listen_in_pasv ∷ ms)} a.addr
              (λ log h. h))
          λ addr.
            Gives-bind _ _ (write_port-Says pic_fd _ _)
              λ _. Gives-pure (some fd) (λ log h. (listening _, tt, h))

  answer_accept :
      (l c : Option ℕ) (ms : List Message)
      → Gives {X = Env} Anything
          (Seen pic_fd (Message.command accept_in_pasv ∷ ms))
          (case_option c (send_result pic_fd result_bad) λ fd.
            hand_over pic_fd fd
            >> (call (Call.close l) >> (call (Call.close (some fd)) >> pure tt)))
          (λ _. Goes ms)
  unfolding wire_after
  answer_accept l c ms =
      Gives-case_option c _ _
        (Gives-into (λ _ log h. (passive refused, tt, h)) (send_result-Says pic_fd result_bad _))
        λ fd. Gives-bind _ _ (hand_over-Says fd _) λ _.
          Gives-bind (call _) _ (neutral-Steady pic_fd (Call.close l) (λ a s. refl) _) λ _.
            Gives-bind (call _) _ (neutral-Steady pic_fd (Call.close (some fd)) (λ a s. refl) _)
              λ _. Gives-pure tt (λ log h. (passive handed, tt, h))

  serve_accept-Goes :
      (rounds : ℕ) (config : Config) (l : Option ℕ) (ms : List Message)
      → Gives {X = Env} Anything
          (Seen pic_fd (Message.command accept_in_pasv ∷ ms))
          (serve_accept rounds config pic_fd l)
          (λ _. Goes ms)
  unfolding serve_accept
  serve_accept-Goes rounds config l ms =
      Gives-bind _ _ (accept_with_timeout-Steady pic_fd rounds l _ _) λ c. answer_accept l c ms

  pub serve_request-Goes :
      (rounds : ℕ) (config : Config) (l : Option ℕ) (cmd : ℕ) (ms : List Message)
      → Gives {X = Env} Anything
          (Seen pic_fd (Message.command cmd ∷ ms))
          (serve_request rounds config pic_fd l cmd)
          (λ _. Goes ms)
  unfolding serve_request
  serve_request-Goes rounds config l cmd ms =
      Gives-if (cmd == connect_in_actv) _ _
        (λ is.
          let e : cmd ≡ connect_in_actv = ground arith in
          rw e
            (Gives-bind _ _ (serve_connect-Goes rounds config ms) λ _. Gives-pure l (λ log h. h)))
        λ no1.
          Gives-if (cmd == listen_in_pasv) _ _
            (λ is.
              let e : cmd ≡ listen_in_pasv = ground arith in rw e (serve_listen-Goes config ms))
            λ no2.
              Gives-if (cmd == accept_in_pasv) _ _
                (λ is.
                  let e : cmd ≡ accept_in_pasv = ground arith in
                  rw e (
                    Gives-bind _ _ (serve_accept-Goes rounds config l ms)
                      λ _. Gives-pure l (λ log h. h)))
                λ no3. Gives-pure l (λ log h. (ignored cmd, rw (no1, no2, no3) refl, h))
