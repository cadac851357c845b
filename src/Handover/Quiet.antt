-- ===== src/Handover/Quiet.antt =====
-- The parts of the nobody process that say nothing to the ftp process.
use mini_ftpd.Prelude.{ℕ, ◌≡◌, refl, Option, none, some, List, ◌==◌}
use mini_ftpd.Text.Bytes.{Bytes}
use mini_ftpd.Program.Triple.{Gives-undefined, Gives-if}
use mini_ftpd.System.Calls.{Call, Answer, Log, call}
use mini_ftpd.System.View.{
  Sees, Steady, call-Steady, until_done-Steady, bind-Steady, if-Steady, pure-Steady,
  call_or_exit-Steady,
}
use mini_ftpd.System.Timeout.Defs.{accept_now, await_accept, accept_with_timeout}
use mini_ftpd.System.Create.Steady.{IsServerBlind}
use mini_ftpd.System.Create.Defs.{call_or_exit, bind_client, create_client}
use mini_ftpd.Handover.Spec.{Message}
use mini_ftpd.Handover.Wire.{wire_after, wire}

module _ (pic_fd : ℕ) where
  abbrev pub Seen : List Message → Log → Type 0
  Seen = Sees (wire pic_fd)

  pub neutral-Steady :
      (c : Call)
      → ((a : Answer) (ms : List Message) → wire_after pic_fd c a ms ≡ ms)
      → Steady (wire pic_fd) (call c)
  neutral-Steady c k = call-Steady (wire pic_fd) c k

  bind_client-Steady : (fd : ℕ) (ip : Bytes) (p : ℕ) → Steady (wire pic_fd) (bind_client fd ip p)
  unfolding bind_client wire_after
  bind_client-Steady fd ip p =
      bind-Steady (wire pic_fd) (call _) _ (neutral-Steady _ λ a s. refl) λ host.
        bind-Steady (wire pic_fd) (call _) _ (neutral-Steady _ λ a s. refl)
          λ b. pure-Steady (wire pic_fd) _

  pub create_client-Steady : (ip : Bytes) (p : ℕ) → Steady (wire pic_fd) (create_client ip p)
  unfolding create_client wire_after
  create_client-Steady ip p =
      bind-Steady (wire pic_fd) (call _) _ (neutral-Steady _ λ a s. refl) λ s.
        if-Steady (wire pic_fd) s.ok _ _
          (if-Steady (wire pic_fd) (p == 0) _ _ (pure-Steady (wire pic_fd) _) (
            bind-Steady (wire pic_fd) (call _) _ (neutral-Steady _ λ a s. refl) λ r.
              if-Steady (wire pic_fd) r.ok _ _ (bind_client-Steady s.value ip p)
                (pure-Steady (wire pic_fd) none)))
          (pure-Steady (wire pic_fd) none)

  pub server_call :
      (c : Call)
      → ((a : Answer) (ms : List Message) → wire_after pic_fd c a ms ≡ ms)
      → Steady (wire pic_fd) (call_or_exit c)
  server_call c k = call_or_exit-Steady (wire pic_fd) c k

  pub server_blind : IsServerBlind (wire pic_fd)
  unfolding wire_after
  server_blind = record {
    socket = λ _ _. refl;
    inet_aton = λ _ _ _. refl;
    reuse_addr = λ _ _ _. refl;
    bind = λ _ _ _ _. refl;
    listen = λ _ _ _. refl;
  }

  accept_now-Steady : (l : Option ℕ) → Steady (wire pic_fd) (accept_now l)
  unfolding accept_now wire_after
  accept_now-Steady l =
      bind-Steady (wire pic_fd) (call _) _ (neutral-Steady _ λ a s. refl)
        λ a. pure-Steady (wire pic_fd) _

  pub accept_with_timeout-Steady :
      (rounds : ℕ) (l : Option ℕ) (wait : ℕ)
      → Steady (wire pic_fd) (accept_with_timeout rounds l wait)
  unfolding accept_with_timeout await_accept wire_after
  accept_with_timeout-Steady rounds none wait ms =
      Gives-if (wait == 0) _ _ (λ _. accept_now-Steady none ms) (λ _. Gives-undefined (λ _ _. tt))
  accept_with_timeout-Steady rounds (some fd) wait ms =
      let w = wire pic_fd in
      if-Steady w (wait == 0) _ _ (accept_now-Steady (some fd))
        (bind-Steady w _ _ (until_done-Steady w rounds _ λ a s. refl) λ s.
          if-Steady w s.ok _ _
            (if-Steady w (s.value == 0) _ _ (pure-Steady w none) (accept_now-Steady (some fd)))
            (pure-Steady w none))
        ms
