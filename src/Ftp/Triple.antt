-- ===== src/Ftp/Triple.antt =====
-- What holds before and behind the steps of the ftp process.
use mini_ftpd.Prelude.{◌∷◌, ⊤, ◌≡◌, refl}
pub use mini_ftpd.Program.Triple.{
  Ends, Gives, Gives-pure, Gives-exit, Gives-unfinished, Gives-undefined, Gives-if, Gives-bind,
  Gives-case_option, Gives-from, Gives-into, Anything, Gives-then,
}
use mini_ftpd.Session.Defs.{Session}
use mini_ftpd.Ftp.Proc.{Call, Answer, Event, Machine, call, get_session, get_config, put_session}

-- The log with one more event on top.
abbrev pub after : Event → Machine → Machine
after e m = record m { log = e ∷ m.log }

module _ {E P : Machine → Type 0} where
  -- The value read is the session of the machine.
  pub Gives-get_session : Gives E P get_session (λ s m. P m × (s ≡ m.session))
  unfolding get_session
  Gives-get_session = record { at = λ env m h. (h, refl) }

  pub Gives-get_config : Gives E P get_config (λ _ m. P m)
  unfolding get_config
  Gives-get_config = record { at = λ env m h. h }

  pub Gives-call :
      {R : Answer → Machine → Type 0} (c : Call)
      → ((m : Machine) (a : Answer) → P m → R a (after (record { call = c; answer = a }) m))
      → Gives E P (call c) R
  unfolding call
  Gives-call c k = record { at = λ env m h. k m (env m.log c) h }

  pub Gives-put_session :
      {R : ⊤ → Machine → Type 0} (s : Session)
      → ((m : Machine) → P m → R tt (record m { session = s }))
      → Gives E P (put_session s) R
  unfolding put_session
  Gives-put_session s k = record { at = λ env m h. k m h }
