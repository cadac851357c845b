-- ===== src/Ftp/Gate/Quiet.antt =====
-- Properties that a call keeps which does not touch files.
use mini_ftpd.Prelude.{false, some, ◌≡◌, refl}
use mini_ftpd.Text.Bytes.{Bytes}
use mini_ftpd.Ftp.Proc.{Call, Event, Machine, get_session, call, reply}
use mini_ftpd.Ftp.Triple.{after, Gives, Gives-pure, Gives-bind, Gives-get_session, Gives-call}
use mini_ftpd.Ftp.Gate.Defs.{touches_files}

pub record OfQuiet (P : Machine → Type 0) : Type 0 where
  pub after_quiet : (e : Event) (m : Machine) → touches_files e.call ≡ false → P m → P (after e m)

module _ {E P : Machine → Type 0} (q : OfQuiet P) where
  pub Gives-quiet : (c : Call) → touches_files c ≡ false → Gives E P (call c) (λ _ m. P m)
  Gives-quiet c e = Gives-call c (λ m a h. q.after_quiet (record { call = c; answer = a }) m e h)

  pub Gives-reply : (t : Bytes) → Gives E P (reply t) (λ _ m. P m)
  unfolding reply touches_files
  Gives-reply t = Gives-bind get_session _ Gives-get_session λ s.
      Gives-bind _ _
        (record {
          at = λ env m h. (Gives-quiet (Call.write_n (some s.control_fd) _) refl).at env m h.0;
        })
        λ _. Gives-pure tt (λ m h. h)
