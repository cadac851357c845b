-- ===== src/Handover/Asked.antt =====
-- `establish_transfer` of ftp_protocol.cpp and its ends.
use mini_ftpd.Prelude.{refl}
use mini_ftpd.Program.Settles.{Comes, settled-Comes}
use mini_ftpd.Ftp.Proc.{Env, Machine}
use mini_ftpd.Ftp.Data.{establish_transfer}
use mini_ftpd.Ftp.Ends.{establish_transfer-Settles}
use mini_ftpd.Handover.Client.{said, Asks, establish_transfer-Gives}

-- The ftp process keeps to the exchanges. `establish_transfer` returns or exits, in any session and
-- whatever its calls answer. Where it returns, it has said nothing and fails, which takes both modes
-- on or both off; or what it has said and heard is the transcript of one exchange: with PORT on, one
-- for a connection to the address of the session; with PASV on, one for a connection on the
-- listening socket.
-- It succeeds there just where the answer is not a refusal.
pub establish_transfer-Asks :
    (env : Env) (m : Machine)
    → Comes (Asks m.session (said m.session.pic_fd m.log)) (establish_transfer env m)
establish_transfer-Asks env m =
    settled-Comes establish_transfer-Settles
      (establish_transfer-Gives m.session (said m.session.pic_fd m.log)) m (refl, refl)
