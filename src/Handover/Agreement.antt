-- ===== src/Handover/Agreement.antt =====
-- The exchanges as both processes of ftp_protocol.cpp see them.
use mini_ftpd.Prelude.{ℕ, suc, ◌≡◌, Bool, true, false, List, [], ◌∷◌}
use mini_ftpd.Config.Defs.{Config}
use mini_ftpd.System.Calls.{Env as NobodyEnv}
use mini_ftpd.Ftp.Proc.{Env}
use mini_ftpd.Session.Defs.{Session}
use mini_ftpd.Handover.Spec.{
  Message, handed, Exchange, active, passive, transcript, behind, IsServed,
}
use mini_ftpd.Handover.Client.{IsAsked}

-- A descriptor has been handed over.
abbrev pub is_handed : Exchange → Bool
is_handed (active a handed) = true
is_handed (passive handed) = true
is_handed _ = false

-- The command that a transcript begins with.
abbrev first_command : List Message → ℕ
first_command (Message.command n ∷ ms) = n
first_command ms = 0

abbrev length : List Message → ℕ
length [] = 0
length (x ∷ xs) = suc (length xs)

-- What a round of the nobody process and `establish_transfer` have come to.
abbrev pub Agrees : Session → Bool → List Message → List Message → Type 0
Agrees s up ms after =
    (x : Exchange) × IsServed x
    × IsAsked s up x
    × (up ≡ is_handed x)
    × (after ≡ behind (transcript x) ms)
