-- ===== src/Handover/Spec.antt =====
-- The exchanges between the ftp process and the nobody process.
use mini_ftpd.Prelude.{ℕ, ◌≡◌, Bool, false, ◌&&◌, not, List, [], ◌∷◌, ⊤, ◌==◌}
use mini_ftpd.Session.Address.{SockAddr}
use mini_ftpd.Ftp.Data.{connect_in_actv, accept_in_pasv, listen_in_pasv, result_ok, result_bad}

-- What goes over the socket pair.
pub data Message : Type 0 where
  command result : ℕ → Message
  address : SockAddr → Message
  port : ℕ → Message
  descriptor : Message

-- How a request for a data connection is answered: the descriptor, a refusal, or a character that is
-- neither result.
pub data Ending : Type 0 where
  handed refused : Ending
  strange : ℕ → Ending

-- A data connection to an address, a data connection on the listening socket, a listening socket
-- and its port; a refusal that does not wait for the address; a command that is none of the three.
pub data Exchange : Type 0 where
  active : SockAddr → Ending → Exchange
  passive : Ending → Exchange
  listening : ℕ → Exchange
  stranded : Exchange
  ignored : ℕ → Exchange

abbrev pub ending : Ending → List Message
ending handed = Message.result result_ok ∷ Message.descriptor ∷ []
ending refused = Message.result result_bad ∷ []
ending (strange n) = Message.result n ∷ []

-- The messages, the first one first.
abbrev pub transcript : Exchange → List Message
transcript (active a e) = Message.command connect_in_actv ∷ Message.address a ∷ ending e
transcript (passive e) = Message.command accept_in_pasv ∷ ending e
transcript (listening p) = Message.command listen_in_pasv ∷ Message.port p ∷ []
transcript stranded = Message.command connect_in_actv ∷ Message.result result_bad ∷ []
transcript (ignored n) = Message.command n ∷ []

-- `xs`, of which the first is the oldest, on top of messages of which the first is the latest.
abbrev pub behind : List Message → List Message → List Message
behind [] ms = ms
behind (x ∷ xs) ms = behind xs (x ∷ ms)

-- The answers that the nobody process may give.
abbrev pub IsPlain : Ending → Type 0
IsPlain handed = ⊤
IsPlain refused = ⊤
IsPlain (strange n) = ⊥

abbrev pub is_command : ℕ → Bool
is_command n =
    not (not (n == connect_in_actv) && not (n == listen_in_pasv) && not (n == accept_in_pasv))

abbrev pub IsServed : Exchange → Type 0
IsServed (active a e) = IsPlain e
IsServed (passive e) = IsPlain e
IsServed (listening p) = ⊤
IsServed stranded = ⊤
IsServed (ignored n) = is_command n ≡ false
