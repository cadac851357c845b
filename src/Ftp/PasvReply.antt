-- ===== src/Ftp/PasvReply.antt =====
-- The reply to PASV of ftp_protocol.cpp against the parser of PORT in session.cpp.
use mini_ftpd.Prelude.{
  ℕ, ◌+◌, ◌*◌, ◌/◌, ◌%◌, ◌<◌, ◌≡◌, refl, arith, List, [], ◌∷◌, ◌++◌, length, All,
}
use mini_ftpd.Text.Bytes.{Bytes, codes}
use mini_ftpd.Session.Defs.{Session}
use mini_ftpd.Session.Port.Defs.{get_port_addr}
use mini_ftpd.Session.Port.RoundTrip.{commas, get_port_addr-commas}
use mini_ftpd.Ftp.Data.{pasv_text}

-- The text between the parentheses of the reply to PASV, for four byte values and a 16-bit port, is
-- an argument of PORT: `get_port_addr` reads these four bytes back from it, whatever its array
-- held, and two bytes that are the port with the high one first.
pub pasv_text-get_port_addr :
    (memory : List ℕ) (s : Session) (h0 h1 h2 h3 port : ℕ)
    → length memory ≡ 6
    → All (λ n. n < 256) (h0 ∷ h1 ∷ h2 ∷ h3 ∷ [])
    → port < 65536
    → (body : Bytes) × (pasv_text (h0 ∷ h1 ∷ h2 ∷ h3 ∷ []) port
        ≡ codes "227 Entering Passive Mode (" ++ (body ++ codes ")."))
      × (let a = (get_port_addr memory (record s { arg = body })).port_addr in
          (a.addr0 ≡ h0)
          × (a.addr1 ≡ h1)
          × (a.addr2 ≡ h2)
          × (a.addr3 ≡ h3)
          × (a.port_hi * 256 + a.port_lo ≡ port))
unfolding pasv_text
pasv_text-get_port_addr memory s h0 h1 h2 h3 port six bytes small =
    let fields = h0 ∷ h1 ∷ h2 ∷ h3 ∷ (port / 256) ∷ (port % 256) ∷ [] in
    let s' : Session = record s { arg = commas fields } in
    let back =
      get_port_addr-commas memory s' h0 h1 h2 h3 (port / 256) (port % 256) six
        (bytes.0, (bytes.1.0, (bytes.1.1.0, (bytes.1.1.1.0, (omega arith, (omega arith, tt))))))
        refl in
    (commas fields, refl, rw back (refl, refl, refl, refl, omega arith))
