-- ===== src/Session/Port/Defs.antt =====
-- `Session::get_port_addr` of session.cpp.
use mini_ftpd.Prelude.{ℕ, ◌+◌, ◌%◌, List, [], ◌∷◌, true, get_or, leb, if◌then◌else◌}
use mini_ftpd.Text.Stream.{IStream, open_stream, read_unsigned, ignore}
use mini_ftpd.Session.Defs.{Session}
use mini_ftpd.Session.Address.{SockAddr, pf_inet}

-- The loop over `v[i]`, whose memory holds `olds` before it is written. The message of a missing
-- field goes to stderr and changes nothing.
unfoldable pub read_fields : ℕ → List ℕ → IStream → List ℕ
unfolding read_unsigned ignore
read_fields i [] ss = []
read_fields i (old ∷ olds) ss =
    let (v, ss') = read_unsigned old ss in
    v ∷ read_fields (i + 1) olds (if leb i 4 then ignore ss' else ss')

-- The bytes stored through `unsigned char*`.
unfoldable pub addr_of : List ℕ → SockAddr
addr_of v = record {
  family = pf_inet;
  addr0 = get_or v 0 0 % 256;
  addr1 = get_or v 1 0 % 256;
  addr2 = get_or v 2 0 % 256;
  addr3 = get_or v 3 0 % 256;
  port_hi = get_or v 4 0 % 256;
  port_lo = get_or v 5 0 % 256;
}

-- `unsigned int v[6]` is not initialised: its six old values are an argument.
unfoldable pub get_port_addr : List ℕ → Session → Session
unfolding read_fields addr_of
get_port_addr memory s = record s {
  port_addr = addr_of (read_fields 0 memory (open_stream s.arg));
  active_port = true;
}
