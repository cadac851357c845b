-- ===== src/System/Create/Defs.antt =====
-- `create_client_or_exit`, `create_client`, `create_server_or_exit`, `get_local_addr`,
-- `get_peer_addr`, `get_first_local_ip`, `get_local_ip` and `activate_OutOfBind` of
-- socket/block_socket.cpp.
use mini_ftpd.Prelude.{
  ℕ, ◌+◌, ◌*◌, ◌/◌, ◌%◌, Option, none, some, [], ◌∷◌, ◌++◌, ⊤, ◌==◌, if◌then◌else◌,
}
use mini_ftpd.Text.Bytes.{Bytes}
use mini_ftpd.Text.Decimal.{print_u}
use mini_ftpd.Session.Address.{SockAddr, no_addr, pf_inet}
use mini_ftpd.Program.{pure, exit, ◌>>=◌, ◌>>◌, case_option}
use mini_ftpd.System.Calls.{Call, Answer, Proc, call}

-- `if (ret == -1) { exit(EXIT_FAILURE); }`.
unfoldable pub call_or_exit : Call → Proc Answer
call_or_exit c = do a ← call c; if a.ok then pure a else exit 1

-- `sin_port = htons(port)` and `sin_addr` behind the family.
unfoldable pub with_port : SockAddr → ℕ → SockAddr
with_port host port = record host {
  family = pf_inet;
  port_hi = port / 256 % 256;
  port_lo = port % 256;
}

-- `ntohs(sin_port)`.
unfoldable pub port_of : SockAddr → ℕ
port_of a = a.port_hi * 256 + a.port_lo

-- `inet_ntoa`.
unfoldable pub dotted : SockAddr → Bytes
dotted a =
    print_u a.addr0 ++ (46 ∷ print_u a.addr1 ++ (46 ∷ print_u a.addr2 ++ (46 ∷ print_u a.addr3)))

-- The address of `eth0`. A failing `ioctl` is not looked at, and leaves the zeros of `ireq`; `none`
-- leaves `ip` as it was.
unfoldable pub get_local_ip : Proc (Option Bytes)
get_local_ip = do
  s ← call Call.socket
  if s.ok
      then (do
        a ← call (Call.interface_address s.value)
        call (Call.close (some s.value))
        pure (some (dotted (if a.ok then a.addr else no_addr))))
      else pure none

unfoldable pub get_first_local_ip : Proc Bytes
get_first_local_ip = do
  name ← call_or_exit Call.gethostname
  host ← call_or_exit (Call.gethostbyname name.text)
  pure (dotted host.addr)

-- The text that `get_local_ip` has left in 16 zero bytes.
abbrev pub ip_text : Option Bytes → Bytes
ip_text none = []
ip_text (some ip) = ip

unfoldable pub create_client_or_exit : ℕ → Proc ℕ
create_client_or_exit port = do
  s ← call_or_exit Call.socket
  if port == 0 then pure s.value else (do
    call_or_exit (Call.reuse_addr s.value)
    ip ← get_local_ip
    host ← call (Call.inet_addr (ip_text ip))
    call_or_exit (Call.bind s.value (with_port host.addr port))
    pure s.value)

-- Behind `setsockopt`.
unfoldable pub bind_client : ℕ → Bytes → ℕ → Proc (Option ℕ)
bind_client fd ip port = do
  host ← call (Call.inet_addr ip)
  b ← call (Call.bind fd (with_port host.addr port))
  pure (if b.ok then some fd else none)

-- The result -1 behind a failing `setsockopt` or `bind` leaves the socket open.
unfoldable pub create_client : Bytes → ℕ → Proc (Option ℕ)
create_client ip port = do
  s ← call Call.socket
  if s.ok
      then (if port == 0 then pure (some s.value) else (do
        r ← call (Call.reuse_addr s.value)
        if r.ok then bind_client s.value ip port else pure none))
      else pure none

-- The address of `host`; NULL stands for any address.
unfoldable pub host_addr : Option Bytes → Proc SockAddr
host_addr host =
    case_option host (pure no_addr) λ ip. call_or_exit (Call.inet_aton ip) >>= λ a. pure a.addr

unfoldable pub create_server_or_exit : Option Bytes → ℕ → Proc ℕ
create_server_or_exit host port = do
  s ← call_or_exit Call.socket
  addr ← host_addr host
  call_or_exit (Call.reuse_addr s.value)
  call_or_exit (Call.bind s.value (with_port addr port))
  call_or_exit (Call.listen s.value)
  pure s.value

unfoldable pub get_local_addr : ℕ → Proc SockAddr
get_local_addr fd = do a ← call_or_exit (Call.getsockname fd); pure a.addr

unfoldable pub get_peer_addr : ℕ → Proc SockAddr
get_peer_addr fd = do a ← call_or_exit (Call.getpeername fd); pure a.addr

unfoldable pub activate_out_of_band : ℕ → Proc ⊤
activate_out_of_band fd = do call_or_exit (Call.out_of_band_inline fd); pure tt
