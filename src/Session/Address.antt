-- ===== src/Session/Address.antt =====
-- The address of a PORT command: `struct sockaddr_in`, byte by byte in memory order.
use mini_ftpd.Prelude.{ℕ}

pub record SockAddr : Type 0 where
  pub family : ℕ
  pub addr0 : ℕ
  pub addr1 : ℕ
  pub addr2 : ℕ
  pub addr3 : ℕ
  pub port_hi : ℕ
  pub port_lo : ℕ

-- `struct sockaddr_in port_addr{}`.
abbrev pub no_addr : SockAddr
no_addr = record {
  family = 0;
  addr0 = 0;
  addr1 = 0;
  addr2 = 0;
  addr3 = 0;
  port_hi = 0;
  port_lo = 0;
}

-- `PF_INET`.
abbrev pub pf_inet : ℕ
pf_inet = 2
