-- ===== src/Session/Defs.antt =====
-- `struct Session` of session.h: what an ftp process keeps for its client.
use mini_ftpd.Prelude.{ℕ, Bool, false, Option, none, []}
use mini_ftpd.Prelude.Int.{ℤ, pos}
use mini_ftpd.Text.Bytes.{Bytes}
use mini_ftpd.Session.Address.{SockAddr, no_addr}

-- File descriptors are `none` where the source stores -1.
pub record Session : Type 0 where
  pub cmd : Bytes
  pub arg : Bytes
  pub logged_in : Bool
  pub active_port : Bool
  pub port_addr : SockAddr
  pub active_pasv : Bool
  pub control_fd : ℕ
  pub data_fd : Option ℕ
  pub pic_fd : ℕ
  pub ascii_mode : Bool
  pub uid : Option ℕ
  pub restart_position : ℤ
  pub rnfr_name : Bytes
  pub received_abor : Bool

-- `Session::Session(conn_fd, pic)`.
unfoldable pub new_session : ℕ → ℕ → Session
new_session conn_fd pic = record {
  cmd = [];
  arg = [];
  logged_in = false;
  active_port = false;
  port_addr = no_addr;
  active_pasv = false;
  control_fd = conn_fd;
  data_fd = none;
  pic_fd = pic;
  ascii_mode = false;
  uid = none;
  restart_position = pos 0;
  rnfr_name = [];
  received_abor = false;
}
