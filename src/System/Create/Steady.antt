-- ===== src/System/Create/Steady.antt =====
-- `create_server_or_exit` under a view that does not show its calls.
use mini_ftpd.Prelude.{ℕ, Option}
use mini_ftpd.Text.Bytes.{Bytes}
use mini_ftpd.Session.Address.{SockAddr}
use mini_ftpd.System.Calls.{Call}
use mini_ftpd.System.View.{
  View, IsNeutral, Steady, bind-Steady, case_option-Steady, pure-Steady, call_or_exit-Steady,
}
use mini_ftpd.System.Create.Defs.{host_addr, create_server_or_exit}

-- The calls that make a server.
pub record IsServerBlind (v : View) : Type 0 where
  pub socket : IsNeutral v Call.socket
  pub inet_aton : (ip : Bytes) → IsNeutral v (Call.inet_aton ip)
  pub reuse_addr : (fd : ℕ) → IsNeutral v (Call.reuse_addr fd)
  pub bind : (fd : ℕ) (addr : SockAddr) → IsNeutral v (Call.bind fd addr)
  pub listen : (fd : ℕ) → IsNeutral v (Call.listen fd)

module _ (v : View) (blind : IsServerBlind v) where
  host_addr-Steady : (host : Option Bytes) → Steady v (host_addr host)
  unfolding host_addr
  host_addr-Steady host = case_option-Steady v host _ _ (pure-Steady v _) λ ip.
      bind-Steady v _ _ (call_or_exit-Steady v _ (blind.inet_aton ip)) λ a. pure-Steady v a.addr

  pub create_server-Steady :
      (host : Option Bytes) (port : ℕ) → Steady v (create_server_or_exit host port)
  unfolding create_server_or_exit
  create_server-Steady host port = bind-Steady v _ _ (call_or_exit-Steady v _ blind.socket) λ s.
      bind-Steady v _ _ (host_addr-Steady host) λ addr.
        bind-Steady v _ _ (call_or_exit-Steady v _ (blind.reuse_addr s.value)) λ _.
          bind-Steady v _ _ (call_or_exit-Steady v _ (blind.bind s.value _)) λ _.
            bind-Steady v _ _ (call_or_exit-Steady v _ (blind.listen s.value))
              λ _. pure-Steady v s.value
