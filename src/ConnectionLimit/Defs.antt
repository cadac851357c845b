-- ===== src/ConnectionLimit/Defs.antt =====
-- The counters of connection_limit.cpp. The hash tables are functions into `Option`.
use mini_ftpd.Prelude.{ℕ, ◌+◌, ◌-◌, ◌%◌, ◌&&◌, Option, none, some, ltb, ◌==◌, if◌then◌else◌}
use mini_ftpd.Config.Defs.{Config}

-- `unordered_map` with numbers as keys.
abbrev pub Table : Type 0
Table = ℕ → Option ℕ

abbrev pub put : ℕ → ℕ → Table → Table
put k v t j = if k == j then some v else t j

abbrev pub erase : ℕ → Table → Table
erase k t j = if k == j then none else t j

-- `t[k]` of a value: a missing key is inserted with 0.
abbrev pub value_or_zero : Option ℕ → ℕ
value_or_zero none = 0
value_or_zero (some v) = v

-- `size_t`.
abbrev pub size_mod : ℕ
size_mod = 18446744073709551616

pub record Tables : Type 0 where
  pub client_count : ℕ
  pub ip2conncount : Table
  pub pid2ip : Table

abbrev pub empty_tables : Tables
empty_tables = record { client_count = 0; ip2conncount = λ _. none; pid2ip = λ _. none }

unfoldable pub increase_connection : ℕ → Tables → Tables
increase_connection ip t = record t {
  client_count = (t.client_count + 1) % size_mod;
  ip2conncount = put ip (value_or_zero (t.ip2conncount ip) + 1) t.ip2conncount;
}

-- The middle of `decrease_connection`: what becomes of the counter of `ip`.
unfoldable pub decrease_ip : ℕ → Option ℕ → Table → Table
decrease_ip ip none t = t
decrease_ip ip (some n) t = if n == 0 then t else if n == 1 then erase ip t else put ip (n - 1) t

-- With the entry of `pid`. Without one the source prints a message, and then reads through the
-- iterator `end()`: undefined behaviour, `none` here.
unfoldable pub decrease_found : ℕ → Option ℕ → Tables → Option Tables
unfolding decrease_ip
decrease_found pid none t = none
decrease_found pid (some ip) t = some (record {
  client_count = (t.client_count + (size_mod - 1)) % size_mod;
  ip2conncount = decrease_ip ip (t.ip2conncount ip) t.ip2conncount;
  pid2ip = erase pid t.pid2ip;
})

unfoldable pub decrease_connection : ℕ → Tables → Option Tables
unfolding decrease_found
decrease_connection pid t = decrease_found pid (t.pid2ip pid) t

-- How the child goes on: it serves the client, or it answers 421 and exits.
pub data Verdict : Type 0 where
  admitted too_many_clients too_many_of_ip : Verdict

unfoldable pub check_connection_limit : Config → ℕ → Tables → Verdict
check_connection_limit config ip t =
    if ltb 0 config.maximum_clients && ltb config.maximum_clients t.client_count
    then too_many_clients
    else if ltb 0 config.max_conns_per_ip
        && ltb config.max_conns_per_ip (value_or_zero (t.ip2conncount ip))
    then too_many_of_ip
    else admitted
