-- ===== src/ConnectionLimit/Master.antt =====
-- The process of main.cpp as a transition system: it accepts, forks, registers the child, and runs
-- its SIGCHLD handler at any time in between.
use mini_ftpd.Prelude.{
  ℕ, ◌+◌, ◌<◌, ◌≡◌, Bool, true, false, Option, none, some, List, [], ◌∷◌, length, ◌==◌,
  if◌then◌else◌,
}
use mini_ftpd.Config.Defs.{Config}
use mini_ftpd.ConnectionLimit.Defs.{
  Tables, empty_tables, put, increase_connection, decrease_connection, Verdict, admitted,
  check_connection_limit, size_mod,
}

-- A child that has not been waited for, the client's address, and whether it serves the client.
pub record Child : Type 0 where
  pub pid : ℕ
  pub ip : ℕ
  pub serving : Bool

abbrev pub find : ℕ → List Child → Option Child
find p [] = none
find p (c ∷ cs) = if c.pid == p then some c else find p cs

abbrev pub remove : ℕ → List Child → List Child
remove p [] = []
remove p (c ∷ cs) = if c.pid == p then cs else c ∷ remove p cs

abbrev pub ip_of : Option Child → Option ℕ
ip_of none = none
ip_of (some c) = some c.ip

-- The child with this number has exited, and waits to be reaped.
abbrev pub stop : ℕ → List Child → List Child
stop p [] = []
stop p (c ∷ cs) = if c.pid == p then record c { serving = false } ∷ cs else c ∷ stop p cs

-- `forked` is the child between `fork` and the assignment to `pid2ip`.
pub record Master : Type 0 where
  pub tables : Tables
  pub children : List Child
  pub forked : Option Child

abbrev pub start : Master
start = record { tables = empty_tables; children = []; forked = none }

abbrev pub serves : Verdict → Bool
serves admitted = true
serves _ = false

-- `increase_connection`, then `fork`: the child checks its own copy of the counters.
unfoldable pub accept : Config → ℕ → ℕ → Master → Master
unfolding increase_connection check_connection_limit
accept config pid ip m =
    let t = increase_connection ip m.tables in
    let child : Child = record {
      pid = pid;
      ip = ip;
      serving = serves (check_connection_limit config ip t);
    } in
    record { tables = t; children = child ∷ m.children; forked = some child }

-- `pid2ip[pid] = ...` in the parent.
unfoldable pub register : Child → Master → Master
register c m = record m {
  tables = record m.tables { pid2ip = put c.pid c.ip m.tables.pid2ip };
  forked = none;
}

-- One round of `sigchld_handler`; `none` where `decrease_connection` is undefined.
unfoldable pub reap : ℕ → Master → Option Master
unfolding decrease_connection
reap pid m = elim (decrease_connection pid m.tables) [
  | none ↦ none
  | some t ↦ some (record m { tables = t; children = remove pid m.children })
]

-- The kernel gives a new process a number that no child has, and there are fewer of them than a
-- `size_t` counts. A child may exit at any time, and the handler reaps it once it has.
pub data Step (config : Config) : Master → Master → Type 0 where
  accepts :
      (m : Master) (pid ip : ℕ)
      → m.forked ≡ none
      → find pid m.children ≡ none
      → length m.children + 1 < size_mod
      → Step config m (accept config pid ip m)
  registers : (m : Master) (c : Child) → m.forked ≡ some c → Step config m (register c m)
  exits : (m : Master) (pid : ℕ) → Step config m (record m { children = stop pid m.children })
  reaps :
      (m m' : Master) (c : Child)
      → find c.pid m.children ≡ some c
      → c.serving ≡ false
      → reap c.pid m ≡ some m'
      → Step config m m'

pub data Reach (config : Config) : Master → Type 0 where
  here : Reach config start
  next : {m m' : Master} → Reach config m → Step config m m' → Reach config m'
