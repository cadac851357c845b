-- ===== src/ConnectionLimit/Invariant.antt =====
-- The tables of connection_limit.cpp against the children of main.cpp.
use mini_ftpd.Prelude.{
  ℕ, suc, ◌+◌, ◌-◌, ◌%◌, ◌<◌, ◌≡◌, ◌≢◌, inl, inr, refl, sym, ap, ◌∙◌, Option, none, some, List, [],
  ◌∷◌, length, arith, ◌==◌, if◌then◌else◌, Option-cases, Bool-cases,
}
use mini_ftpd.Config.Defs.{Config}
use mini_ftpd.ConnectionLimit.Defs.{Table, erase, decrease_ip, size_mod}
use mini_ftpd.ConnectionLimit.Master.{
  Child, find, remove, ip_of, stop, Master, start, accept, register, reap, Step, accepts, registers,
  exits, reaps, Reach, here, next,
}

abbrev pub ip_count : ℕ → List Child → ℕ
ip_count j [] = 0
ip_count j (c ∷ cs) = (if c.ip == j then 1 else 0) + ip_count j cs

-- An address with no connection has no entry.
abbrev pub entry : ℕ → Option ℕ
entry n = if n == 0 then none else some n

abbrev pub Distinct : List Child → Type 0
Distinct [] = Unit
Distinct (c ∷ cs) = (find c.pid cs ≡ none) × Distinct cs

-- What `pid2ip` holds of a number: the child between `fork` and its registration is not there yet.
abbrev pub registered : Option Child → ℕ → List Child → Option ℕ
registered none p cs = ip_of (find p cs)
registered (some f) p cs = if f.pid == p then none else ip_of (find p cs)

pub record IsValid (m : Master) : Type 0 where
  pub counted : m.tables.client_count ≡ length m.children
  pub small : length m.children < size_mod
  pub ips : (j : ℕ) → m.tables.ip2conncount j ≡ entry (ip_count j m.children)
  pub distinct : Distinct m.children
  pub pids : (p : ℕ) → m.tables.pid2ip p ≡ registered m.forked p m.children
  pub waiting : (f : Child) → m.forked ≡ some f → ip_of (find f.pid m.children) ≡ some f.ip

length-remove :
    (p ip : ℕ) (cs : List Child)
    → ip_of (find p cs) ≡ some ip
    → length cs ≡ suc (length (remove p cs))
length-remove p ip [] e = cc e
length-remove p ip (c ∷ cs) e = ground (arith, length-remove p ip cs)

ip_count-remove :
    (p ip j : ℕ) (cs : List Child)
    → ip_of (find p cs) ≡ some ip
    → ip_count j cs ≡ (if ip == j then 1 else 0) + ip_count j (remove p cs)
ip_count-remove p ip j [] e = cc e
ip_count-remove p ip j (c ∷ cs) e = ground (arith, ip_count-remove p ip j cs)

find-remove_ne : (p q : ℕ) (cs : List Child) → p ≢ q → find q (remove p cs) ≡ find q cs
find-remove_ne p q [] h = refl
find-remove_ne p q (c ∷ cs) h = ground (arith, find-remove_ne p q cs h)

find-remove-none : (p q : ℕ) (cs : List Child) → find q cs ≡ none → find q (remove p cs) ≡ none
find-remove-none p q [] h = refl
find-remove-none p q (c ∷ cs) h = ground (arith, find-remove-none p q cs)

find-remove_self : (p : ℕ) (cs : List Child) → Distinct cs → find p (remove p cs) ≡ none
find-remove_self p [] d = refl
find-remove_self p (c ∷ cs) d = elim (Bool-cases (c.pid == p)) [
  | inl same ↦ rw same (let e : c.pid ≡ p = ground arith in rw (← e) d.0)
  | inr other ↦ rw other (rw other (find-remove_self p cs d.1))
]

Distinct-remove : (p : ℕ) (cs : List Child) → Distinct cs → Distinct (remove p cs)
Distinct-remove p [] d = tt
Distinct-remove p (c ∷ cs) d =
    ground (arith, find-remove-none p c.pid cs d.0, Distinct-remove p cs d.1)

-- An exit changes neither a number nor an address.
find-stop : (p q : ℕ) (cs : List Child) → ip_of (find q (stop p cs)) ≡ ip_of (find q cs)
find-stop p q [] = refl
find-stop p q (c ∷ cs) = ground (arith, find-stop p q cs)

find-stop-none : (p q : ℕ) (cs : List Child) → find q cs ≡ none → find q (stop p cs) ≡ none
find-stop-none p q [] h = refl
find-stop-none p q (c ∷ cs) h = ground (arith, find-stop-none p q cs)

Distinct-stop : (p : ℕ) (cs : List Child) → Distinct cs → Distinct (stop p cs)
Distinct-stop p [] d = tt
Distinct-stop p (c ∷ cs) d = ground (arith, find-stop-none p c.pid cs d.0, Distinct-stop p cs d.1)

length-stop : (p : ℕ) (cs : List Child) → length (stop p cs) ≡ length cs
length-stop p [] = refl
length-stop p (c ∷ cs) = ground (arith, length-stop p cs)

ip_count-stop : (p j : ℕ) (cs : List Child) → ip_count j (stop p cs) ≡ ip_count j cs
ip_count-stop p j [] = refl
ip_count-stop p j (c ∷ cs) = ground (arith, ip_count-stop p j cs)

start-IsValid : IsValid start
start-IsValid = record {
  counted = refl;
  small = omega arith;
  ips = λ j. refl;
  distinct = tt;
  pids = λ p. refl;
  waiting = λ f e. cc e;
}

accept-IsValid :
    (config : Config) (pid ip : ℕ) (m : Master)
    → IsValid m
    → m.forked ≡ none
    → find pid m.children ≡ none
    → length m.children + 1 < size_mod
    → IsValid (accept config pid ip m)
unfolding accept
accept-IsValid config pid ip m v idle fresh room = record {
  counted = omega (arith, v.counted);
  small = omega arith;
  ips = λ j. ground (arith, v.ips j, v.ips ip);
  distinct = (fresh, v.distinct);
  pids = λ p. ground (arith, v.pids p);
  waiting = λ f e. ground arith;
}

register-IsValid : (c : Child) (m : Master) → IsValid m → m.forked ≡ some c → IsValid (register c m)
unfolding register
register-IsValid c m v e = record {
  counted = v.counted;
  small = v.small;
  ips = v.ips;
  distinct = v.distinct;
  pids = λ p. ground (arith, v.pids p, v.waiting c e);
  waiting = λ f z. cc z;
}

stop-IsValid :
    (pid : ℕ) (m : Master) → IsValid m → IsValid (record m { children = stop pid m.children })
stop-IsValid pid m v = record {
  counted = v.counted ∙ sym (length-stop pid m.children);
  small = omega (arith, v.small, length-stop pid m.children);
  ips = λ j. v.ips j ∙ ap entry (sym (ip_count-stop pid j m.children));
  distinct = Distinct-stop pid m.children v.distinct;
  pids = λ p. ground (arith, v.pids p, find-stop pid p m.children);
  waiting = λ f e. find-stop pid f.pid m.children ∙ v.waiting f e;
}

-- The handler is defined only on a registered child.
pub reap-eq :
    (pid : ℕ) (m m' : Master)
    → reap pid m ≡ some m'
    → (ip : ℕ) × (m.tables.pid2ip pid ≡ some ip)
      × (m' ≡ record m {
        tables = record {
          client_count = (m.tables.client_count + (size_mod - 1)) % size_mod;
          ip2conncount = decrease_ip ip (m.tables.ip2conncount ip) m.tables.ip2conncount;
          pid2ip = erase pid m.tables.pid2ip;
        };
        children = remove pid m.children;
      })
unfolding reap
reap-eq pid m m' e = elim (Option-cases (m.tables.pid2ip pid)) [
  | inl missing ↦ absurd (ground arith)
  | inr (ip, found) ↦ (ip, found, ground arith)
]

-- A child that the tables know is a child, and not the one that waits for its registration.
registered-some :
    (f : Option Child) (p ip : ℕ) (cs : List Child)
    → registered f p cs ≡ some ip
    → (ip_of (find p cs) ≡ some ip) × ((c : Child) → f ≡ some c → c.pid ≢ p)
registered-some none p ip cs e = (e, λ c z. cc z)
registered-some (some f) p ip cs e = (ground arith, λ c z. ground arith)

registered-remove :
    (f : Option Child) (pid p : ℕ) (cs : List Child)
    → Distinct cs
    → (if pid == p then none else registered f p cs) ≡ registered f p (remove pid cs)
registered-remove none pid p cs d =
    ground (arith, find-remove_self pid cs d, find-remove_ne pid p cs)
registered-remove (some f) pid p cs d =
    ground (arith, find-remove_self pid cs d, find-remove_ne pid p cs)

reaped_count :
    (p ip j : ℕ) (t : Table) (cs : List Child)
    → ((i : ℕ) → t i ≡ entry (ip_count i cs))
    → ip_of (find p cs) ≡ some ip
    → decrease_ip ip (t ip) t j ≡ entry (ip_count j (remove p cs))
unfolding decrease_ip
reaped_count p ip j t cs h e =
    ground (arith, h ip, h j, ip_count-remove p ip ip cs e, ip_count-remove p ip j cs e)

reap-IsValid : (pid : ℕ) (m m' : Master) → IsValid m → reap pid m ≡ some m' → IsValid m'
reap-IsValid pid m m' v e =
    let (ip, found, shape) = reap-eq pid m m' e in
    let (child, other) = registered-some m.forked pid ip m.children (sym (v.pids pid) ∙ found) in
    let shorter = length-remove pid ip m.children child in
    rw shape (record {
      counted = omega (arith, v.counted, v.small);
      small = omega (arith, v.small);
      ips = λ j. reaped_count pid ip j m.tables.ip2conncount m.children v.ips child;
      distinct = Distinct-remove pid m.children v.distinct;
      pids = λ p. ground (arith, v.pids p, registered-remove m.forked pid p m.children v.distinct);
      waiting = λ f z.
          ap ip_of (find-remove_ne pid f.pid m.children (λ same. other f z (sym same)))
          ∙ v.waiting f z;
    })

Step-IsValid : {config : Config} {m m' : Master} → Step config m m' → IsValid m → IsValid m'
Step-IsValid {config} (accepts m pid ip idle fresh room) v =
    accept-IsValid config pid ip m v idle fresh room
Step-IsValid (registers m c e) v = register-IsValid c m v e
Step-IsValid (exits m pid) v = stop-IsValid pid m v
Step-IsValid (reaps m m' c known done e) v = reap-IsValid c.pid m m' v e

-- In every state that main.cpp reaches, `client_count` is the number of children that have not
-- been reaped, `ip2conncount` holds for each address how many of them serve it, with no entry
-- where there is none, and `pid2ip` holds each of them but the one that is not registered yet.
pub Reach-IsValid : {config : Config} {m : Master} → Reach config m → IsValid m
Reach-IsValid here = start-IsValid
Reach-IsValid (next r s) = Step-IsValid s (Reach-IsValid r)
