-- ===== src/ConnectionLimit/Safety.antt =====
-- The limits of connection_limit.cpp and the SIGCHLD handler in the states of main.cpp.
use mini_ftpd.Prelude.{
  ℕ, ◌+◌, ◌<◌, ◌≤◌, ◌≡◌, ◌↔◌, refl, sym, ◌∙◌, ◌&&◌, Option, none, some, List, [], ◌∷◌, length,
  arith, ◌==◌, if◌then◌else◌,
}
use mini_ftpd.Config.Defs.{Config}
use mini_ftpd.ConnectionLimit.Defs.{size_mod}
use mini_ftpd.ConnectionLimit.Master.{
  Child, find, remove, stop, Master, accept, register, reap, Step, accepts, registers, exits, reaps,
  Reach, here, next,
}
use mini_ftpd.ConnectionLimit.Invariant.{IsValid, Reach-IsValid, reap-eq, ip_count, registered}

abbrev pub served : List Child → ℕ
served [] = 0
served (c ∷ cs) = (if c.serving then 1 else 0) + served cs

abbrev pub served_of : ℕ → List Child → ℕ
served_of j [] = 0
served_of j (c ∷ cs) = (if c.serving && c.ip == j then 1 else 0) + served_of j cs

served-le-length : (cs : List Child) → served cs ≤ length cs
served-le-length [] = omega arith
served-le-length (c ∷ cs) = ground (arith, served-le-length cs)

served_of-le-ip_count : (j : ℕ) (cs : List Child) → served_of j cs ≤ ip_count j cs
served_of-le-ip_count j [] = omega arith
served_of-le-ip_count j (c ∷ cs) = ground (arith, served_of-le-ip_count j cs)

served-remove : (p : ℕ) (cs : List Child) → served (remove p cs) ≤ served cs
served-remove p [] = omega arith
served-remove p (c ∷ cs) = ground (arith, served-remove p cs)

served_of-remove : (j p : ℕ) (cs : List Child) → served_of j (remove p cs) ≤ served_of j cs
served_of-remove j p [] = omega arith
served_of-remove j p (c ∷ cs) = ground (arith, served_of-remove j p cs)

served-stop : (p : ℕ) (cs : List Child) → served (stop p cs) ≤ served cs
served-stop p [] = omega arith
served-stop p (c ∷ cs) = ground (arith, served-stop p cs)

served_of-stop : (j p : ℕ) (cs : List Child) → served_of j (stop p cs) ≤ served_of j cs
served_of-stop j p [] = omega arith
served_of-stop j p (c ∷ cs) = ground (arith, served_of-stop j p cs)

-- No more clients are served than a limit allows; a limit of 0 is none.
pub record IsWithin (config : Config) (cs : List Child) : Type 0 where
  pub total : 0 < config.maximum_clients → served cs ≤ config.maximum_clients
  pub each : (j : ℕ) → 0 < config.max_conns_per_ip → served_of j cs ≤ config.max_conns_per_ip

accept-IsWithin :
    (config : Config) (pid ip : ℕ) (m : Master)
    → IsValid m
    → length m.children + 1 < size_mod
    → IsWithin config m.children
    → IsWithin config (accept config pid ip m).children
unfolding accept
accept-IsWithin config pid ip m v room w = record {
  total = λ h. ground (arith, v.counted, w.total h, served-le-length m.children);
  each = λ j h. ground (
    arith,
    v.ips ip,
    v.ips j,
    w.each j h,
    served_of-le-ip_count j m.children,
    served_of-le-ip_count ip m.children,
  );
}

Step-IsWithin :
    {config : Config} {m m' : Master}
    → Step config m m'
    → IsValid m
    → IsWithin config m.children
    → IsWithin config m'.children
Step-IsWithin {config} (accepts m pid ip idle fresh room) v w =
    accept-IsWithin config pid ip m v room w
Step-IsWithin (registers m c e) v w = unfold register in w
Step-IsWithin {config} (exits m pid) v w = record {
  total = λ h. omega (arith, w.total h, served-stop pid m.children);
  each = λ j h. omega (arith, w.each j h, served_of-stop j pid m.children);
}
Step-IsWithin {config} (reaps m m' c known done e) v w =
    let (ip, found, shape) = reap-eq c.pid m m' e in
    rw shape (record {
      total = λ h. omega (arith, w.total h, served-remove c.pid m.children);
      each = λ j h. omega (arith, w.each j h, served_of-remove j c.pid m.children);
    })

-- At no time are more clients served than `maximum_clients`, or more from one address than
-- `max_conns_per_ip`, where these limits are not 0.
pub Reach-IsWithin : {config : Config} {m : Master} → Reach config m → IsWithin config m.children
Reach-IsWithin here = record { total = λ h. omega arith; each = λ j h. omega arith }
Reach-IsWithin (next r s) = Step-IsWithin s (Reach-IsValid r) (Reach-IsWithin r)

reap-eq-none : (pid : ℕ) (m : Master) → reap pid m ≡ none → m.tables.pid2ip pid ≡ none
unfolding reap
reap-eq-none pid m h = ground arith

reap_missing : (pid : ℕ) (m : Master) → m.tables.pid2ip pid ≡ none → reap pid m ≡ none
unfolding reap
reap_missing pid m h = ground arith

unregistered :
    (f : Option Child) (p : ℕ) (cs : List Child) (c : Child)
    → find p cs ≡ some c
    → registered f p cs ≡ none
    → (g : Child) × (f ≡ some g) × (g.pid ≡ p)
unregistered none p cs c e h = absurd (ground arith)
unregistered (some f) p cs c e h = (f, refl, ground arith)

-- The handler is defined on every child but the one that `main` has forked and not yet registered:
-- for that one, and only that one, `decrease_connection` reads through the end of the table.
pub reap_undefined :
    {config : Config} (m : Master) (c : Child)
    → Reach config m
    → find c.pid m.children ≡ some c
    → (reap c.pid m ≡ none) ↔ ((f : Child) × (m.forked ≡ some f) × (f.pid ≡ c.pid))
reap_undefined m c r e =
    let v = Reach-IsValid r in
    (
      (λ h.
          unregistered m.forked c.pid m.children c e (sym (v.pids c.pid) ∙ reap-eq-none c.pid m h)),
      (λ (f, w, same). reap_missing c.pid m (v.pids c.pid ∙ rw w (ground arith))),
    )
