-- ===== src/Tests/Master.antt =====
-- Runs of main.cpp: two clients from one address, where only one is allowed.
use mini_ftpd.Prelude.{◌≡◌, ◌↔◌, refl, true, false, none, some, arith}
use mini_ftpd.Config.Defs.{Config, default_config}
use mini_ftpd.ConnectionLimit.Master.{
  Child, Master, start, accept, register, reap, accepts, registers, Reach, here, next,
}
use mini_ftpd.ConnectionLimit.Invariant.{IsValid, Reach-IsValid}
use mini_ftpd.ConnectionLimit.Safety.{IsWithin, Reach-IsWithin, reap_undefined}

abbrev one_each : Config
one_each = record default_config { max_conns_per_ip = 1 }

abbrev first : Child
first = record { pid = 100; ip = 7; serving = true }

abbrev second : Child
second = record { pid = 101; ip = 7; serving = false }

abbrev accepted : Master
accepted = accept one_each 100 7 start

abbrev registered : Master
registered = register first accepted

abbrev both : Master
both = accept one_each 101 7 registered

accepted-Reach : Reach one_each accepted
accepted-Reach = next here (accepts start 100 7 refl refl (omega arith))

registered-Reach : Reach one_each registered
unfolding accept
registered-Reach = next accepted-Reach (registers accepted first refl)

both-Reach : Reach one_each both
unfolding accept register
both-Reach = next registered-Reach (accepts registered 101 7 refl refl (omega arith))

Reach-IsValid_example : IsValid both
Reach-IsValid_example = Reach-IsValid both-Reach

Reach-IsWithin_example : IsWithin one_each both.children
Reach-IsWithin_example = Reach-IsWithin both-Reach

reap_undefined_example :
    (reap 101 both ≡ none) ↔ ((f : Child) × (both.forked ≡ some f) × (f.pid ≡ 101))
unfolding accept register
reap_undefined_example = reap_undefined both second both-Reach refl
