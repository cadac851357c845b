-- ===== src/Main/Children.antt =====
-- The children of the process of main.cpp: those that it has forked and not waited for.
use mini_ftpd.Prelude.{
  ℕ, suc, ap, ◌+◌, ◌<◌, ◌≤◌, ◌≡◌, ◌≢◌, refl, Bool, true, false, none, some, List, [], ◌∷◌, length,
  arith, ◌==◌, if◌then◌else◌, ◌||◌, Bool-cases, inl, inr,
}
use mini_ftpd.System.Calls.{Call, Answer, Log, Env}
use mini_ftpd.System.View.{View, viewed}
use mini_ftpd.System.Held.{remove}
use mini_ftpd.ConnectionLimit.Defs.{size_mod}
use mini_ftpd.ConnectionLimit.Master.{Child, find, stop, remove as remove_child}
use mini_ftpd.Main.Defs.{has_reaped}

unfoldable pub children_after : Call → Answer → List ℕ → List ℕ
unfolding remove
children_after Call.fork a ps = if a.ok then a.value ∷ ps else ps
children_after Call.waitpid a ps = if has_reaped a then remove a.value ps else ps
children_after c a ps = ps

abbrev pub children_view : View
children_view = record { State = List ℕ; start = []; after = children_after }

abbrev pub alive : Log → List ℕ
alive = viewed children_view

abbrev pub has : ℕ → List ℕ → Bool
has p [] = false
has p (q ∷ qs) = q == p || has p qs

-- What the kernel answers to the process that accepts: `fork` gives the number of the new child,
-- which no other child has, and there are fewer children than a `size_t` counts; `waitpid` gives
-- the number of a child.
pub record IsParent (answers : Env) : Type 0 where
  pub forks :
      (log : Log)
      → (answers log Call.fork).ok ≡ true
      → ((answers log Call.fork).value ≢ 0)
        × (has (answers log Call.fork).value (alive log) ≡ false)
        × (length (alive log) + 1 < size_mod)
  pub waits :
      (log : Log)
      → has_reaped (answers log Call.waitpid) ≡ true
      → has (answers log Call.waitpid).value (alive log) ≡ true

abbrev pub pids : List Child → List ℕ
pids [] = []
pids (c ∷ cs) = c.pid ∷ pids cs

pub length-pids : (cs : List Child) → length (pids cs) ≡ length cs
length-pids [] = refl
length-pids (c ∷ cs) = ap suc (length-pids cs)

pub has-find-none : (p : ℕ) (cs : List Child) → has p (pids cs) ≡ false → find p cs ≡ none
has-find-none p [] h = refl
has-find-none p (c ∷ cs) h = ground (arith, has-find-none p cs)

pub has-find :
    (p : ℕ) (cs : List Child)
    → has p (pids cs) ≡ true
    → (c : Child) × (find p cs ≡ some c) × (c.pid ≡ p)
has-find p [] h = cc h
has-find p (c ∷ cs) h = elim (Bool-cases (c.pid == p)) [
  | inl same ↦ (c, rw same refl, ground arith)
  | inr other ↦ rw other (has-find p cs (rw other at h))
]

pub pids-stop : (p : ℕ) (cs : List Child) → pids (stop p cs) ≡ pids cs
pids-stop p [] = refl
pids-stop p (c ∷ cs) = ground (arith, pids-stop p cs)

pub pids-remove : (p : ℕ) (cs : List Child) → pids (remove_child p cs) ≡ remove p (pids cs)
unfolding remove
pids-remove p [] = refl
pids-remove p (c ∷ cs) = ground (arith, pids-remove p cs)

pub find-stopped :
    (p : ℕ) (cs : List Child) (c : Child)
    → find p cs ≡ some c
    → find p (stop p cs) ≡ some (record c { serving = false })
find-stopped p [] c h = cc h
find-stopped p (d ∷ cs) c h = ground (arith, find-stopped p cs c)

pub length-remove-lt : (p : ℕ) (ps : List ℕ) → has p ps ≡ true → length (remove p ps) < length ps
unfolding remove
length-remove-lt p [] h = cc h
length-remove-lt p (q ∷ qs) h = ground (arith, length-remove-lt p qs)

length-remove-le : (p : ℕ) (ps : List ℕ) → length (remove p ps) ≤ length ps
unfolding remove
length-remove-le p [] = omega arith
length-remove-le p (q ∷ qs) = ground (arith, length-remove-le p qs)

-- Each child has its event.
length-children_after :
    (c : Call) (a : Answer) (ps : List ℕ) → length (children_after c a ps) ≤ length ps + 1
unfolding children_after
length-children_after Call.fork a ps = ground arith
length-children_after Call.waitpid a ps = ground (arith, length-remove-le a.value ps)
length-children_after _ a ps = omega arith

pub length-alive : (log : Log) → length (alive log) ≤ length log
unfolding viewed
length-alive [] = omega arith
length-alive (e ∷ log) =
    omega (arith, length-children_after e.call e.answer (alive log), length-alive log)
