-- ===== src/Main/Rules.antt =====
-- Rules for the programs of main.cpp.
use mini_ftpd.Prelude.{◌≡◌, refl, Bool, true, false, ◌∷◌, if◌then◌else◌}
use mini_ftpd.Program.{
  Outcome, done, exited, aborted, unfinished, go_on, undefined, ◌>>=◌, stop, pure, exit,
}
use mini_ftpd.Program.Leads.{Early, by_exit, by_undefined, Leads}
use mini_ftpd.System.Calls.{Call, Answer, Log, Proc, call}
use mini_ftpd.Main.Defs.{Kernel, MainState, calls, MainProc}
use mini_ftpd.System.Create.Defs.{call_or_exit}

-- A call, and what comes behind it.
pub calls-Leads :
    {A : Type 0} (U : Early → MainState → Type 0) (R : A → MainState → Type 0) (c : Call)
    (f : Answer → MainProc A) (k : Kernel) (s : MainState)
    → (let a = k.answers s.log c in
        Leads U R (f a k (record s { log = record { call = c; answer = a } ∷ s.log })))
    → Leads U R ((calls (call c) >>= f) k s)
unfolding ◌>>=◌ calls call
calls-Leads U R c f k s h = h

module _ {A B : Type 0} (U : Early → MainState → Type 0) (V : Early → Log → Type 0)
    (S : A → Log → Type 0) (R : B → MainState → Type 0) (f : A → MainProc B) (k : Kernel)
    (s : MainState) where
  from_outcome :
      (o : Outcome A) (log : Log)
      → Leads V S (o, log)
      → ((e : Early) (l : Log) → V e l → U e (record s { log = l }))
      → ((a : A) (l : Log) → S a l → Leads U R (f a k (record s { log = l })))
      → Leads U R (go_on f k (o, record s { log = log }))
  from_outcome (done a) log h early go = go a log h
  from_outcome (exited n) log h early go = early by_exit log h
  from_outcome aborted log h early go = h
  from_outcome undefined log h early go = early by_undefined log h
  from_outcome unfinished log h early go = h

  -- A function over the calls, and what comes behind it.
  pub function-Leads :
      (p : Proc A)
      → Leads V S (p k.answers s.log)
      → ((e : Early) (l : Log) → V e l → U e (record s { log = l }))
      → ((a : A) (l : Log) → S a l → Leads U R (f a k (record s { log = l })))
      → Leads U R ((calls p >>= f) k s)
  unfolding ◌>>=◌ calls
  function-Leads p h early go = from_outcome (p k.answers s.log).0 (p k.answers s.log).1 h early go

module _ {A : Type 0} (U : Early → MainState → Type 0) (R : A → MainState → Type 0)
    (f : Answer → MainProc A) (k : Kernel) where
  ok_or_exit-Leads :
      (b : Bool) (a : Answer) (s : MainState)
      → (b ≡ true → Leads U R (f a k s))
      → (b ≡ false → U by_exit s)
      → Leads U R ((calls (if b then pure a else exit 1) >>= f) k s)
  unfolding ◌>>=◌ calls pure stop
  ok_or_exit-Leads true a s h e = h refl
  ok_or_exit-Leads false a s h e = e refl

  -- A call behind which a process does not go on if it fails.
  pub call_or_exit-Leads :
      (c : Call) (s : MainState)
      → (let a = k.answers s.log c in
          a.ok ≡ true
          → Leads U R (f a k (record s { log = record { call = c; answer = a } ∷ s.log })))
      → (let a = k.answers s.log c in
          a.ok ≡ false → U by_exit (record s { log = record { call = c; answer = a } ∷ s.log }))
      → Leads U R ((calls (call_or_exit c) >>= f) k s)
  unfolding ◌>>=◌ calls call call_or_exit
  call_or_exit-Leads c s h e =
      let a = k.answers s.log c in
      ok_or_exit-Leads a.ok a (record s { log = record { call = c; answer = a } ∷ s.log }) h e
