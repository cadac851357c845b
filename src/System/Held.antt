-- ===== src/System/Held.antt =====
-- The descriptors that a process holds, by the calls that it has made.
use mini_ftpd.Prelude.{ℕ, some, List, [], ◌∷◌, ◌==◌, if◌then◌else◌}
use mini_ftpd.System.Calls.{Call, Answer, Log}
use mini_ftpd.System.View.{View, viewed, Sees}

unfoldable pub remove : ℕ → List ℕ → List ℕ
remove fd [] = []
remove fd (d ∷ ds) = if d == fd then ds else d ∷ remove fd ds

-- `close` gives a descriptor back, whatever it answers.
unfoldable pub held_after : Call → Answer → List ℕ → List ℕ
held_after Call.socket a fds = if a.ok then a.value ∷ fds else fds
held_after (Call.accept l) a fds = if a.ok then a.value ∷ fds else fds
held_after (Call.close (some fd)) a fds = remove fd fds
held_after c a fds = fds

abbrev pub held_view : View
held_view = record { State = List ℕ; start = []; after = held_after }

-- The descriptors that were opened and are not closed, the latest first.
abbrev pub held : Log → List ℕ
held = viewed held_view

abbrev pub Holds : List ℕ → Log → Type 0
Holds = Sees held_view
