-- ===== src/File/Lock.antt =====
-- `lock_file_read`, `lock_file_write` and `unlock_file` of file/file_utility.cpp.
use mini_ftpd.Prelude.{ℕ, ◌≡◌, ◌<◌, refl, Bool, false, [], ◌∷◌}
use mini_ftpd.Program.{pure, ◌>>=◌}
use mini_ftpd.Program.Settles.{Comes, Settles, Settles-pure, Settles-bind, settled-Comes}
use mini_ftpd.Program.Triple.{Gives, Gives-pure, Gives-bind, Anything}
use mini_ftpd.System.Calls.{Lock, read_lock, write_lock, Call, Log, Env, Proc, call}
use mini_ftpd.System.Retry.{
  is_interrupted, until_done, IsCalm, Gives-until_done, Settles-until_done,
}

-- `fcntl` with `F_SETLKW`, over the whole file; the result is false for -1.
unfoldable pub lock_file : ℕ → Lock → ℕ → Proc Bool
lock_file rounds lock fd = do a ← until_done rounds (Call.set_lock_wait fd lock); pure a.ok

unfoldable pub lock_file_read : ℕ → ℕ → Proc Bool
lock_file_read rounds fd = lock_file rounds read_lock fd

unfoldable pub lock_file_write : ℕ → ℕ → Proc Bool
lock_file_write rounds fd = lock_file rounds write_lock fd

-- `F_ULOCK`, a command of `lockf`, is 0, and 0 as the type of a lock is `F_RDLCK`.
unfoldable pub unlock_file : ℕ → Proc Bool
unlock_file fd = do a ← call (Call.set_lock fd read_lock); pure a.ok

-- The last event is the call, its answer was not an interruption, and `b` says whether it was granted.
abbrev pub HasLocked : ℕ → Lock → Bool → Log → Type 0
HasLocked fd lock b [] = ⊥
HasLocked fd lock b (e ∷ log) =
    (e.call ≡ Call.set_lock_wait fd lock) × (is_interrupted e.answer ≡ false) × (b ≡ e.answer.ok)

lock_file-Gives :
    (rounds : ℕ) (lock : Lock) (fd : ℕ)
    → Gives {X = Env} Anything Anything (lock_file rounds lock fd) (HasLocked fd lock)
unfolding lock_file
lock_file-Gives rounds lock fd =
    Gives-bind _ _
      (Gives-until_done {E = Anything} {P = Anything} {R = λ a. HasLocked fd lock a.ok} rounds _
        (λ log h. tt) (λ log a e h. tt) (λ log a e h. (refl, e, refl)))
      λ a. Gives-pure a.ok (λ log h. h)

lock_file-Settles :
    {env : Env} (n rounds : ℕ) (lock : Lock) (fd : ℕ)
    → IsCalm n env
    → n < rounds
    → Settles env (lock_file rounds lock fd)
unfolding lock_file
lock_file-Settles n rounds lock fd calm enough =
    Settles-bind _ _ (Settles-until_done rounds n _ calm enough) λ a. Settles-pure a.ok

-- Where no call is interrupted once the log has `n` events and there are more rounds than `n`,
-- `lock_file_read` and `lock_file_write` come to an end. Where they return, the last event is the
-- request for that lock, answered by something else than an interruption, and the result says
-- whether it was granted.
pub lock_file-HasLocked :
    (n rounds : ℕ) (env : Env) (fd : ℕ) (log : Log)
    → IsCalm n env
    → n < rounds
    → Comes (HasLocked fd read_lock) (lock_file_read rounds fd env log)
      × Comes (HasLocked fd write_lock) (lock_file_write rounds fd env log)
unfolding lock_file_read lock_file_write
lock_file-HasLocked n rounds env fd log calm enough = (locked read_lock, locked write_lock)
  where
    locked : (lock : Lock) → Comes (HasLocked fd lock) (lock_file rounds lock fd env log)
    locked lock =
        settled-Comes (lock_file-Settles n rounds lock fd calm enough)
          (lock_file-Gives rounds lock fd) log tt
