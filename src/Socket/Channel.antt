-- ===== src/Socket/Channel.antt =====
-- The system calls that socket/block_socket.cpp makes on one descriptor, and what it relies on.
use mini_ftpd.Prelude.{ℕ, ◌≤◌, ◌<◌, ◌≡◌, ◌≢◌, [], ◌++◌, take, length}
use mini_ftpd.Text.Bytes.{Bytes}

-- `read` and `recv`: the bytes that arrived, none at the end of the stream; or -1, with `EINTR` or
-- another error.
pub data Received : Type 0 where
  got : Bytes → Received
  interrupted : Received
  broken : Received

-- `write`: the count of the bytes taken, or -1.
pub data Written : Type 0 where
  took : ℕ → Written
  interrupted : Written
  broken : Written

-- A descriptor of the kernel: a state that the kernel keeps, and the calls.
pub record Channel : Type 1 where
  pub World : Type 0
  pub read : ℕ → World → Received × World
  pub recv_peek : ℕ → World → Received × World
  pub write : Bytes → World → Written × World

-- A descriptor that works as read(2), recv(2) and write(2) say, and does not fail. `pending` is all
-- that the peer sends before it closes, `delivered` all that has been written, and `patience`
-- bounds how often a call is interrupted, or writes nothing, from here on.
pub record IsReliable (k : Channel) : Type 0 where
  pub pending : k.World → Bytes
  pub delivered : k.World → Bytes
  pub patience : k.World → ℕ
  pub read_works : (n : ℕ) (w : k.World) → (k.read n w).0 ≢ broken
  pub read_got :
      (n : ℕ) (w w' : k.World) (bs : Bytes)
      → 0 < n
      → k.read n w ≡ (got bs, w')
      → (pending w ≡ bs ++ pending w')
        × (length bs ≤ n)
        × (bs ≡ [] → pending w ≡ [])
        × (patience w' ≤ patience w)
  pub read_interrupted :
      (n : ℕ) (w w' : k.World)
      → k.read n w ≡ (interrupted, w')
      → (pending w' ≡ pending w) × (patience w' < patience w)
  pub peek_works : (n : ℕ) (w : k.World) → (k.recv_peek n w).0 ≢ broken
  pub peek_got :
      (n : ℕ) (w w' : k.World) (bs : Bytes)
      → 0 < n
      → k.recv_peek n w ≡ (got bs, w')
      → (pending w' ≡ pending w)
        × ((later : Bytes) × (pending w ≡ bs ++ later))
        × (length bs ≤ n)
        × (bs ≡ [] → pending w ≡ [])
        × (patience w' ≤ patience w)
  pub peek_interrupted :
      (n : ℕ) (w w' : k.World)
      → k.recv_peek n w ≡ (interrupted, w')
      → (pending w' ≡ pending w) × (patience w' < patience w)
  pub write_works : (bs : Bytes) (w : k.World) → (k.write bs w).0 ≢ broken
  pub write_took :
      (bs : Bytes) (w w' : k.World) (n : ℕ)
      → 0 < length bs
      → k.write bs w ≡ (took n, w')
      → (n ≤ length bs)
        × (delivered w' ≡ delivered w ++ take n bs)
        × (patience w' ≤ patience w)
        × (n ≡ 0 → patience w' < patience w)
  pub write_interrupted :
      (bs : Bytes) (w w' : k.World)
      → k.write bs w ≡ (interrupted, w')
      → (delivered w' ≡ delivered w) × (patience w' < patience w)
