-- ===== src/Socket/Message/Defs.antt =====
-- `send_char`, `get_char`, `send_buf`, `get_int` and `recv_buf` of socket/block_socket.cpp.
use mini_ftpd.Prelude.{
  ℕ, zero, suc, ◌+◌, ◌*◌, ◌/◌, ◌%◌, ⊤, Option, none, some, [], ◌∷◌, ◌++◌, get_or, drop, length, ltb,
  if◌then◌else◌,
}
use mini_ftpd.Text.Bytes.{Bytes}
use mini_ftpd.Socket.Channel.{Channel, Received, got, Written, took}
use mini_ftpd.Socket.Transfer.{Ret, is_count, read_n, write_n}

-- How a function ends that calls `exit(EXIT_FAILURE)` on an error.
pub data Ended (A : Type 0) : Type 0 where
  returned : A → Ended A
  failed : Ended A
  unfinished : Ended A

-- The four bytes of an `unsigned int`, and of an `int` with the same bits, on a little-endian host.
unfoldable pub u32_bytes : ℕ → Bytes
u32_bytes n = (n % 256) ∷ (n / 256 % 256) ∷ (n / 65536 % 256) ∷ (n / 16777216 % 256) ∷ []

unfoldable pub u32_value : Bytes → ℕ
u32_value bs =
    get_or bs 0 0 + get_or bs 1 0 * 256 + get_or bs 2 0 * 65536 + get_or bs 3 0 * 16777216

-- The part of a buffer that is written, and what it held behind it.
abbrev pub overwrite : Bytes → Bytes → Bytes
overwrite part old = part ++ drop (length part) old

-- `exit`, where a call has come back with another count than the one asked for.
abbrev pub stopped : {A : Type 0} → Ret → Ended A
stopped Ret.unfinished = unfinished
stopped _ = failed

module _ (k : Channel) where
  open k use {World}

  unfoldable pub after_send : (World → Option World) → Written × World → Option World
  after_send again (Written.interrupted, w) = again w
  after_send again (Written.broken, w) = some w
  after_send again (took n, w) = some w

  -- An error other than `EINTR` leaves a message on stderr. `none` says that the fuel ran out.
  unfoldable pub send_char : ℕ → ℕ → World → Option World
  unfolding after_send
  send_char zero ch w = none
  send_char (suc f) ch w = after_send (send_char f ch) (k.write (ch ∷ []) w)

  unfoldable pub after_get :
      ℕ → (World → Option (ℕ × World)) → Received × World → Option (ℕ × World)
  after_get memory again (Received.interrupted, w) = again w
  after_get memory again (Received.broken, w) = some (memory, w)
  after_get memory again (got [], w) = some (memory, w)
  after_get memory again (got (c ∷ cs), w) = some (c, w)

  -- `res` is not initialised: `memory` is what it holds, and what an error or the end of the stream
  -- returns.
  unfoldable pub get_char : ℕ → ℕ → World → Option (ℕ × World)
  unfolding after_get
  get_char zero memory w = none
  get_char (suc f) memory w = after_get memory (get_char f memory) (k.read 1 w)

  -- `write_n` of the length, then of the bytes; a count that is not the one asked for exits.
  unfoldable pub send_rest : ℕ → Bytes → Ret × World → Ended ⊤ × World
  send_rest fuel buf (r, w) =
      let (r', w') = write_n k fuel buf w in
      if is_count r 4
      then (if is_count r' (length buf) then returned tt else stopped r', w')
      else (stopped r, w)

  unfoldable pub send_buf : ℕ → Bytes → World → Ended ⊤ × World
  unfolding send_rest u32_bytes
  send_buf fuel buf w = send_rest fuel buf (write_n k fuel (u32_bytes (length buf)) w)

  unfoldable pub checked_int : Ret × Bytes × World → Ended ℕ × World
  unfolding u32_value
  checked_int (r, bs, w) = (if is_count r 4 then returned (u32_value bs) else stopped r, w)

  -- The bits of the `int`, which `recv_buf` takes for an `unsigned int`.
  unfoldable pub get_int : ℕ → World → Ended ℕ × World
  unfolding checked_int
  get_int fuel w = checked_int (read_n k fuel 4 w)

  -- The buffer, of `len` bytes, is written as far as bytes came.
  unfoldable pub fill : ℕ → Bytes → Ret × Bytes × World → Ended ⊤ × Bytes × World
  fill recv_len buf (r, bs, w) =
      (if is_count r recv_len then returned tt else stopped r, overwrite bs buf, w)

  unfoldable pub recv_rest : ℕ → Bytes → Ended ℕ × World → Ended ⊤ × Bytes × World
  unfolding fill
  recv_rest fuel buf (failed, w) = (failed, buf, w)
  recv_rest fuel buf (unfinished, w) = (unfinished, buf, w)
  recv_rest fuel buf (returned recv_len, w) =
      if ltb (length buf) recv_len
      then (failed, buf, w)
      else fill recv_len buf (read_n k fuel recv_len w)

  unfoldable pub recv_buf : ℕ → Bytes → World → Ended ⊤ × Bytes × World
  unfolding recv_rest get_int
  recv_buf fuel buf w = recv_rest fuel buf (get_int fuel w)
