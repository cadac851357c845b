-- ===== src/Socket/Transfer.antt =====
-- `read_n`, `write_n`, `recv_peek` and `readline` of socket/block_socket.cpp.
use mini_ftpd.Prelude.{
  ℕ, zero, suc, ◌+◌, ◌-◌, Bool, true, false, Option, none, some, [], ◌∷◌, ◌++◌, drop, length, ltb,
  ◌==◌, if◌then◌else◌,
}
use mini_ftpd.Text.Bytes.{Bytes}
use mini_ftpd.Socket.Channel.{Channel, Received, got, Written, took}

-- An `ssize_t`: a count, or -1. `unfinished` says that the fuel ran out.
pub data Ret : Type 0 where
  count : ℕ → Ret
  minus_one : Ret
  unfinished : Ret

-- `ret == n`, and the -1 that is returned where it is not.
abbrev pub is_count : Ret → ℕ → Bool
is_count (count m) n = m == n
is_count minus_one n = false
is_count unfinished n = false

abbrev pub lost : Ret → Ret
lost unfinished = unfinished
lost _ = minus_one

-- The index of the first newline, counted from `i`.
unfoldable pub newline_at : Bytes → ℕ → Option ℕ
newline_at [] i = none
newline_at (c ∷ cs) i = elim (c == 10) [ true ↦ some i | false ↦ newline_at cs (i + 1) ]

module _ (k : Channel) where
  open k use {World}

  -- `n_left` bytes are still to be read behind those of `buf`.
  unfoldable pub read_loop : ℕ → ℕ → ℕ → Bytes → World → Ret × Bytes × World
  read_loop zero total n_left buf w = (unfinished, buf, w)
  read_loop (suc f) total n_left buf w = elim (n_left == 0) [
    | true ↦ (count total, buf, w)
    | false ↦
        let (r, w') = k.read n_left w in
        elim r [
          | Received.interrupted ↦ read_loop f total n_left buf w'
          | Received.broken ↦ (minus_one, buf, w')
          | got bs ↦ elim (length bs == 0) [
            | true ↦ (count (total - n_left), buf, w')
            | false ↦ read_loop f total (n_left - length bs) (buf ++ bs) w'
          ]
        ]
  ]

  unfoldable pub read_n : ℕ → ℕ → World → Ret × Bytes × World
  unfolding read_loop
  read_n f total w = read_loop f total total [] w

  -- One round behind `write`; `again` is the rest of the loop.
  unfoldable pub after_write : (Bytes → World → Ret × World) → Bytes → Written × World → Ret × World
  after_write again rest (Written.interrupted, w) = again rest w
  after_write again rest (Written.broken, w) = (minus_one, w)
  after_write again rest (took n, w) = again (drop n rest) w

  unfoldable pub write_loop : ℕ → ℕ → Bytes → World → Ret × World
  unfolding after_write
  write_loop zero total rest w = (unfinished, w)
  write_loop (suc f) total [] w = (count total, w)
  write_loop (suc f) total (c ∷ rest) w =
      after_write (write_loop f total) (c ∷ rest) (k.write (c ∷ rest) w)

  unfoldable pub write_n : ℕ → Bytes → World → Ret × World
  unfolding write_loop
  write_n f buf w = write_loop f (length buf) buf w

  unfoldable pub after_peek :
      (World → Option Received × World) → Received × World → Option Received × World
  after_peek again (Received.interrupted, w) = again w
  after_peek again (Received.broken, w) = (some Received.broken, w)
  after_peek again (got bs, w) = (some (got bs), w)

  -- `recv` with `MSG_PEEK`, again after an interruption; `none` says that the fuel ran out.
  unfoldable pub recv_peek : ℕ → ℕ → World → Option Received × World
  unfolding after_peek
  recv_peek zero n w = (none, w)
  recv_peek (suc f) n w = after_peek (recv_peek f n) (k.recv_peek n w)

  -- What `readline` does with the bytes that it has read after peeking: at a newline it returns
  -- `buf_ptr - (char*)0`, the address of the end, with `base` the address of `buf`.
  unfoldable pub end_line : ℕ → ℕ → Bytes → Ret × Bytes × World → Ret × Bytes × World
  end_line base n buf (r, line, w) =
      if is_count r n then (count (base + length buf + n), buf ++ line, w) else (lost r, buf, w)

  unfoldable pub next_part :
      (Bytes → World → Ret × Bytes × World) → ℕ → Bytes → Ret × Bytes × World → Ret × Bytes × World
  next_part again n buf (r, part, w) =
      let more = again (buf ++ part) w in if is_count r n then more else (lost r, buf, w)

  -- The bytes that were peeked at are read up to the newline, or all of them.
  unfoldable pub take_peeked :
      ℕ
      → ℕ
      → ℕ
      → Bytes
      → Bytes
      → (Bytes → World → Ret × Bytes × World)
      → Option ℕ
      → World
      → Ret × Bytes × World
  unfolding end_line next_part read_n
  take_peeked fuel base n_left buf bs again (some i) w =
      end_line base (i + 1) buf (read_n fuel (i + 1) w)
  take_peeked fuel base n_left buf bs again none w =
      if ltb n_left (length bs)
      then (minus_one, buf, w)
      else next_part again (length bs) buf (read_n fuel (length bs) w)

  unfoldable pub peeked :
      ℕ
      → ℕ
      → ℕ
      → Bytes
      → (ℕ → Bytes → World → Ret × Bytes × World)
      → Option Received × World
      → Ret × Bytes × World
  unfolding take_peeked newline_at
  peeked fuel base n_left buf again (none, w) = (unfinished, buf, w)
  peeked fuel base n_left buf again (some Received.interrupted, w) = (minus_one, buf, w)
  peeked fuel base n_left buf again (some Received.broken, w) = (minus_one, buf, w)
  peeked fuel base n_left buf again (some (got []), w) = (count 0, buf, w)
  peeked fuel base n_left buf again (some (got (c ∷ bs)), w) =
      take_peeked fuel base n_left buf (c ∷ bs) (again (n_left - length (c ∷ bs)))
        (newline_at (c ∷ bs) 0) w

  unfoldable pub readline_loop : ℕ → ℕ → ℕ → ℕ → ℕ → Bytes → World → Ret × Bytes × World
  unfolding recv_peek peeked
  readline_loop zero fuel base max_len n_left buf w = (unfinished, buf, w)
  readline_loop (suc f) fuel base max_len zero buf w = (count (max_len - 1), buf, w)
  readline_loop (suc f) fuel base max_len (suc n) buf w =
      peeked fuel base (suc n) buf (readline_loop f fuel base max_len) (recv_peek fuel (suc n) w)

  -- `readline(fd, buf, max_len)`: at most one round for each byte of room.
  unfoldable pub readline : ℕ → ℕ → ℕ → World → Ret × Bytes × World
  unfolding readline_loop
  readline fuel base max_len w = readline_loop max_len fuel base max_len (max_len - 1) [] w
