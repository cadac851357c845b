-- ===== src/Socket/Message/RoundTrip.antt =====
-- What `send_buf` puts on the stream against what `recv_buf` takes from it.
use Prim.Native.Nat.{min}
use mathlib.Core.List.{append_assoc}
use mini_ftpd.Prelude.{
  ℕ, ◌+◌, ◌≤◌, ◌<◌, ◌≡◌, refl, ap, ◌∙◌, true, false, ◌++◌, drop, length, length-append,
  take-length-append, drop-length-append, arith, ltb,
}
use mini_ftpd.Text.Bytes.{Bytes}
use mini_ftpd.Text.Stream.{u32_mod}
use mini_ftpd.Socket.Channel.{Channel, IsReliable}
use mini_ftpd.Socket.Transfer.{count, is_count, read_n}
use mini_ftpd.Socket.ReadN.{read_n-Reads}
use mini_ftpd.Socket.WriteN.{write_n-Writes}
use mini_ftpd.Socket.Message.Defs.{
  returned, failed, u32_bytes, u32_value, overwrite, send_rest, send_buf, checked_int, get_int,
  fill, recv_rest, recv_buf,
}

-- A message: its length in four bytes, and its bytes.
abbrev pub message : Bytes → Bytes
message buf = u32_bytes (length buf) ++ buf

u32_value-u32_bytes : (n : ℕ) → n < u32_mod → u32_value (u32_bytes n) ≡ n
unfolding u32_value u32_bytes
u32_value-u32_bytes n h = omega arith

length-u32_bytes : (n : ℕ) → length (u32_bytes n) ≡ 4
unfolding u32_bytes
length-u32_bytes n = refl

is_count_self : (n : ℕ) → is_count (count n) n ≡ true
is_count_self n = ground arith

module _ (k : Channel) (ok : IsReliable k) where
  open k use {World}
  open ok use {pending, delivered, patience}

  -- Where the bytes wanted stand at the front of the stream, `read_n` takes just these.
  pub read_n-front :
      (f : ℕ) (bs rest : Bytes) (w : World)
      → length bs + patience w < f
      → pending w ≡ bs ++ rest
      → (w' : World) × (read_n k f (length bs) w ≡ (count (length bs), bs, w'))
        × (pending w' ≡ rest)
        × (patience w' ≤ patience w)
  read_n-front f bs rest w l e =
      let (w', run, left, p) = read_n-Reads k ok f (length bs) w l in
      let all : min (length bs) (length (pending w)) ≡ length bs =
        rw e (omega (arith, length-append bs rest)) in
      (
        w',
        run ∙ rw all (rw e (rw (take-length-append bs rest) refl)),
        left ∙ rw e (drop-length-append bs rest),
        p,
      )

  -- On a descriptor that does not fail, `send_buf` returns, and has written the message of the
  -- buffer behind what was written before.
  pub send_buf-delivered :
      (f : ℕ) (buf : Bytes) (w : World)
      → length buf + 4 + patience w < f
      → (w' : World) × (send_buf k f buf w ≡ (returned tt, w'))
        × (delivered w' ≡ delivered w ++ message buf)
  unfolding send_buf send_rest
  send_buf-delivered f buf w l =
      let head = u32_bytes (length buf) in
      let four = length-u32_bytes (length buf) in
      let (w1, run1, sent1, p1) = write_n-Writes k ok f head w (omega (arith, four)) in
      let (w2, run2, sent2, p2) = write_n-Writes k ok f buf w1 (omega arith) in
      (
        w2,
        rw run1 (rw run2 (rw (is_count_self (length buf)) refl)),
        sent2 ∙ rw sent1 (append_assoc (delivered w) head buf),
      )

  get_int-front :
      (f n : ℕ) (rest : Bytes) (w : World)
      → 4 + patience w < f
      → n < u32_mod
      → pending w ≡ u32_bytes n ++ rest
      → (w' : World) × (get_int k f w ≡ (returned n, w'))
        × (pending w' ≡ rest)
        × (patience w' ≤ patience w)
  unfolding get_int checked_int
  get_int-front f n rest w l small e =
      let head = u32_bytes n in
      let four = length-u32_bytes n in
      let (w', run, left, p) = read_n-front f head rest w (omega (arith, four)) e in
      (
        w',
        rw (← four)
            (rw run (rw (is_count_self (length head)) (rw (u32_value-u32_bytes n small) refl))),
        left,
        p,
      )

  -- `recv_buf` returns, and takes the message and no byte more, where it stands at the front of the
  -- stream of a descriptor that does not fail and its bytes fit the buffer: they are at the front of
  -- the buffer, and the rest of it is as before.
  pub recv_buf-message :
      (f : ℕ) (old buf rest : Bytes) (w : World)
      → length buf + 4 + patience w < f
      → length buf < u32_mod
      → length buf ≤ length old
      → pending w ≡ message buf ++ rest
      → (w' : World) × (recv_buf k f old w ≡ (returned tt, overwrite buf old, w'))
        × (pending w' ≡ rest)
  unfolding recv_buf recv_rest fill
  recv_buf-message f old buf rest w l small fit e =
      let (w1, run1, left1, p1) =
        get_int-front f (length buf) (buf ++ rest) w (omega arith) small
          (e ∙ append_assoc (u32_bytes (length buf)) buf rest) in
      let (w2, run2, left2, p2) = read_n-front f buf rest w1 (omega arith) left1 in
      let room : ltb (length old) (length buf) ≡ false = ground arith in
      (w2, rw run1 (rw room (rw run2 (rw (is_count_self (length buf)) refl))), left2)

  -- A message longer than the buffer ends the process, and the buffer is as before.
  pub recv_buf-too_long :
      (f n : ℕ) (old rest : Bytes) (w : World)
      → 4 + patience w < f
      → n < u32_mod
      → length old < n
      → pending w ≡ u32_bytes n ++ rest
      → (w' : World) × (recv_buf k f old w ≡ (failed, old, w')) × (pending w' ≡ rest)
  unfolding recv_buf recv_rest
  recv_buf-too_long f n old rest w l small over e =
      let (w1, run1, left1, p1) = get_int-front f n rest w l small e in
      let full : ltb (length old) n ≡ true = ground arith in (w1, rw run1 (rw full refl), left1)

module _ (a b : Channel) (a_ok : IsReliable a) (b_ok : IsReliable b) where
  -- What one end of a connection sends by `send_buf`, the other end gets by `recv_buf`: where the
  -- bytes to come are those that the call has written, with others behind them, and the buffer is
  -- large enough, the receiver returns with the same bytes at the front of its buffer, and leaves
  -- the others on the stream.
  pub recv_buf-send_buf :
      (f g : ℕ) (buf old rest : Bytes) (w : a.World) (v : b.World)
      → length buf + 4 + a_ok.patience w < f
      → length buf + 4 + b_ok.patience v < g
      → length buf < u32_mod
      → length buf ≤ length old
      → b_ok.pending v
        ≡ drop (length (a_ok.delivered w)) (a_ok.delivered (send_buf a f buf w).1) ++ rest
      → ((send_buf a f buf w).0 ≡ returned tt)
        × (v' : b.World) × (recv_buf b g old v ≡ (returned tt, overwrite buf old, v'))
        × (b_ok.pending v' ≡ rest)
  recv_buf-send_buf f g buf old rest w v l m small fit e =
      let (w', run, sent) = send_buf-delivered a a_ok f buf w l in
      let last : a_ok.delivered (send_buf a f buf w).1 ≡ a_ok.delivered w ++ message buf =
        rw run sent in
      let front : b_ok.pending v ≡ message buf ++ rest =
        e ∙ rw last (ap (λ x. x ++ rest) (drop-length-append (a_ok.delivered w) (message buf))) in
      let (v', got, left) = recv_buf-message b b_ok g old buf rest v m small fit front in
      (rw run refl, v', got, left)
