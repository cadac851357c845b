-- ===== src/Socket/Readline.antt =====
-- `readline` of socket/block_socket.cpp against the line to come.
use Prim.Native.Nat.{min}
use mathlib.Core.List.{append-nil, append_assoc}
use mini_ftpd.Prelude.{
  ℕ, zero, suc, ◌+◌, ◌-◌, ◌≤◌, ◌<◌, ◌≡◌, refl, sym, ap, ◌∙◌, true, false, Option, none, some, [],
  ◌∷◌, ◌++◌, take, drop, length, length-append, length-take, drop-length-append, take-length-append,
  arith, ltb, ◌==◌, if◌then◌else◌, Bool-cases, inl, inr,
}
use mini_ftpd.Text.Bytes.{Bytes}
use mini_ftpd.Socket.Channel.{Channel, Received, got, IsReliable}
use mini_ftpd.Socket.Transfer.{
  Ret, count, after_peek, recv_peek, newline_at, end_line, next_part, take_peeked, peeked,
  readline_loop, readline, read_n,
}
use mini_ftpd.Socket.ReadN.{read_n-Reads, drop-append}
use mini_ftpd.Socket.Lines.{
  first_line, has_line, ends_line, first_line-newline, first_line-none, has_line-nil,
}

module _ (k : Channel) (ok : IsReliable k) where
  open k use {World}
  open ok use {pending, patience, peek_works, peek_got, peek_interrupted}

  -- What a peek shows: the next bytes, which stay where they are; none only at the end.
  abbrev Peeks : ℕ → World → Option Received × World → Type 0
  Peeks n w r =
      (bs later : Bytes) × (w' : World) × (r ≡ (some (got bs), w'))
      × (pending w' ≡ pending w)
      × (pending w ≡ bs ++ later)
      × (length bs ≤ n)
      × (bs ≡ [] → pending w ≡ [])
      × (patience w' ≤ patience w)

  peek_round :
      (f n : ℕ) (w : World) (r : Received) (w1 : World)
      → ((w2 : World) → patience w2 < f → Peeks n w2 (recv_peek k f n w2))
      → 0 < n
      → patience w < suc f
      → k.recv_peek n w ≡ (r, w1)
      → Peeks n w (after_peek k (recv_peek k f n) (r, w1))
  unfolding after_peek
  peek_round f n w Received.broken w1 ih pos l e = absurd (peek_works n w (rw e refl))
  peek_round f n w Received.interrupted w1 ih pos l e =
      let (same, less) = peek_interrupted n w w1 e in
      let (bs, later, w', run, kept, front, fit, ended, p) = ih w1 (omega arith) in
      (bs, later, w', run, kept ∙ same, sym same ∙ front, fit, λ z. sym same ∙ ended z, omega arith)
  peek_round f n w (got bs) w1 ih pos l e =
      let (kept, (later, front), fit, ended, p) = peek_got n w w1 bs pos e in
      (bs, later, w1, refl, kept, front, fit, ended, p)

  recv_peek-Peeks : (f n : ℕ) (w : World) → 0 < n → patience w < f → Peeks n w (recv_peek k f n w)
  unfolding recv_peek
  recv_peek-Peeks zero n w pos l = elim l [ ]
  recv_peek-Peeks (suc f) n w pos l =
      peek_round f n w (k.recv_peek n w).0 (k.recv_peek n w).1
        (λ w2 l2. recv_peek-Peeks f n w2 pos l2) pos l refl

  -- The value of a finished call: the address behind the newline, or the room if it is full.
  abbrev line_value : ℕ → ℕ → ℕ → ℕ → Bytes → ℕ
  line_value base max_len used n s =
      if ends_line n s then base + used + length (first_line n s) else max_len - 1

  -- A line is there: it is in the buffer and off the stream. None is there: the peer has closed, and
  -- the call returns 0.
  abbrev LineFrom : ℕ → ℕ → ℕ → Bytes → World → Ret × Bytes × World → Type 0
  LineFrom base max_len n buf w r =
      (w' : World) × (has_line n (pending w) ≡ true
        → (r ≡ (
          count (line_value base max_len (length buf) n (pending w)),
          buf ++ first_line n (pending w),
          w',
        ))
          × (pending w' ≡ drop (length (first_line n (pending w))) (pending w)))
      × (has_line n (pending w) ≡ false → (r.0 ≡ count 0) × (r.2 ≡ w') × (pending w' ≡ []))

  -- A part with no newline has been read: the line goes on behind it.
  LineFrom-append :
      (base max_len n : ℕ) (buf bs : Bytes) (w w2 : World) (r : Ret × Bytes × World)
      → pending w ≡ bs ++ pending w2
      → newline_at bs 0 ≡ none
      → length bs ≤ n
      → LineFrom base max_len (n - length bs) (buf ++ bs) w2 r
      → LineFrom base max_len n buf w r
  LineFrom-append base max_len n buf bs w w2 r front miss fit (w', there, missing) =
      let (line, whole, stops) = first_line-none n bs (pending w2) 0 miss fit in
      let tail = first_line (n - length bs) (pending w2) in
      let longer = length-append bs tail in
      let used : base + length (buf ++ bs) + length tail ≡ base + length buf + length (bs ++ tail) =
        omega (arith, length-append buf bs, longer) in
      let rest : length (bs ++ tail) - length bs ≡ length tail = omega (arith, longer) in
      rw front (
        rw (line, whole, stops)
          (
            w',
            (λ h.
                let (run, left) = there h in
                (
                  run ∙ (λ i. (
                    count (if ends_line (n - length bs) (pending w2) then used i else max_len - 1),
                    append_assoc buf bs tail i,
                    w',
                  )),
                  left
                      ∙ sym (
                          drop-append (length (bs ++ tail)) bs (pending w2) (omega (arith, longer))
                          ∙ ap (λ m. drop m (pending w2)) rest),
                )),
            missing,
          ))

  -- Reading what was peeked at.
  read_peeked :
      (fuel n : ℕ) (w : World)
      → n + patience w < fuel
      → n ≤ length (pending w)
      → (w2 : World) × (read_n k fuel n w ≡ (count n, take n (pending w), w2))
        × (pending w2 ≡ drop n (pending w))
        × (patience w2 ≤ patience w)
  read_peeked fuel n w l h =
      let (w2, run, left, p) = read_n-Reads k ok fuel n w l in
      let all : min n (length (pending w)) ≡ n = omega arith in
      (w2, run ∙ (λ i. (count (all i), take n (pending w), w2)), left, p)

  module _ (fuel base max_len : ℕ) where
    abbrev Lines : ℕ → Type 0
    Lines f =
        (n : ℕ) (buf : Bytes) (w : World)
        → n < f
        → n + patience w < fuel
        → LineFrom base max_len n buf w (readline_loop k f fuel base max_len n buf w)

    take_round :
        (f n : ℕ) (buf : Bytes) (c : ℕ) (bs later : Bytes) (w w1 : World) (o : Option ℕ)
        → Lines f
        → n < suc f
        → n + patience w1 < fuel
        → pending w1 ≡ pending w
        → pending w ≡ (c ∷ bs) ++ later
        → length (c ∷ bs) ≤ n
        → newline_at (c ∷ bs) 0 ≡ o
        → LineFrom base max_len n buf w (
            take_peeked k fuel base n buf
              (c ∷ bs)
              (readline_loop k f fuel base max_len (n - length (c ∷ bs)))
              o
              w1)
    unfolding take_peeked end_line next_part
    take_round f n buf c bs later w w1 (some i) ih l m kept front fit e =
        let same = kept ∙ front in
        let (line, whole, stops, _, inside) = first_line-newline n (c ∷ bs) later 0 i e fit in
        let start : i - 0 + 1 ≡ i + 1 = omega arith in
        let long : i + 1 ≤ length (pending w1) =
          omega (arith, ap length same, length-append (c ∷ bs) later) in
        let (w2, run, left, p) = read_peeked fuel (i + 1) w1 (omega arith) long in
        let line' = line ∙ ap (λ m. take m (c ∷ bs ++ later)) start in
        let sized : length (take (i + 1) (c ∷ bs ++ later)) ≡ i + 1 =
          omega (arith, length-take (i + 1) (c ∷ bs ++ later), ap length same) in
        let sized' = sym sized in
        let counted : (i + 1 == i + 1) ≡ true = ground arith in
        rw front (
          rw (line', whole, stops)
            (rw run (
              rw counted (
                w2,
                (λ _. (
                  (λ j. (count (base + length buf + sized' j), buf ++ take (i + 1) (same j), w2)),
                  left ∙ rw same (rw sized refl),
                )),
                (λ h. cc h),
              ))))
    take_round f n buf c bs later w w1 none ih l m kept front fit e =
        let same = kept ∙ front in
        let long : length (c ∷ bs) ≤ length (pending w1) =
          omega (arith, ap length same, length-append (c ∷ bs) later) in
        let (w2, run, left, p) = read_peeked fuel (length (c ∷ bs)) w1 (omega arith) long in
        let behind : pending w2 ≡ later = left ∙ rw same (drop-length-append (c ∷ bs) later) in
        let part : take (length (c ∷ bs)) (pending w1) ≡ c ∷ bs =
          rw same (take-length-append (c ∷ bs) later) in
        let room : ltb n (length (c ∷ bs)) ≡ false = ground arith in
        let counted : (length (c ∷ bs) == length (c ∷ bs)) ≡ true = ground arith in
        rw room (
          rw run (
            rw counted (
              rw part (
                LineFrom-append base max_len n buf (c ∷ bs) w w2 _
                  (front ∙ ap (◌++◌ (c ∷ bs)) (sym behind)) e fit
                  (ih (n - length (c ∷ bs)) (buf ++ c ∷ bs) w2 (omega arith) (omega arith))))))

    peeked_round :
        (f n : ℕ) (buf : Bytes) (w : World) (r : Option Received × World)
        → Lines f
        → 0 < n
        → n < suc f
        → n + patience w < fuel
        → Peeks n w r
        → LineFrom base max_len n buf w
            (peeked k fuel base n buf (readline_loop k f fuel base max_len) r)
    unfolding peeked
    peeked_round f n buf w r ih pos l m ([], later, w1, run, kept, front, fit, ended, p) =
        let none_left = ended refl in
        let no_line = has_line-nil n pos in
        rw run (rw none_left (w1, (λ h. cc (h, no_line)), (λ _. (refl, refl, kept ∙ none_left))))
    peeked_round f n buf w r ih pos l m (c ∷ bs, later, w1, run, kept, front, fit, ended, p) =
        rw run (
          take_round f n buf c bs later w w1 (newline_at (c ∷ bs) 0) ih l (omega arith) kept front
            fit refl)

    readline_loop-LineFrom : (f : ℕ) → Lines f
    unfolding readline_loop
    readline_loop-LineFrom zero n buf w l m = elim l [ ]
    readline_loop-LineFrom (suc f) zero buf w l m =
        unfold first_line has_line ends_line in (w, (λ _. (rw append-nil refl, refl)), (λ h. cc h))
    readline_loop-LineFrom (suc f) (suc n) buf w l m =
        peeked_round f (suc n) buf w (recv_peek k fuel (suc n) w) (readline_loop-LineFrom f)
          (omega arith) l m (recv_peek-Peeks fuel (suc n) w (omega arith) (omega arith))

  -- On a descriptor that does not fail, `readline` with a buffer of `max_len` bytes, at least one,
  -- ends. Let `n` be `max_len - 1`. Where a newline, or `n` bytes, are still to come, the buffer then
  -- holds exactly the bytes up to the first newline, or the first `n`; these and no others are off
  -- the stream, and the value is the address behind the newline, or `n`. Otherwise the peer has
  -- closed, the value is 0, and nothing is left. The pieces in which the bytes arrive make no
  -- difference. The fuel is more than `max_len` and the
  -- interruptions to come.
  pub readline-first_line :
      (fuel base max_len : ℕ) (w : World)
      → 0 < max_len
      → max_len + patience w < fuel
      → let n = max_len - 1 in
        let r = readline k fuel base max_len w in
        let line = first_line n (pending w) in
        (w' : World) × (if has_line n (pending w)
          then (r ≡ (count (if ends_line n (pending w) then base + length line else n), line, w'))
            × (pending w' ≡ drop (length line) (pending w))
          else (r.0 ≡ count 0) × (r.2 ≡ w') × (pending w' ≡ []))
  unfolding readline
  readline-first_line fuel base max_len w pos l =
      let start : base + 0 ≡ base = omega arith in
      let (w', full, short) = rw start at (
        readline_loop-LineFrom fuel base max_len max_len (max_len - 1) [] w (omega arith)
          (omega arith)) in
      (
        w',
        elim (Bool-cases (has_line (max_len - 1) (pending w))) [
          | inl found ↦ rw found (full found)
          | inr lacking ↦ rw lacking (short lacking)
        ],
      )
