-- ===== src/Socket/ReadN.antt =====
-- The loop of `read_n` of socket/block_socket.cpp.
use mathlib.Core.List.{append-nil, append_assoc}
use mini_ftpd.Prelude.{
  ℕ, zero, suc, ◌+◌, ◌-◌, ◌≤◌, ◌<◌, ◌≡◌, refl, sym, ap, ◌∙◌, false, [], ◌∷◌, ◌++◌, take, drop,
  length, length-append, arith, ◌==◌,
}
use Prim.Native.Nat.{min}
use mini_ftpd.Text.Bytes.{Bytes}
use mini_ftpd.Socket.Channel.{Channel, Received, got, IsReliable}
use mini_ftpd.Socket.Transfer.{Ret, count, read_loop, read_n}

pub take-append :
    (n : ℕ) (a b : Bytes) → length a ≤ n → take n (a ++ b) ≡ a ++ take (n - length a) b
take-append n [] b h = let e : n - 0 ≡ n = omega arith in rw e refl
take-append zero (x ∷ a) b h = absurd (omega arith)
take-append (suc n) (x ∷ a) b h =
    let e : suc n - suc (length a) ≡ n - length a = omega arith in
    rw e (ap (◌∷◌ x) (take-append n a b (omega arith)))

pub drop-append : (n : ℕ) (a b : Bytes) → length a ≤ n → drop n (a ++ b) ≡ drop (n - length a) b
drop-append n [] b h = let e : n - 0 ≡ n = omega arith in rw e refl
drop-append zero (x ∷ a) b h = absurd (omega arith)
drop-append (suc n) (x ∷ a) b h =
    let e : suc n - suc (length a) ≡ n - length a = omega arith in
    rw e (drop-append n a b (omega arith))

pub take-nil : (n : ℕ) → take {A = ℕ} n [] ≡ []
take-nil zero = refl
take-nil (suc n) = refl

pub drop-nil : (n : ℕ) → drop {A = ℕ} n [] ≡ []
drop-nil zero = refl
drop-nil (suc n) = refl

module _ (k : Channel) (ok : IsReliable k) where
  open k use {World}
  open ok use {pending, patience, read_works, read_got, read_interrupted}

  -- The next `n` bytes of the stream, or all that are left, have been put behind `buf`.
  abbrev pub Reads : ℕ → ℕ → Bytes → World → Ret × Bytes × World → Type 0
  Reads total n buf w r =
      (w' : World) × (r
        ≡ (count (total - (n - min n (length (pending w)))), buf ++ take n (pending w), w'))
      × (pending w' ≡ drop n (pending w))
      × (patience w' ≤ patience w)

  abbrev Loops : ℕ → Type 0
  Loops f =
      (total n : ℕ) (buf : Bytes) (w : World)
      → n ≤ total
      → n + patience w < f
      → Reads total n buf w (read_loop k f total n buf w)

  -- What arrived comes first, and the next round reads the rest.
  Reads-append :
      (total n : ℕ) (buf bs : Bytes) (w w1 : World) (r : Ret × Bytes × World)
      → pending w ≡ bs ++ pending w1
      → length bs ≤ n
      → patience w1 ≤ patience w
      → Reads total (n - length bs) (buf ++ bs) w1 r
      → Reads total n buf w r
  Reads-append total n buf bs w w1 r e fit less (w', same, left, p) =
      let counts : n - length bs - min (n - length bs) (length (pending w1))
          ≡ n - min n (length (pending w)) =
        omega (arith, ap length e, length-append bs (pending w1)) in
      let taken : (buf ++ bs) ++ take (n - length bs) (pending w1) ≡ buf ++ take n (pending w) =
        append_assoc buf bs _
        ∙ ap (◌++◌ buf) (sym (take-append n bs (pending w1) fit) ∙ ap (take n) (sym e)) in
      (
        w',
        same ∙ (λ i. (count (total - counts i), taken i, w')),
        left ∙ sym (drop-append n bs (pending w1) fit) ∙ ap (drop n) (sym e),
        omega arith,
      )

  read_round :
      (f total n : ℕ) (buf : Bytes) (w : World) (r : Received) (w1 : World)
      → Loops f
      → n ≤ total
      → 0 < n
      → n + patience w < suc f
      → k.read n w ≡ (r, w1)
      → Reads total n buf w (read_loop k (suc f) total n buf w)
  unfolding read_loop
  read_round f total n buf w Received.broken w1 ih h pos l e = absurd (read_works n w (rw e refl))
  read_round f total n buf w Received.interrupted w1 ih h pos l e =
      let (same, less) = read_interrupted n w w1 e in
      let some_left : (n == 0) ≡ false = ground arith in
      let (w', run, left, p) = ih total n buf w1 h (omega arith) in
      rw (some_left, read_loop)
        (rw e (rw e (w', run ∙ rw same refl, left ∙ ap (drop n) same, omega arith)))
  read_round f total n buf w (got []) w1 ih h pos l e =
      let (front, fit, ended, less) = read_got n w w1 [] pos e in
      let nothing = ended refl in
      let none_read : n ≡ n - min n 0 = omega arith in
      let some_left : (n == 0) ≡ false = ground arith in
      rw (some_left, read_loop)
        (rw e (
          rw e (
            w1,
            rw nothing
                (rw (take-nil n) (rw append-nil (λ i. (count (total - none_read i), buf, w1)))),
            sym front ∙ nothing ∙ sym (rw nothing (drop-nil n)),
            less,
          )))
  read_round f total n buf w (got (c ∷ bs)) w1 ih h pos l e =
      let (front, fit, ended, less) = read_got n w w1 (c ∷ bs) pos e in
      let some_left : (n == 0) ≡ false = ground arith in
      let some_read : (length (c ∷ bs) == 0) ≡ false = ground arith in
      rw (some_left, read_loop)
        (rw e (
          rw some_read (
            rw e (
              Reads-append total n buf (c ∷ bs) w w1 _ front fit less
                (ih total (n - length (c ∷ bs)) (buf ++ c ∷ bs) w1 (omega arith) (omega arith))))))

  read_loop-done :
      (f total : ℕ) (buf : Bytes) (w : World)
      → Reads total 0 buf w (read_loop k (suc f) total 0 buf w)
  unfolding read_loop
  read_loop-done f total buf w =
      let all : total ≡ total - (0 - min 0 (length (pending w))) = omega arith in
      (w, rw append-nil (λ i. (count (all i), buf, w)), refl, omega arith)

  read_loop-Reads : (f : ℕ) → Loops f
  read_loop-Reads zero total n buf w h l = elim l [ ]
  read_loop-Reads (suc f) total zero buf w h l = read_loop-done f total buf w
  read_loop-Reads (suc f) total (suc n) buf w h l =
      read_round f total (suc n) buf w (k.read (suc n) w).0 (k.read (suc n) w).1 (read_loop-Reads f)
        h (omega arith) l refl

  -- On a descriptor that does not fail, `read_n` ends and returns the next `total` bytes of the
  -- stream, or all that the peer sends before it closes, whatever pieces the bytes arrive in and
  -- however often the calls are interrupted. It returns their count and takes no byte more. The
  -- fuel is more than the bytes wanted and the interruptions to come.
  pub read_n-Reads :
      (f total : ℕ) (w : World)
      → total + patience w < f
      → (w' : World) × (read_n k f total w
          ≡ (count (min total (length (pending w))), take total (pending w), w'))
        × (pending w' ≡ drop total (pending w))
        × (patience w' ≤ patience w)
  unfolding read_n
  read_n-Reads f total w l =
      let (w', run, left, p) = read_loop-Reads f total total [] w (omega arith) l in
      let counted : total - (total - min total (length (pending w)))
          ≡ min total (length (pending w)) =
        omega arith in
      (w', run ∙ (λ i. (count (counted i), take total (pending w), w')), left, p)
