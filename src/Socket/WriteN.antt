-- ===== src/Socket/WriteN.antt =====
-- The loop of `write_n` of socket/block_socket.cpp.
use mathlib.Core.List.{append-nil, append_assoc}
use mini_ftpd.Prelude.{
  ℕ, zero, suc, ◌+◌, ◌≤◌, ◌<◌, ◌≡◌, refl, sym, ap, ◌∙◌, [], ◌∷◌, ◌++◌, take, drop, length,
  take-append-drop, length-drop, arith,
}
use mini_ftpd.Text.Bytes.{Bytes}
use mini_ftpd.Socket.Channel.{Channel, Written, took, IsReliable}
use mini_ftpd.Socket.Transfer.{Ret, count, after_write, write_loop, write_n}

module _ (k : Channel) (ok : IsReliable k) where
  open k use {World}
  open ok use {delivered, patience, write_works, write_took, write_interrupted}

  abbrev pub Writes : ℕ → Bytes → World → Ret × World → Type 0
  Writes total rest w r =
      (w' : World) × (r ≡ (count total, w'))
      × (delivered w' ≡ delivered w ++ rest)
      × (patience w' ≤ patience w)

  abbrev Loops : ℕ → Type 0
  Loops f =
      (total : ℕ) (rest : Bytes) (w : World)
      → length rest + patience w < f
      → Writes total rest w (write_loop k f total rest w)

  write_round :
      (f total : ℕ) (c : ℕ) (cs : Bytes) (w : World) (r : Written) (w1 : World)
      → Loops f
      → length (c ∷ cs) + patience w < suc f
      → k.write (c ∷ cs) w ≡ (r, w1)
      → Writes total (c ∷ cs) w (after_write k (write_loop k f total) (c ∷ cs) (r, w1))
  unfolding after_write
  write_round f total c cs w Written.broken w1 ih l e = absurd (write_works (c ∷ cs) w (rw e refl))
  write_round f total c cs w Written.interrupted w1 ih l e =
      let (same, less) = write_interrupted (c ∷ cs) w w1 e in
      let (w', run, sent, p) = ih total (c ∷ cs) w1 (omega arith) in
      (w', run, sent ∙ rw same refl, omega arith)
  write_round f total c cs w (took zero) w1 ih l e =
      let (fit, sent1, less, wait) = write_took (c ∷ cs) w w1 0 (omega arith) e in
      let falls = wait refl in
      let (w', run, sent, p) = ih total (c ∷ cs) w1 (omega arith) in
      (w', run, sent ∙ rw sent1 (rw append-nil refl), omega arith)
  write_round f total c cs w (took (suc n)) w1 ih l e =
      let (fit, sent1, less, wait) = write_took (c ∷ cs) w w1 (suc n) (omega arith) e in
      let (w', run, sent, p) = ih total (drop n cs) w1 (omega (arith, length-drop n cs)) in
      (
        w',
        run,
        sent
            ∙ rw sent1 (
                append_assoc (delivered w) (c ∷ take n cs) (drop n cs)
                ∙ ap (λ r. delivered w ++ c ∷ r) (take-append-drop n cs)),
        omega arith,
      )

  write_loop-Writes : (f : ℕ) → Loops f
  unfolding write_loop
  write_loop-Writes zero total rest w l = elim l [ ]
  write_loop-Writes (suc f) total [] w l = (w, refl, sym (append-nil (delivered w)), omega arith)
  write_loop-Writes (suc f) total (c ∷ cs) w l =
      write_round f total c cs w (k.write (c ∷ cs) w).0 (k.write (c ∷ cs) w).1 (write_loop-Writes f)
        l refl

  pub write_n-Writes :
      (f : ℕ) (buf : Bytes) (w : World)
      → length buf + patience w < f
      → Writes (length buf) buf w (write_n k f buf w)
  unfolding write_n
  write_n-Writes f buf w l = write_loop-Writes f (length buf) buf w l

  -- On a descriptor that does not fail, `write_n` ends, has written every byte of the buffer once
  -- and in order behind what was written before, and returns their count, whatever pieces the
  -- kernel takes and however often a call is interrupted or takes nothing. The fuel is more than
  -- the bytes and the idle calls to come.
  pub write_n-delivered :
      (f : ℕ) (buf : Bytes) (w : World)
      → length buf + patience w < f
      → (w' : World) × (write_n k f buf w ≡ (count (length buf), w'))
        × (delivered w' ≡ delivered w ++ buf)
  write_n-delivered f buf w l = let (w', run, sent, p) = write_n-Writes f buf w l in (w', run, sent)
