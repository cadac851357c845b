-- ===== src/Socket/Message/Char.antt =====
-- `get_char` of socket/block_socket.cpp against the stream.
use mini_ftpd.Prelude.{ℕ, zero, suc, ◌≤◌, ◌<◌, ◌≡◌, refl, sym, ◌∙◌, Option, some, [], ◌∷◌, arith}
use mini_ftpd.Text.Bytes.{Bytes}
use mini_ftpd.Socket.Channel.{Channel, Received, got, IsReliable}
use mini_ftpd.Socket.Message.Defs.{after_get, get_char}

-- The front byte of a stream, or what stands for it at the end, and the rest.
abbrev pub head_or : ℕ → Bytes → ℕ
head_or memory [] = memory
head_or memory (c ∷ cs) = c

abbrev pub tail : Bytes → Bytes
tail [] = []
tail (c ∷ cs) = cs

module _ (k : Channel) (ok : IsReliable k) where
  open k use {World}
  open ok use {pending, patience, read_works, read_got, read_interrupted}

  abbrev pub Gets : ℕ → World → Option (ℕ × World) → Type 0
  Gets memory w r =
      (w' : World) × (r ≡ some (head_or memory (pending w), w'))
      × (pending w' ≡ tail (pending w))
      × (patience w' ≤ patience w)

  abbrev Loops : ℕ → Type 0
  Loops f = (memory : ℕ) (w : World) → patience w < f → Gets memory w (get_char k f memory w)

  get_round :
      (f memory : ℕ) (w : World) (r : Received) (w1 : World)
      → Loops f
      → patience w < suc f
      → k.read 1 w ≡ (r, w1)
      → Gets memory w (after_get k memory (get_char k f memory) (r, w1))
  unfolding after_get
  get_round f memory w Received.broken w1 ih l e = absurd (read_works 1 w (rw e refl))
  get_round f memory w Received.interrupted w1 ih l e =
      let (same, less) = read_interrupted 1 w w1 e in
      rw (← same)
        (let (w', run, left, p) = ih memory w1 (omega arith) in (w', run, left, omega arith))
  get_round f memory w (got []) w1 ih l e =
      let (front, fit, ended, p) = read_got 1 w w1 [] (omega arith) e in
      let none_left = ended refl in rw none_left (w1, refl, sym front ∙ none_left, p)
  get_round f memory w (got (c ∷ [])) w1 ih l e =
      let (front, fit, ended, p) = read_got 1 w w1 (c ∷ []) (omega arith) e in
      rw front (w1, refl, refl, p)
  get_round f memory w (got (c ∷ d ∷ bs)) w1 ih l e =
      let (front, fit, ended, p) = read_got 1 w w1 (c ∷ d ∷ bs) (omega arith) e in
      absurd (omega (arith, fit))

  get_char-Loops : (f : ℕ) → Loops f
  unfolding get_char
  get_char-Loops zero memory w l = elim l [ ]
  get_char-Loops (suc f) memory w l =
      get_round f memory w (k.read 1 w).0 (k.read 1 w).1 (get_char-Loops f) l refl

  -- On a descriptor that does not fail, `get_char` returns the next byte and takes no other; at the
  -- end of the stream it returns what its variable happened to hold. The fuel is more than the
  -- interruptions to come.
  pub get_char-Gets :
      (f memory : ℕ) (w : World) → patience w < f → Gets memory w (get_char k f memory w)
  get_char-Gets = get_char-Loops
