-- ===== src/Session/Split/Laws.antt =====
-- The tokens of `split` against a description of them that names no position.
use mathlib.Core.List.{append-nil, append_assoc}
use mini_ftpd.Prelude.{
  ℕ, zero, suc, ◌+◌, ◌-◌, ◌<◌, ◌≡◌, refl, ap, ◌∙◌, Bool, true, false, not, Option, none, some, List,
  [], ◌∷◌, ◌++◌, drop, length, length-append, take-length-append, arith, All,
}
use mini_ftpd.Text.Bytes.{Bytes}
use mini_ftpd.Text.Decimal.{Stops}
use mini_ftpd.Session.Split.Defs.{
  is_delim, find_in, find_from, find_first_of, find_first_not_of, substr_to, split_loop, split,
}
use mini_ftpd.Session.Split.Words.{Splits, drop-drop, scan, find_in-append, All-not}

-- Behind a gap stands no delimiter.
module _ (delimiters : Bytes) (s : Bytes) where
  abbrev delim : ℕ → Bool
  delim = is_delim delimiters

  abbrev loop_at : ℕ → Option ℕ → List Bytes → Option (List Bytes)
  loop_at f pos tokens =
      let start = find_first_not_of delimiters pos s in
      split_loop f delimiters s start (find_first_of delimiters start s) tokens

  loop_at_end : (f : ℕ) (tokens : List Bytes) → 0 < f → loop_at f none tokens ≡ some tokens
  unfolding split_loop find_first_of find_first_not_of find_from
  loop_at_end zero tokens h = elim h [ ]
  loop_at_end (suc f) tokens h = refl

  find_not :
      (pos : ℕ) (gap rest : Bytes)
      → drop pos s ≡ gap ++ rest
      → All (λ c. not (delim c) ≡ false) gap
      → find_first_not_of delimiters (some pos) s
        ≡ find_in (λ c. not (delim c)) (pos + length gap) rest
  unfolding find_first_not_of find_from
  find_not pos gap rest e h = rw e (find_in-append _ pos gap rest h)

  find_delim :
      (pos : ℕ) (word rest : Bytes)
      → drop pos s ≡ word ++ rest
      → All (λ c. delim c ≡ false) word
      → find_first_of delimiters (some pos) s ≡ find_in delim (pos + length word) rest
  unfolding find_first_of find_from
  find_delim pos word rest e h = rw e (find_in-append _ pos word rest h)

  -- The loop from `pos` on appends the words of what stands there.
  abbrev Appends : ℕ → ℕ → Bytes → List Bytes → Type 0
  Appends f pos xs tokens =
      (ts : List Bytes) × (loop_at f (some pos) tokens ≡ some (tokens ++ ts)) × Splits delim xs ts

  find_in-stop :
      (p : ℕ → Bool) (i : ℕ) (c : ℕ) (r : Bytes) → p c ≡ true → find_in p i (c ∷ r) ≡ some i
  unfolding find_in
  find_in-stop p i c r h = rw (h, find_in)

  loop_gap_only :
      (f pos : ℕ) (gap : Bytes) (tokens : List Bytes)
      → 0 < f
      → drop pos s ≡ gap ++ []
      → All (λ c. not (delim c) ≡ false) gap
      → Appends f pos gap tokens
  unfolding find_first_not_of find_from
  loop_gap_only f pos gap tokens h e g =
      let none_left : find_first_not_of delimiters (some pos) s ≡ none =
        find_not pos gap [] e g ∙ unfold find_in in refl in
      ([], rw none_left (rw append-nil (loop_at_end f tokens h)), Splits.done (All-not delim gap g))

  -- Where the word that ends before `rest` was found.
  abbrev found_at : ℕ → Bytes → Option ℕ
  found_at pos [] = none
  found_at pos (_ ∷ _) = some pos

  find_in-found_at :
      (pos : ℕ) (rest : Bytes)
      → Stops (λ c. not (delim c)) rest
      → find_in delim pos rest ≡ found_at pos rest
  unfolding find_in
  find_in-found_at pos [] h = refl
  find_in-found_at pos (c ∷ r) h = find_in-stop delim pos c r (ground arith)

  substr_to-word :
      (pos : ℕ) (word rest : Bytes)
      → drop pos s ≡ word ++ rest
      → substr_to pos (found_at (pos + length word) rest) s ≡ word
  unfolding substr_to
  substr_to-word pos word [] e = e ∙ append-nil word
  substr_to-word pos word (c ∷ r) e =
      let n : pos + length word - pos ≡ length word = omega arith in
      rw (n, e) (take-length-append word (c ∷ r))

  -- One round of the loop takes one word.
  loop_word :
      (f pos c : ℕ) (gap w rest : Bytes) (tokens : List Bytes)
      → drop pos s ≡ gap ++ (c ∷ w ++ rest)
      → All (λ c. not (delim c) ≡ false) gap
      → All (λ c. delim c ≡ false) (c ∷ w)
      → Stops (λ c. not (delim c)) rest
      → loop_at (suc f) (some pos) tokens
        ≡ loop_at f (found_at (pos + length gap + length (c ∷ w)) rest) (tokens ++ (c ∷ w) ∷ [])
  loop_word f pos c gap w rest tokens e g h t =
      let begin = pos + length gap in
      let here : drop begin s ≡ c ∷ w ++ rest = drop-drop pos s gap (c ∷ w ++ rest) e in
      let start : find_first_not_of delimiters (some pos) s ≡ some begin =
        find_not pos gap (c ∷ w ++ rest) e g
        ∙ find_in-stop (λ c. not (delim c)) begin c (w ++ rest) (ground (arith, h.0)) in
      let found : find_first_of delimiters (some begin) s ≡ found_at (begin + length (c ∷ w)) rest =
        find_delim begin (c ∷ w) rest here h ∙ find_in-found_at _ rest t in
      rw start (rw found (unfold split_loop in rw (substr_to-word begin (c ∷ w) rest here)))

  abbrev Loops : ℕ → Type 0
  Loops f =
      (pos : ℕ) (xs : Bytes) (tokens : List Bytes)
      → drop pos s ≡ xs
      → length xs < f
      → Appends f pos xs tokens

  -- What follows a word: nothing, or a shorter text from its end on.
  loop_rest :
      (f pos : ℕ) (rest : Bytes) (tokens : List Bytes)
      → Loops f
      → drop pos s ≡ rest
      → length rest < f
      → (ts : List Bytes) × (loop_at f (found_at pos rest) tokens ≡ some (tokens ++ ts))
        × Splits delim rest ts
  loop_rest f pos [] tokens ih e l =
      ([], rw append-nil (loop_at_end f tokens (omega arith)), Splits.done tt)
  loop_rest f pos (c ∷ r) tokens ih e l = ih pos (c ∷ r) tokens e l

  loop_from :
      (f pos : ℕ) (xs gap after : Bytes) (tokens : List Bytes)
      → Loops f
      → drop pos s ≡ xs
      → length xs < suc f
      → xs ≡ gap ++ after
      → All (λ c. not (delim c) ≡ false) gap
      → Stops (λ c. not (not (delim c))) after
      → Appends (suc f) pos xs tokens
  loop_from f pos xs gap [] tokens ih e l split_at g t =
      let only : xs ≡ gap = split_at ∙ append-nil gap in
      rw only (loop_gap_only (suc f) pos gap tokens (omega arith) (e ∙ split_at) g)
  loop_from f pos xs gap (c ∷ b) tokens ih e l split_at g t =
      let word = scan delim b in
      let w = word.before in
      let rest = word.after in
      let whole : xs ≡ gap ++ (c ∷ w ++ rest) = split_at ∙ ap (λ r. gap ++ (c ∷ r)) word.splits in
      let stop = pos + length gap + length (c ∷ w) in
      let there : drop stop s ≡ rest =
        drop-drop (pos + length gap) s (c ∷ w) rest
          (drop-drop pos s gap (c ∷ w ++ rest) (e ∙ whole)) in
      let short : length rest < f =
        omega (arith, ap length whole, length-append gap (c ∷ w ++ rest), length-append w rest) in
      let (ts, run, words) = loop_rest f stop rest (tokens ++ (c ∷ w) ∷ []) ih there short in
      (
        (c ∷ w) ∷ ts,
        loop_word f pos c gap w rest tokens (e ∙ whole) g (ground arith, word.refused) word.stops
            ∙ run
            ∙ ap some (append_assoc tokens ((c ∷ w) ∷ []) ts),
        Splits.token gap (c ∷ w) rest whole (All-not delim gap g) (λ n. cc n)
            (ground arith, word.refused) word.stops words,
      )

  loop_words : (f : ℕ) → Loops f
  loop_words zero pos xs tokens e l = elim l [ ]
  loop_words (suc f) pos xs tokens e l =
      let gap = scan (λ c. not (delim c)) xs in
      loop_from f pos xs gap.before gap.after tokens (loop_words f) e l gap.splits gap.refused
        gap.stops

-- `split` ends within its rounds, never takes a substring from `npos`, and returns exactly the
-- words of the string: the longest runs without a delimiter, in order, with only delimiters
-- between them.
pub split-Splits :
    (s delimiters : Bytes)
    → (ts : List Bytes) × (split s delimiters ≡ some ts) × Splits (is_delim delimiters) s ts
unfolding split
split-Splits s delimiters = loop_words delimiters s (length s + 1) 0 s [] refl (omega arith)
