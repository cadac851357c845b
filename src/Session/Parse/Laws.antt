-- ===== src/Session/Parse/Laws.antt =====
-- What a command line sets `cmd` and `arg` to.
use mini_ftpd.Prelude.{
  ℕ, ◌≡◌, refl, true, false, [], ◌∷◌, ◌++◌, map, arith, ◌==◌, if◌then◌else◌, All,
}
use mini_ftpd.Text.Bytes.{Bytes, is_space, to_upper, str_eq}
use mini_ftpd.Text.Words.{AllSpace, NoSpace, read_word-blank, read_word-append, c_string-no_zero}
use mini_ftpd.Session.Defs.{Session}
use mini_ftpd.Session.Parse.Defs.{site, parse_line}

abbrev pub NoZero : Bytes → Type 0
NoZero = All (λ c. (c == 0) ≡ false)

-- A word and one argument, each ended by white space, become the command in capitals and the
-- argument; the rest of the line is dropped. The command is another than SITE.
pub parse_line-words :
    (s : Session) (gap : Bytes) (c : ℕ) (w : Bytes) (sep : ℕ) (a : ℕ) (arg : Bytes) (stop : ℕ)
    (rest : Bytes)
    → AllSpace gap
    → NoSpace (c ∷ w)
    → is_space sep ≡ true
    → NoSpace (a ∷ arg)
    → is_space stop ≡ true
    → NoZero (gap ++ (c ∷ w ++ (sep ∷ a ∷ arg ++ stop ∷ rest)))
    → str_eq (map to_upper (c ∷ w)) site ≡ false
    → parse_line (gap ++ (c ∷ w ++ (sep ∷ a ∷ arg ++ stop ∷ rest))) s
      ≡ record s { cmd = map to_upper (c ∷ w); arg = a ∷ arg }
parse_line-words s gap c w sep a arg stop rest g cw sp aw st z n =
    let first = read_word-append s.cmd gap c w (sep ∷ a ∷ arg ++ stop ∷ rest) g cw (ground arith) in
    let second = read_word-append [] (sep ∷ []) a arg (stop ∷ rest) (sp, tt) aw (ground arith) in
    unfold parse_line in rw (c_string-no_zero _ z) (rw first (rw n (rw second refl)))

-- A word alone: the argument is empty.
pub parse_line-word :
    (s : Session) (gap : Bytes) (c : ℕ) (w : Bytes) (sep : ℕ) (rest : Bytes)
    → AllSpace gap
    → NoSpace (c ∷ w)
    → is_space sep ≡ true
    → AllSpace rest
    → NoZero (gap ++ (c ∷ w ++ sep ∷ rest))
    → str_eq (map to_upper (c ∷ w)) site ≡ false
    → parse_line (gap ++ (c ∷ w ++ sep ∷ rest)) s
      ≡ record s { cmd = map to_upper (c ∷ w); arg = [] }
parse_line-word s gap c w sep rest g cw sp r z n =
    let first = read_word-append s.cmd gap c w (sep ∷ rest) g cw (ground arith) in
    let second = read_word-blank [] (sep ∷ rest) (sp, r) in
    unfold parse_line in rw (c_string-no_zero _ z) (rw first (rw n (rw second refl)))

-- The stored command is in capitals.
abbrev pub IsUpper : Bytes → Type 0
IsUpper w = map to_upper w ≡ w

to_upper_idem : (c : ℕ) → to_upper (to_upper c) ≡ to_upper c
unfolding to_upper
to_upper_idem c = ground arith

map-to_upper_idem : (w : Bytes) → map to_upper (map to_upper w) ≡ map to_upper w
map-to_upper_idem [] = refl
map-to_upper_idem (c ∷ w) = cc (to_upper_idem c, map-to_upper_idem w)

pub parse_line-IsUpper : (buf : Bytes) (s : Session) → IsUpper (parse_line buf s).cmd
unfolding parse_line
parse_line-IsUpper buf s = map-to_upper_idem _

-- A line that is empty, or one of white space alone, is no command of its own: the last command stands
-- again, with its argument where it was SITE and with an empty one otherwise.
pub parse_line-blank :
    (s : Session) (gap : Bytes)
    → AllSpace gap
    → NoZero gap
    → IsUpper s.cmd
    → parse_line gap s ≡ record s { arg = if str_eq s.cmd site then s.arg else [] }
parse_line-blank s gap g z up =
    unfold parse_line in rw (c_string-no_zero gap z) (rw (read_word-blank s.cmd gap g) (rw up refl))

-- After any command line, a line of white space alone stands for the same command once more:
-- with its old argument where that is SITE, and with an empty one otherwise.
pub parse_line-repeats :
    (buf gap : Bytes) (s : Session)
    → AllSpace gap
    → NoZero gap
    → let s' = parse_line buf s in
      parse_line gap s' ≡ record s' { arg = if str_eq s'.cmd site then s'.arg else [] }
parse_line-repeats buf gap s g z =
    parse_line-blank (parse_line buf s) gap g z (parse_line-IsUpper buf s)
