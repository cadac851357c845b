-- ===== src/Text/Stream.antt =====
-- `std::istringstream` as session.cpp and config.cpp use it: the unread bytes and the state bits.
use mini_ftpd.Prelude.{
  ℕ, ◌+◌, ◌-◌, ◌*◌, ◌%◌, Bool, true, false, not, ◌&&◌, ◌||◌, [], ◌∷◌, leb, ◌==◌, if◌then◌else◌,
}
use mini_ftpd.Text.Bytes.{Bytes, is_space, is_digit}

pub record IStream : Type 0 where
  pub rest : Bytes
  pub eof : Bool
  pub fail : Bool

abbrev pub open_stream : Bytes → IStream
open_stream s = record { rest = s; eof = false; fail = false }

abbrev pub good : IStream → Bool
good s = not (s.eof || s.fail)

unfoldable pub skip_space : Bytes → Bytes
skip_space [] = []
skip_space (c ∷ cs) = elim (is_space c) [ true ↦ skip_space cs | false ↦ c ∷ cs ]

-- The bytes up to the first one that is refused, and the rest.
unfoldable pub span : (ℕ → Bool) → Bytes → Bytes × Bytes
span p [] = ([], [])
span p (c ∷ cs) = elim (p c) [ true ↦ (c ∷ (span p cs).0, (span p cs).1) | false ↦ ([], c ∷ cs) ]

abbrev pub is_empty : Bytes → Bool
is_empty [] = true
is_empty (_ ∷ _) = false

-- The sentry of a formatted input: whether it lets the input go on, and the stream after it.
unfoldable pub sentry : IStream → Bool × IStream
unfolding skip_space
sentry s =
    if good s
    then (let r = skip_space s.rest in
        if is_empty r
        then (false, record { rest = r; eof = true; fail = true })
        else (true, record s { rest = r }))
    else (false, record s { fail = true })

-- The sentry of an unformatted input skips nothing.
abbrev pub raw_sentry : IStream → Bool × IStream
raw_sentry s = if good s then (true, s) else (false, record s { fail = true })

-- `s >> word`. Where the sentry fails the old value stays.
unfoldable pub read_word : Bytes → IStream → Bytes × IStream
unfolding sentry span
read_word old s =
    let (go, t) = sentry s in
    let (w, r) = span (λ c. not (is_space c)) t.rest in
    if go then (w, record t { rest = r; eof = is_empty r }) else (old, t)

abbrev head_or : ℕ → Bytes → ℕ
head_or d [] = d
head_or d (c ∷ _) = c

abbrev tail_of : Bytes → Bytes
tail_of [] = []
tail_of (_ ∷ cs) = cs

-- `s >> c` for a `char`.
unfoldable pub read_char : ℕ → IStream → ℕ × IStream
unfolding sentry
read_char old s =
    let (go, t) = sentry s in
    if go then (head_or old t.rest, record t { rest = tail_of t.rest }) else (old, t)

-- `s.ignore()`.
unfoldable pub ignore : IStream → IStream
ignore s =
    let (go, t) = raw_sentry s in
    if go then record t { rest = tail_of t.rest; eof = is_empty t.rest } else t

-- `std::getline(s, line)`: the delimiter is taken and not kept.
unfoldable pub get_line : Bytes → IStream → Bytes × IStream
unfolding span
get_line old s =
    let (go, t) = raw_sentry s in
    let (w, r) = span (λ c. not (c == 10)) t.rest in
    if go
    then (w, record { rest = tail_of r; eof = is_empty r; fail = is_empty r && is_empty w })
    else (old, t)

unfoldable pub value_from : ℕ → Bytes → ℕ
value_from acc [] = acc
value_from acc (c ∷ cs) = value_from (acc * 10 + (c - 48)) cs

-- A leading sign, whether it is a minus, and what follows.
abbrev pub take_sign : Bytes → Bool × Bytes
take_sign [] = (false, [])
take_sign (c ∷ cs) =
    if c == 45 then (true, cs) else if c == 43 then (false, cs) else (false, c ∷ cs)

abbrev pub u32_mod : ℕ
u32_mod = 4294967296

-- `num_get` for `unsigned int`: 0 if there is no digit, the greatest value on overflow; a minus
-- negates modulo 2^32.
unfoldable pub extract_unsigned : Bytes → ℕ × IStream
unfolding span value_from
extract_unsigned s =
    let (minus, body) = take_sign s in
    let (ds, r) = span is_digit body in
    let n = value_from 0 ds in
    let at_end = is_empty r in
    if is_empty ds
    then (0, record { rest = r; eof = at_end; fail = true })
    else if leb u32_mod n
    then (u32_mod - 1, record { rest = r; eof = at_end; fail = true })
    else (
      if minus then (u32_mod - n) % u32_mod else n,
      record { rest = r; eof = at_end; fail = false },
    )

-- `s >> n` for an `unsigned int`.
unfoldable pub read_unsigned : ℕ → IStream → ℕ × IStream
unfolding sentry extract_unsigned
read_unsigned old s = let (go, t) = sentry s in if go then extract_unsigned t.rest else (old, t)
