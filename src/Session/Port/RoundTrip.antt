-- ===== src/Session/Port/RoundTrip.antt =====
-- Printed PORT arguments against `Session::get_port_addr` of session.cpp.
use mathlib.Core.Path.{ap₂}
use mathlib.Core.List.{append-nil}
use mini_ftpd.Prelude.{
  zero, suc, Bool, ◌⊎◌, inl, inr, ◌≢◌, le→leb, drop, ℕ, ◌+◌, ◌%◌, ◌<◌, ◌≤◌, ◌≡◌, refl, ap, ◌∙◌,
  List, [], ◌∷◌, ◌++◌, true, false, arith, length, get_or, leb, if◌then◌else◌, All,
}
use mini_ftpd.Text.Bytes.{Bytes}
use mini_ftpd.Text.Stream.{IStream, open_stream, read_unsigned, ignore, u32_mod}
use mini_ftpd.Text.Decimal.{print_u, read_unsigned-print_u}
use mini_ftpd.Session.Defs.{Session}
use mini_ftpd.Session.Address.{pf_inet}
use mini_ftpd.Session.Port.Defs.{read_fields, addr_of, get_port_addr}

-- Numbers with a comma between them, as a client writes a PORT argument.
unfoldable pub commas : List ℕ → Bytes
commas [] = []
commas (n ∷ []) = print_u n
commas (n ∷ m ∷ ns) = print_u n ++ (b',' ∷ commas (m ∷ ns))

-- One field that another follows.
read_field :
    (i old n : ℕ) (olds : List ℕ) (rest : Bytes)
    → i ≤ 4
    → n < u32_mod
    → read_fields i (old ∷ olds) (open_stream (print_u n ++ (b',' ∷ rest)))
      ≡ n ∷ read_fields (i + 1) olds (open_stream rest)
read_field i old n olds rest h b =
    unfold read_fields in
    rw (read_unsigned-print_u old n (b',' ∷ rest) b refl)
      (rw (le→leb i 4 h) (unfold ignore in refl))

-- Once the stream has failed, every element keeps its old value.
read_unsigned-failed :
    (old : ℕ) (ss : IStream)
    → ss.fail ≡ true
    → ((read_unsigned old ss).0 ≡ old) × ((read_unsigned old ss).1.fail ≡ true)
unfolding read_unsigned
read_unsigned-failed old ss h = ground arith

ignore-failed : (ss : IStream) → ss.fail ≡ true → (ignore ss).fail ≡ true
unfolding ignore
ignore-failed ss h = ground arith

ignore_if-failed :
    (b : Bool) (ss : IStream) → ss.fail ≡ true → (if b then ignore ss else ss).fail ≡ true
ignore_if-failed true ss h = ignore-failed ss h
ignore_if-failed false ss h = h

read_fields-failed :
    (i : ℕ) (olds : List ℕ) (ss : IStream) → ss.fail ≡ true → read_fields i olds ss ≡ olds
unfolding read_fields
read_fields-failed i [] ss h = refl
read_fields-failed i (old ∷ olds) ss h =
    let (same, failed) = read_unsigned-failed old ss h in
    ap₂ ◌∷◌ same (
      read_fields-failed (i + 1) olds _
        (ignore_if-failed (leb i 4) (read_unsigned old ss).1 failed))

-- The stream at its end has not failed yet, and fails at the next character.
ended : IStream
ended = record { rest = []; eof = true; fail = false }

read_fields-ended :
    (i : ℕ) (olds : List ℕ)
    → (i ≤ 4) ⊎ (olds ≡ [])
    → read_fields (i + 1) olds (if leb i 4 then ignore ended else ended) ≡ olds
read_fields-ended i olds (inl h) =
    rw (le→leb i 4 h) (read_fields-failed (i + 1) olds (ignore ended) (unfold ignore ended in refl))
read_fields-ended i olds (inr h) = rw h (unfold read_fields in refl)

-- The last field, with no comma behind it.
read_last :
    (i old n : ℕ) (olds : List ℕ)
    → n < u32_mod
    → (i ≤ 4) ⊎ (olds ≡ [])
    → read_fields i (old ∷ olds) (open_stream (print_u n)) ≡ n ∷ olds
unfolding ended
read_last i old n olds b h =
    unfold read_fields in
    rw (← append-nil (print_u n))
      (rw (read_unsigned-print_u old n [] b tt) (ap (◌∷◌ n) (read_fields-ended i olds h)))

-- The array after a command with `length ns` fields: these, and what the memory held behind them.
pub read_fields-commas :
    (i : ℕ) (ns olds : List ℕ)
    → ns ≢ []
    → i + length olds ≡ 6
    → length ns ≤ length olds
    → All (λ n. n < u32_mod) ns
    → read_fields i olds (open_stream (commas ns)) ≡ ns ++ drop (length ns) olds
unfolding commas
read_fields-commas i [] olds ne six fit b = absurd (ne refl)
read_fields-commas i (n ∷ ns) [] ne six fit b = absurd (omega arith)
read_fields-commas i (n ∷ []) (old ∷ []) ne six fit b = read_last i old n [] b.0 (inr refl)
read_fields-commas i (n ∷ []) (old ∷ o ∷ olds) ne six fit b =
    read_last i old n (o ∷ olds) b.0 (inl (omega arith))
read_fields-commas i (n ∷ m ∷ ns) (old ∷ olds) ne six fit b =
    read_field i old n olds (commas (m ∷ ns)) (omega arith) b.0
    ∙ ap (◌∷◌ n)
        (read_fields-commas (i + 1) (m ∷ ns) olds (λ e. cc e) (omega arith) (omega arith) b.1)

-- A PORT command with six byte values in decimal, commas between them, stores exactly these six
-- bytes, the last two as the port in network order, and turns active mode on, whatever the
-- array held before.
pub get_port_addr-commas :
    (memory : List ℕ) (s : Session) (h0 h1 h2 h3 p0 p1 : ℕ)
    → length memory ≡ 6
    → All (λ n. n < 256) (h0 ∷ h1 ∷ h2 ∷ h3 ∷ p0 ∷ p1 ∷ [])
    → s.arg ≡ commas (h0 ∷ h1 ∷ h2 ∷ h3 ∷ p0 ∷ p1 ∷ [])
    → get_port_addr memory s ≡ record s {
      port_addr = record {
        family = pf_inet;
        addr0 = h0;
        addr1 = h1;
        addr2 = h2;
        addr3 = h3;
        port_hi = p0;
        port_lo = p1;
      };
      active_port = true;
    }
get_port_addr-commas memory s h0 h1 h2 h3 p0 p1 six b e =
    let fields = h0 ∷ h1 ∷ h2 ∷ h3 ∷ p0 ∷ p1 ∷ [] in
    unfold get_port_addr in
    rw e (
      rw (read_fields-commas 0 fields memory (λ n. cc n) (omega arith) (omega arith) (omega arith))
        (ground arith))

-- Behind the fields that were read stand the old values.
get_or-behind :
    (ns memory : List ℕ) (i d : ℕ)
    → length ns ≤ i
    → length ns ≤ length memory
    → get_or (ns ++ drop (length ns) memory) i d ≡ get_or memory i d
get_or-behind [] memory i d h m = refl
get_or-behind (n ∷ ns) [] i d h m = absurd (omega arith)
get_or-behind (n ∷ ns) (x ∷ memory) zero d h m = absurd (omega arith)
get_or-behind (n ∷ ns) (x ∷ memory) (suc i) d h m =
    get_or-behind ns memory i d (omega arith) (omega arith)

-- With fewer than six fields the command is accepted all the same: active mode is on, and the
-- last byte of the port is what the uninitialised array happened to hold.
pub get_port_addr-missing :
    (memory ns : List ℕ) (s : Session)
    → length memory ≡ 6
    → ns ≢ []
    → length ns < 6
    → All (λ n. n < u32_mod) ns
    → s.arg ≡ commas ns
    → ((get_port_addr memory s).active_port ≡ true)
      × ((get_port_addr memory s).port_addr ≡ addr_of (ns ++ drop (length ns) memory))
      × ((get_port_addr memory s).port_addr.port_lo ≡ get_or memory 5 0 % 256)
get_port_addr-missing memory ns s six ne few b e =
    unfold get_port_addr in
    rw e (
      rw (read_fields-commas 0 ns memory ne (omega arith) (omega arith) b)
        (refl, refl, ap (λ x. x % 256) (get_or-behind ns memory 5 0 (omega arith) (omega arith))))
