-- ===== src/Tests/Socket.antt =====
-- Runs of socket/block_socket.cpp on a descriptor that gives all it has and takes all it gets.
use Prim.Native.Nat.{min}
use mini_ftpd.Prelude.{
  ℕ, zero, suc, ◌+◌, ◌≤◌, ◌<◌, ◌≡◌, refl, sym, ap, ◌∙◌, [], ◌∷◌, ◌++◌, arith, take, drop, length,
  take-append-drop, if◌then◌else◌,
}
use mini_ftpd.Text.Bytes.{Bytes, codes}
use mini_ftpd.Socket.Channel.{Channel, got, took, IsReliable}
use mini_ftpd.Socket.Transfer.{count, read_n, write_n, readline}
use mini_ftpd.Socket.ReadN.{read_n-Reads}
use mini_ftpd.Socket.WriteN.{write_n-delivered}
use mini_ftpd.Socket.Lines.{first_line, has_line, ends_line}
use mini_ftpd.Socket.Readline.{readline-first_line}
use mini_ftpd.Socket.Message.Defs.{
  returned, failed, overwrite, u32_bytes, get_char, send_buf, recv_buf,
}
use mini_ftpd.Socket.Message.Char.{Gets, get_char-Gets}
use mini_ftpd.Socket.Message.RoundTrip.{
  message, send_buf-delivered, recv_buf-too_long, recv_buf-send_buf,
}

abbrev pipe : Channel
pipe = record {
  World = Bytes × Bytes;
  read = λ n (i, o). (got (take n i), (drop n i, o));
  recv_peek = λ n (i, o). (got (take n i), (i, o));
  write = λ bs (i, o). (took (length bs), (i, o ++ bs));
}

take_all : (bs : Bytes) → take (length bs) bs ≡ bs
take_all [] = refl
take_all (b ∷ bs) = ap (◌∷◌ b) (take_all bs)

take_none : (n : ℕ) (bs : Bytes) → 0 < n → take n bs ≡ [] → bs ≡ []
take_none n [] l e = refl
take_none zero (b ∷ bs) l e = absurd (omega arith)
take_none (suc n) (b ∷ bs) l e = cc e

length-take_le : (n : ℕ) (bs : Bytes) → length (take n bs) ≤ n
length-take_le zero bs = omega arith
length-take_le (suc n) [] = omega arith
length-take_le (suc n) (b ∷ bs) = omega (arith, length-take_le n bs)

-- What a read or a peek gives is the front of the bytes.
front :
    (n : ℕ) (i bs : Bytes)
    → 0 < n
    → take n i ≡ bs
    → (i ≡ bs ++ drop n i) × (length bs ≤ n) × (bs ≡ [] → i ≡ [])
front n i bs l e = rw (← e) (sym (take-append-drop n i), length-take_le n i, λ z. take_none n i l z)

abbrev reliable_pipe : IsReliable pipe
reliable_pipe = record {
  pending = λ (i, o). i;
  delivered = λ (i, o). o;
  patience = λ w. 0;
  read_works = λ n w e. cc e;
  read_got = λ n w w' bs l e.
      let f = front n w.0 bs l (cc e) in
      let left : drop n w.0 ≡ w'.0 = cc e in (f.0 ∙ ap (λ x. bs ++ x) left, f.1, f.2, omega arith);
  read_interrupted = λ n w w' e. cc e;
  peek_works = λ n w e. cc e;
  peek_got = λ n w w' bs l e.
      let f = front n w.0 bs l (cc e) in (cc e, (drop n w.0, f.0), f.1, f.2, omega arith);
  peek_interrupted = λ n w w' e. cc e;
  write_works = λ bs w e. cc e;
  write_took = λ bs w w' n pos e.
      let counted : length bs ≡ n = cc e in
      let put : w.1 ++ bs ≡ w'.1 = cc e in
      (
        omega (arith, counted),
        sym put ∙ ap (λ x. w.1 ++ x) (sym (take_all bs) ∙ ap (λ x. take x bs) counted),
        omega arith,
        λ z. absurd (omega (arith, z, pos, counted)),
      );
  write_interrupted = λ bs w w' e. cc e;
}

abbrev incoming : Bytes
incoming = codes "USER ftp\r\nPASS x\r\n"

abbrev peer : pipe.World
peer = (incoming, [])

read_n-Reads_example :
    (w' : pipe.World) × (read_n pipe 9 8 peer
      ≡ (count (min 8 (length incoming)), take 8 incoming, w'))
    × (reliable_pipe.pending w' ≡ drop 8 incoming)
    × (reliable_pipe.patience w' ≤ reliable_pipe.patience peer)
read_n-Reads_example = read_n-Reads pipe reliable_pipe 9 8 peer (omega arith)

write_n-delivered_example :
    (w' : pipe.World) × (write_n pipe 9 (codes "200 OK\r\n") peer
      ≡ (count (length (codes "200 OK\r\n")), w'))
    × (reliable_pipe.delivered w' ≡ reliable_pipe.delivered peer ++ codes "200 OK\r\n")
write_n-delivered_example =
    write_n-delivered pipe reliable_pipe 9 (codes "200 OK\r\n") peer (omega arith)

abbrev client_line : Bytes
client_line = first_line 15 incoming

readline-first_line_example :
    let r = readline pipe 40 5000 16 peer in
    (w' : pipe.World) × (if has_line 15 incoming
      then (r ≡ (
        count (if ends_line 15 incoming then 5000 + length client_line else 15),
        client_line,
        w',
      ))
        × (reliable_pipe.pending w' ≡ drop (length client_line) incoming)
      else (r.0 ≡ count 0) × (r.2 ≡ w') × (reliable_pipe.pending w' ≡ []))
readline-first_line_example =
    readline-first_line pipe reliable_pipe 40 5000 16 peer (omega arith) (omega arith)

get_char-Gets_example : Gets pipe reliable_pipe 77 peer (get_char pipe 3 77 peer)
get_char-Gets_example = get_char-Gets pipe reliable_pipe 3 77 peer (omega arith)

send_buf-delivered_example :
    (w' : pipe.World) × (send_buf pipe 20 (codes "sixteen") peer ≡ (returned tt, w'))
    × (reliable_pipe.delivered w' ≡ reliable_pipe.delivered peer ++ message (codes "sixteen"))
send_buf-delivered_example =
    send_buf-delivered pipe reliable_pipe 20 (codes "sixteen") peer (omega arith)

abbrev long_message : pipe.World
long_message = (u32_bytes 17 ++ codes "seventeen", [])

recv_buf-too_long_example :
    (w' : pipe.World) × (recv_buf pipe 20 (codes "----") long_message ≡ (failed, codes "----", w'))
    × (reliable_pipe.pending w' ≡ codes "seventeen")
recv_buf-too_long_example =
    recv_buf-too_long pipe reliable_pipe 20 17 (codes "----") (codes "seventeen") long_message
      (omega arith) (omega arith) (omega arith) refl

abbrev other_end : pipe.World
other_end = (
  drop (length (reliable_pipe.delivered peer))
        (reliable_pipe.delivered (send_buf pipe 20 (codes "addr") peer).1)
      ++ codes "!",
  [],
)

recv_buf-send_buf_example :
    ((send_buf pipe 20 (codes "addr") peer).0 ≡ returned tt)
    × (v' : pipe.World) × (recv_buf pipe 20 (codes "------") other_end
        ≡ (returned tt, overwrite (codes "addr") (codes "------"), v'))
    × (reliable_pipe.pending v' ≡ codes "!")
recv_buf-send_buf_example =
    recv_buf-send_buf pipe pipe reliable_pipe reliable_pipe 20 20 (codes "addr") (codes "------")
      (codes "!") peer other_end (omega arith) (omega arith) (omega arith) (omega arith) refl
