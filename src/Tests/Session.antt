-- ===== src/Tests/Session.antt =====
-- Runs of session.cpp.
use mini_ftpd.Prelude.{
  ℕ, ◌%◌, ◌≡◌, refl, true, some, List, [], ◌∷◌, ◌++◌, arith, drop, length, get_or,
}
use mini_ftpd.Text.Bytes.{Bytes, codes, str_eq, to_upper}
use mini_ftpd.Session.Address.{pf_inet}
use mini_ftpd.Session.Defs.{Session, new_session}
use mini_ftpd.Session.Split.Defs.{split, is_delim}
use mini_ftpd.Session.Split.Words.{Splits}
use mini_ftpd.Session.Split.Laws.{split-Splits}
use mini_ftpd.Session.Port.Defs.{get_port_addr, addr_of}
use mini_ftpd.Session.Port.RoundTrip.{commas, get_port_addr-commas, get_port_addr-missing}
use mini_ftpd.Session.Parse.Defs.{parse_line}
use mini_ftpd.Session.Parse.Laws.{parse_line-words, parse_line-repeats}

abbrev chmod_line : Bytes
chmod_line = codes "CHMOD 755  notes\r"

split-Splits_example :
    (ts : List Bytes) × (split chmod_line (codes " ") ≡ some ts)
    × Splits (is_delim (codes " ")) chmod_line ts
split-Splits_example = split-Splits chmod_line (codes " ")

abbrev with_arg : Bytes → Session
with_arg arg = record (new_session 4 5) { arg = arg }

abbrev memory : List ℕ
memory = 9 ∷ 8 ∷ 7 ∷ 6 ∷ 5 ∷ 44 ∷ []

abbrev six_fields : Session
six_fields = with_arg (commas (10 ∷ 0 ∷ 0 ∷ 7 ∷ 195 ∷ 80 ∷ []))

get_port_addr-commas_example : get_port_addr memory six_fields ≡ record six_fields {
  port_addr = record {
    family = pf_inet;
    addr0 = 10;
    addr1 = 0;
    addr2 = 0;
    addr3 = 7;
    port_hi = 195;
    port_lo = 80;
  };
  active_port = true;
}
get_port_addr-commas_example =
    get_port_addr-commas memory six_fields 10 0 0 7 195 80 refl
      (omega arith, (omega arith, (omega arith, (omega arith, (omega arith, (omega arith, tt))))))
      refl

abbrev four_fields : List ℕ
four_fields = 10 ∷ 0 ∷ 0 ∷ 7 ∷ []

get_port_addr-missing_example :
    ((get_port_addr memory (with_arg (commas four_fields))).active_port ≡ true)
    × ((get_port_addr memory (with_arg (commas four_fields))).port_addr
        ≡ addr_of (four_fields ++ drop (length four_fields) memory))
    × ((get_port_addr memory (with_arg (commas four_fields))).port_addr.port_lo
        ≡ get_or memory 5 0 % 256)
get_port_addr-missing_example =
    get_port_addr-missing memory four_fields (with_arg (commas four_fields)) refl (λ e. cc e)
      (omega arith) (omega arith, (omega arith, (omega arith, (omega arith, tt)))) refl

parse_line-words_example :
    parse_line (codes " retr a.txt\r\n") (new_session 4 5)
    ≡ record (new_session 4 5) { cmd = codes "RETR"; arg = codes "a.txt" }
unfolding str_eq to_upper
parse_line-words_example =
    parse_line-words (new_session 4 5) (codes " ") 114 (codes "etr") 32 97 (codes ".txt") 13
      (10 ∷ []) (refl, tt) (refl, (refl, (refl, (refl, tt)))) refl
      (refl, (refl, (refl, (refl, (refl, tt))))) refl
      (
        refl,
        (
          refl,
          (
            refl,
            (refl, (refl, (refl, (refl, (refl, (refl, (refl, (refl, (refl, (refl, tt)))))))))),
          ),
        ),
      )
      refl

parse_line-repeats_example :
    parse_line (codes "\r\n") (parse_line (codes "CDUP\r\n") (new_session 4 5))
    ≡ record (parse_line (codes "CDUP\r\n") (new_session 4 5)) { arg = [] }
unfolding str_eq parse_line to_upper
parse_line-repeats_example =
    parse_line-repeats (codes "CDUP\r\n") (codes "\r\n") (new_session 4 5) (refl, (refl, tt))
      (refl, (refl, tt))
