-- ===== src/Config/Laws.antt =====
-- What a line of the configuration file sets.
use Prim.Native.Nat.{max}
use mini_ftpd.Prelude.{
  Option, none, some, ℕ, ◌≤◌, ◌<◌, ◌≡◌, ◌⊎◌, inl, inr, refl, ap, sym, ◌∙◌, Bool, true, false, not,
  List, [], ◌∷◌, ◌++◌, arith, ◌==◌, if◌then◌else◌, All,
}
use mini_ftpd.Text.Bytes.{Bytes, codes, is_digit, is_space}
use mini_ftpd.Text.Stream.{IStream, open_stream, read_word, read_char, read_unsigned, u32_mod}
use mini_ftpd.Text.Decimal.{
  print_u, span-append, print_u-digits, value_from-print_u, skip_space-print_u, is_empty-print_u,
  take_sign-print_u, read_unsigned-print_u,
}
use mathlib.Core.List.{append-nil}
use mini_ftpd.Config.Defs.{
  Item, item_name, item_of, read_bool, default_config, Config, at_least, set_item, is_comment,
  parse_config, file_lines, parse_lines, load_file,
}

-- A rate that a file can lead to: no rate was given, or it is at least 100 KiB.
abbrev pub RateIsValid : ℕ → Type 0
RateIsValid rate = (rate ≡ 0) ⊎ (102400 ≤ rate)

abbrev pub RatesAreValid : Config → Type 0
RatesAreValid c = RateIsValid c.max_upload_rate × RateIsValid c.max_download_rate

at_least-le : (rate : ℕ) → 102400 ≤ at_least rate
unfolding at_least
at_least-le rate = omega arith

set_item-RatesAreValid :
    (item : Option Item) (ss : IStream) (c : Config)
    → RatesAreValid c
    → RatesAreValid (set_item item ss c)
unfolding set_item
set_item-RatesAreValid none ss c v = v
set_item-RatesAreValid (some Item.max_upload_rate) ss c v = (inr (at_least-le _), v.1)
set_item-RatesAreValid (some Item.max_download_rate) ss c v = (v.0, inr (at_least-le _))
set_item-RatesAreValid (some _) ss c v = v

RatesAreValid-if :
    (b : Bool) (x y : Config)
    → RatesAreValid x
    → RatesAreValid y
    → RatesAreValid (if b then x else y)
RatesAreValid-if true x y p q = p
RatesAreValid-if false x y p q = q

parse_config-RatesAreValid :
    (line : Bytes) (c : Config) → RatesAreValid c → RatesAreValid (parse_config line c)
unfolding parse_config
parse_config-RatesAreValid line c v =
    let (item, ss) = read_word [] (open_stream line) in
    let ss' = (read_char 0 ss).1 in
    RatesAreValid-if (is_comment line) c (set_item (item_of item) ss' c) v
      (set_item-RatesAreValid (item_of item) ss' c v)

parse_lines-RatesAreValid :
    (lines : List Bytes) (c : Config) → RatesAreValid c → RatesAreValid (parse_lines lines c)
unfolding parse_lines
parse_lines-RatesAreValid [] c v = v
parse_lines-RatesAreValid (line ∷ lines) c v =
    parse_lines-RatesAreValid lines (parse_config line c) (parse_config-RatesAreValid line c v)

-- Whatever the file says, and where it cannot be opened, each of the two rates that it leads to is
-- the default 0 or at least 102400 bytes a second.
pub load_file-RatesAreValid : (file : Option Bytes) → RatesAreValid (load_file file default_config)
unfolding load_file
load_file-RatesAreValid none = (inl refl, inl refl)
load_file-RatesAreValid (some file) =
    parse_lines-RatesAreValid (file_lines [] file) default_config (inl refl, inl refl)

-- The items with an `unsigned int` behind them: what such a line stores.
abbrev pub with_number : Item → ℕ → Config → Config
with_number Item.pasv_mode n c = record c { pasv_mode = not (n == 0) }
with_number Item.port_mode n c = record c { port_mode = not (n == 0) }
with_number Item.listen_port n c = record c { listen_port = n }
with_number Item.maximum_clients n c = record c { maximum_clients = n }
with_number Item.max_conns_per_ip n c = record c { max_conns_per_ip = n }
with_number Item.accept_timeout n c = record c { accept_timeout = n }
with_number Item.connect_timeout n c = record c { connect_timeout = n }
with_number Item.idle_ctrl_timeout n c = record c { idle_ctrl_timeout = n }
with_number Item.idle_data_timeout n c = record c { idle_data_timeout = n }
with_number Item.local_umask n c = record c { local_umask = n }
with_number Item.max_upload_rate n c = record c { max_upload_rate = max 102400 n }
with_number Item.max_download_rate n c = record c { max_download_rate = max 102400 n }
with_number Item.listen_address n c = record c { listen_address = print_u n }

-- The line `name = n`.
abbrev pub number_line : Item → ℕ → Bytes
number_line i n = item_name i ++ (codes " = " ++ print_u n)

-- What is left behind the equal sign.
parse_config-number_line :
    (i : Item) (n : ℕ) (c : Config)
    → parse_config (number_line i n) c ≡ set_item (some i) (open_stream (32 ∷ print_u n)) c
unfolding parse_config
parse_config-number_line Item.pasv_mode n c = refl
parse_config-number_line Item.port_mode n c = refl
parse_config-number_line Item.listen_port n c = refl
parse_config-number_line Item.maximum_clients n c = refl
parse_config-number_line Item.max_conns_per_ip n c = refl
parse_config-number_line Item.accept_timeout n c = refl
parse_config-number_line Item.connect_timeout n c = refl
parse_config-number_line Item.idle_ctrl_timeout n c = refl
parse_config-number_line Item.idle_data_timeout n c = refl
parse_config-number_line Item.local_umask n c = refl
parse_config-number_line Item.max_upload_rate n c = refl
parse_config-number_line Item.max_download_rate n c = refl
parse_config-number_line Item.listen_address n c = refl

read_unsigned-space :
    (old n : ℕ) → n < u32_mod → (read_unsigned old (open_stream (32 ∷ print_u n))).0 ≡ n
unfolding read_unsigned
read_unsigned-space old n h =
    let e = read_unsigned-print_u old n [] h tt in rw append-nil at (ap (λ r. r.0) e)

read_bool-space : (old : Bool) (n : ℕ) → read_bool old (open_stream (32 ∷ print_u n)) ≡ not (n == 0)
unfolding read_bool
read_bool-space old n =
    let spanned = span-append is_digit (print_u n) [] (print_u-digits n) tt in
    rw (← append-nil (print_u n)) (
      rw skip_space-print_u
        (rw is_empty-print_u (rw take_sign-print_u (rw spanned (rw value_from-print_u refl)))))

digits-NoSpace :
    (ds : Bytes) → All (λ c. is_digit c ≡ true) ds → All (λ c. not (is_space c) ≡ true) ds
digits-NoSpace [] h = tt
digits-NoSpace (d ∷ ds) h = (ground (arith, h.0), digits-NoSpace ds h.1)

read_word-space :
    (old : Bytes) (n : ℕ) → (read_word old (open_stream (32 ∷ print_u n))).0 ≡ print_u n
unfolding read_word
read_word-space old n =
    let spanned =
      span-append (λ x. not (is_space x)) (print_u n) [] (digits-NoSpace _ (print_u-digits n)) tt in
    rw (← append-nil (print_u n))
      (rw skip_space-print_u (rw is_empty-print_u (rw spanned (sym (append-nil _)))))

-- A line `name = n` with a 32-bit number in decimal sets exactly the item of that name, to that
-- number; a rate to no less than 102400, a mode to whether the number is not 0, and the address to
-- the digits themselves.
pub parse_config-with_number :
    (i : Item) (n : ℕ) (c : Config)
    → n < u32_mod
    → parse_config (number_line i n) c ≡ with_number i n c
unfolding set_item
parse_config-with_number Item.pasv_mode n c h =
    parse_config-number_line Item.pasv_mode n c ∙ rw (read_bool-space c.pasv_mode n)
parse_config-with_number Item.port_mode n c h =
    parse_config-number_line Item.port_mode n c ∙ rw (read_bool-space c.port_mode n)
parse_config-with_number Item.listen_port n c h =
    parse_config-number_line Item.listen_port n c ∙ rw (read_unsigned-space c.listen_port n h)
parse_config-with_number Item.maximum_clients n c h =
    parse_config-number_line Item.maximum_clients n c
    ∙ rw (read_unsigned-space c.maximum_clients n h)
parse_config-with_number Item.max_conns_per_ip n c h =
    parse_config-number_line Item.max_conns_per_ip n c
    ∙ rw (read_unsigned-space c.max_conns_per_ip n h)
parse_config-with_number Item.accept_timeout n c h =
    parse_config-number_line Item.accept_timeout n c ∙ rw (read_unsigned-space c.accept_timeout n h)
parse_config-with_number Item.connect_timeout n c h =
    parse_config-number_line Item.connect_timeout n c
    ∙ rw (read_unsigned-space c.connect_timeout n h)
parse_config-with_number Item.idle_ctrl_timeout n c h =
    parse_config-number_line Item.idle_ctrl_timeout n c
    ∙ rw (read_unsigned-space c.idle_ctrl_timeout n h)
parse_config-with_number Item.idle_data_timeout n c h =
    parse_config-number_line Item.idle_data_timeout n c
    ∙ rw (read_unsigned-space c.idle_data_timeout n h)
parse_config-with_number Item.local_umask n c h =
    parse_config-number_line Item.local_umask n c ∙ rw (read_unsigned-space c.local_umask n h)
parse_config-with_number Item.max_upload_rate n c h =
    parse_config-number_line Item.max_upload_rate n c
    ∙ rw (read_unsigned-space c.max_upload_rate n h) (unfold at_least in refl)
parse_config-with_number Item.max_download_rate n c h =
    parse_config-number_line Item.max_download_rate n c
    ∙ rw (read_unsigned-space c.max_download_rate n h) (unfold at_least in refl)
parse_config-with_number Item.listen_address n c h =
    parse_config-number_line Item.listen_address n c ∙ rw (read_word-space c.listen_address n)
