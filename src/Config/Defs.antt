-- ===== src/Config/Defs.antt =====
-- `struct Config` of config/config.h, and the parser of config/config.cpp.
use Prim.Native.Nat.{max}
use mini_ftpd.Prelude.{
  ℕ, Option, none, some, Bool, true, false, not, List, [], ◌∷◌, ◌++◌, ◌==◌, if◌then◌else◌,
}
use mini_ftpd.Text.Bytes.{Bytes, codes, str_eq, is_digit}
use mini_ftpd.Text.Decimal.{print_u}
use mini_ftpd.Text.Stream.{
  IStream, open_stream, sentry, span, value_from, take_sign, is_empty, read_word, read_char,
  read_unsigned,
}

pub record Config : Type 0 where
  pub port_mode : Bool
  pub pasv_mode : Bool
  pub listen_address : Bytes
  pub listen_port : ℕ
  pub accept_timeout : ℕ
  pub connect_timeout : ℕ
  pub maximum_clients : ℕ
  pub max_conns_per_ip : ℕ
  pub max_upload_rate : ℕ
  pub max_download_rate : ℕ
  pub idle_ctrl_timeout : ℕ
  pub idle_data_timeout : ℕ
  pub local_umask : ℕ

-- The member initialisers; 077 is octal.
abbrev pub default_config : Config
default_config = record {
  port_mode = true;
  pasv_mode = true;
  listen_address = codes "127.0.0.1";
  listen_port = 21;
  accept_timeout = 600;
  connect_timeout = 300;
  maximum_clients = 2000;
  max_conns_per_ip = 50;
  max_upload_rate = 0;
  max_download_rate = 0;
  idle_ctrl_timeout = 300;
  idle_data_timeout = 300;
  local_umask = 0o77;
}

-- `s >> b` for a `bool`: `num_get` reads a number, and only 0 is false.
unfoldable pub read_bool : Bool → IStream → Bool
unfolding sentry span value_from
read_bool old s =
    let (go, t) = sentry s in
    let digits = (span is_digit (take_sign t.rest).1).0 in
    if go then not (value_from 0 digits == 0) else old

-- `std::max(1024*100u, rate)`.
unfoldable pub at_least : ℕ → ℕ
at_least rate = max 102400 rate

-- The items that the parser knows, and their spelling.
pub data Item : Type 0 where
  pasv_mode port_mode listen_port maximum_clients max_conns_per_ip accept_timeout : Item
  connect_timeout idle_ctrl_timeout idle_data_timeout local_umask max_upload_rate max_download_rate
        listen_address :
      Item

abbrev pub item_name : Item → Bytes
item_name Item.pasv_mode = codes "pasv_mode"
item_name Item.port_mode = codes "port_mode"
item_name Item.listen_port = codes "listen_port"
item_name Item.maximum_clients = codes "maximum_clients"
item_name Item.max_conns_per_ip = codes "max_conns_per_ip"
item_name Item.accept_timeout = codes "accept_timeout"
item_name Item.connect_timeout = codes "connect_timeout"
item_name Item.idle_ctrl_timeout = codes "idle_ctrl_timeout"
item_name Item.idle_data_timeout = codes "idle_data_timeout"
item_name Item.local_umask = codes "local_umask"
item_name Item.max_upload_rate = codes "max_upload_rate"
item_name Item.max_download_rate = codes "max_download_rate"
item_name Item.listen_address = codes "listen_address"

-- The chain of tests on `config_item`.
unfoldable pub item_of : Bytes → Option Item
unfolding str_eq
item_of name =
    if str_eq name (item_name Item.pasv_mode)
    then some Item.pasv_mode
    else if str_eq name (item_name Item.port_mode)
    then some Item.port_mode
    else if str_eq name (item_name Item.listen_port)
    then some Item.listen_port
    else if str_eq name (item_name Item.maximum_clients)
    then some Item.maximum_clients
    else if str_eq name (item_name Item.max_conns_per_ip)
    then some Item.max_conns_per_ip
    else if str_eq name (item_name Item.accept_timeout)
    then some Item.accept_timeout
    else if str_eq name (item_name Item.connect_timeout)
    then some Item.connect_timeout
    else if str_eq name (item_name Item.idle_ctrl_timeout)
    then some Item.idle_ctrl_timeout
    else if str_eq name (item_name Item.idle_data_timeout)
    then some Item.idle_data_timeout
    else if str_eq name (item_name Item.local_umask)
    then some Item.local_umask
    else if str_eq name (item_name Item.max_upload_rate)
    then some Item.max_upload_rate
    else if str_eq name (item_name Item.max_download_rate)
    then some Item.max_download_rate
    else if str_eq name (item_name Item.listen_address)
    then some Item.listen_address
    else none

-- The branch of an item, with the stream behind the equal sign.
unfoldable pub set_item : Option Item → IStream → Config → Config
unfolding read_bool read_unsigned read_word at_least
set_item none ss c = c
set_item (some Item.pasv_mode) ss c = record c { pasv_mode = read_bool c.pasv_mode ss }
set_item (some Item.port_mode) ss c = record c { port_mode = read_bool c.port_mode ss }
set_item (some Item.listen_port) ss c = record c {
  listen_port = (read_unsigned c.listen_port ss).0;
}
set_item (some Item.maximum_clients) ss c = record c {
  maximum_clients = (read_unsigned c.maximum_clients ss).0;
}
set_item (some Item.max_conns_per_ip) ss c = record c {
  max_conns_per_ip = (read_unsigned c.max_conns_per_ip ss).0;
}
set_item (some Item.accept_timeout) ss c = record c {
  accept_timeout = (read_unsigned c.accept_timeout ss).0;
}
set_item (some Item.connect_timeout) ss c = record c {
  connect_timeout = (read_unsigned c.connect_timeout ss).0;
}
set_item (some Item.idle_ctrl_timeout) ss c = record c {
  idle_ctrl_timeout = (read_unsigned c.idle_ctrl_timeout ss).0;
}
set_item (some Item.idle_data_timeout) ss c = record c {
  idle_data_timeout = (read_unsigned c.idle_data_timeout ss).0;
}
set_item (some Item.local_umask) ss c = record c {
  local_umask = (read_unsigned c.local_umask ss).0;
}
set_item (some Item.max_upload_rate) ss c = record c {
  max_upload_rate = at_least (read_unsigned c.max_upload_rate ss).0;
}
set_item (some Item.max_download_rate) ss c = record c {
  max_download_rate = at_least (read_unsigned c.max_download_rate ss).0;
}
set_item (some Item.listen_address) ss c = record c {
  listen_address = (read_word c.listen_address ss).0;
}

-- `line.empty() || line.front() == '#'`.
abbrev pub is_comment : Bytes → Bool
is_comment [] = true
is_comment (c ∷ _) = c == b'#'

-- The value of `equal_sign` is read and not looked at.
unfoldable pub parse_config : Bytes → Config → Config
unfolding read_word read_char item_of set_item
parse_config line c =
    let (item, ss) = read_word [] (open_stream line) in
    let (equal_sign, ss') = read_char 0 ss in
    if is_comment line then c else set_item (item_of item) ss' c

-- The lines that `getline` gives: what a newline ends, and a last one with no newline if it is not
-- empty.
unfoldable pub file_lines : Bytes → Bytes → List Bytes
file_lines line [] = if is_empty line then [] else line ∷ []
file_lines line (c ∷ cs) = elim (c == 10) [
  | true ↦ line ∷ file_lines [] cs
  | false ↦ file_lines (line ++ c ∷ []) cs
]

unfoldable pub parse_lines : List Bytes → Config → Config
parse_lines [] c = c
parse_lines (line ∷ lines) c = parse_lines lines (parse_config line c)

-- The constructor of `config` calls it on its defaults. `none` is a file that cannot be opened.
unfoldable pub load_file : Option Bytes → Config → Config
unfolding parse_lines file_lines
load_file none c = c
load_file (some file) c = parse_lines (file_lines [] file) c

-- `print_config`: its heading in UTF-8, and a line for each item. A `bool` prints as 0 or 1.
abbrev heading : Bytes
heading =
    10 ∷ 228 ∷ 187 ∷ 142 ∷ 233 ∷ 133 ∷ 141 ∷ 231 ∷ 189 ∷ 174 ∷ 230 ∷ 150 ∷ 135 ∷ 228 ∷ 187 ∷ 182
    ∷ 228 ∷ 184 ∷ 173 ∷ 232 ∷ 167 ∷ 163 ∷ 230 ∷ 158 ∷ 144 ∷ 229 ∷ 136 ∷ 176 ∷ 228 ∷ 187 ∷ 165 ∷ 228
    ∷ 184 ∷ 139 ∷ 233 ∷ 133 ∷ 141 ∷ 231 ∷ 189 ∷ 174 ∷ 233 ∷ 161 ∷ 185 ∷ 58 ∷ 32 ∷ 10 ∷ []

abbrev print_bool : Bool → Bytes
print_bool b = if b then codes "1" else codes "0"

unfoldable pub print_item : Item → Bytes → Bytes
print_item i value = item_name i ++ (codes "=" ++ (value ++ codes "\n"))

unfoldable pub print_items : Config → Bytes
unfolding print_item
print_items c =
    print_item Item.pasv_mode (print_bool c.pasv_mode)
    ++ (print_item Item.port_mode (print_bool c.port_mode)
        ++ (print_item Item.listen_port (print_u c.listen_port)
            ++ (print_item Item.maximum_clients (print_u c.maximum_clients)
                ++ (print_item Item.max_conns_per_ip (print_u c.max_conns_per_ip)
                    ++ (print_item Item.accept_timeout (print_u c.accept_timeout)
                        ++ (print_item Item.connect_timeout (print_u c.connect_timeout)
                            ++ (print_item Item.idle_ctrl_timeout (print_u c.idle_ctrl_timeout)
                                ++ (print_item Item.idle_data_timeout (print_u c.idle_data_timeout)
                                    ++ (print_item Item.local_umask (print_u c.local_umask)
                                        ++ (print_item Item.max_upload_rate
                                              (print_u c.max_upload_rate)
                                            ++ (print_item Item.max_download_rate
                                                  (print_u c.max_download_rate)
                                                ++ print_item Item.listen_address
                                                    c.listen_address)))))))))))

unfoldable pub print_config : Config → Bytes
unfolding print_items
print_config c = heading ++ print_items c
