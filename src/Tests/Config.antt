-- ===== src/Tests/Config.antt =====
-- Runs of config/config.cpp.
use mini_ftpd.Prelude.{◌≡◌, refl, some, arith}
use mini_ftpd.Text.Bytes.{Bytes, codes}
use mini_ftpd.Config.Defs.{Item, default_config, parse_config, load_file, print_config}
use mini_ftpd.Config.Laws.{
  RatesAreValid, load_file-RatesAreValid, with_number, number_line, parse_config-with_number,
}

abbrev file : Bytes
file = codes "# limits\nmax_upload_rate = 7\nlisten_port = 2121\n"

load_file-RatesAreValid_example : RatesAreValid (load_file (some file) default_config)
load_file-RatesAreValid_example = load_file-RatesAreValid (some file)

parse_config-with_number_example :
    parse_config (number_line Item.max_upload_rate 7) default_config
    ≡ with_number Item.max_upload_rate 7 default_config
parse_config-with_number_example =
    parse_config-with_number Item.max_upload_rate 7 default_config (omega arith)

-- What is printed has no spaces around the equal signs: read back, it sets nothing.
printed_file :
    load_file (some (print_config default_config)) (record default_config { listen_port = 2121 })
    ≡ record default_config { listen_port = 2121 }
unfolding load_file print_config mini_ftpd.Text.Decimal.print_u parse_config
printed_file = refl
