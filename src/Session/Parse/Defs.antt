-- ===== src/Session/Parse/Defs.antt =====
-- `Session::parse_command` of session.cpp, from the line that `readline` has left in the buffer.
use mini_ftpd.Prelude.{ℕ, [], map, if◌then◌else◌}
use mini_ftpd.Text.Bytes.{Bytes, codes, to_upper, str_eq, c_string}
use mini_ftpd.Text.Stream.{open_stream, read_word, get_line}
use mini_ftpd.Session.Defs.{Session}

-- What `readline` returned: -1, 0, or a line in the buffer.
pub data LineResult : Type 0 where
  failed : LineResult
  closed : LineResult
  line : Bytes → LineResult

-- The process has ended with this status, or goes on.
pub data Parsed : Type 0 where
  exited : ℕ → Parsed
  parsed : Session → Parsed

abbrev pub site : Bytes
site = codes "SITE"

unfoldable pub parse_line : Bytes → Session → Session
unfolding read_word get_line c_string
parse_line buf s =
    let (word, ss) = read_word s.cmd (open_stream (c_string buf)) in
    let cmd = map to_upper word in
    record s {
      cmd = cmd;
      arg = if str_eq cmd site then (get_line s.arg ss).0 else (read_word [] ss).0;
    }

unfoldable pub parse_command : LineResult → Session → Parsed
unfolding parse_line
parse_command failed s = exited 1
parse_command closed s = exited 0
parse_command (line buf) s = parsed (parse_line buf s)
