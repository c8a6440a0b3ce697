-- ===== src/Tool.antt =====
-- src/config_parser_main.cc: the tool that prints what the parser makes of a config file.
pub mod Runs
use https_server.Prelude.{ℕ, List, [], ◌∷◌, ◌++◌, Option, none, some, Bytes, codes}
use https_server.Config.{nil, to_string}
use https_server.Main.{parse_opened}
use https_server.Parser.{Parsed, returned, faulted, exhausted, parse}
use https_server.Parser.Output.{print_opened, print_parse}
use https_server.StdString.{c_string}

-- What is printed behind `Parse`, with the exit code. What `Parse` returns is not looked at. There
-- is `none` where `Parse` does what is undefined.
abbrev pub print_config : Bytes → Parsed → Option (Bytes × ℕ)
print_config printed (returned valid config) = some (printed ++ c_string (to_string 0 config), 0)
print_config printed faulted = none
print_config printed exhausted = none

-- `main`, on the arguments behind the program's name: what is printed, and the exit code. `read`
-- gives the bytes of a file that opens.
unfoldable pub run_tool : (Bytes → Option Bytes) → List Bytes → Option (Bytes × ℕ)
unfolding print_parse parse to_string c_string
run_tool read (file_name ∷ []) =
    let text = read file_name in
    print_config (print_opened file_name nil text) (parse_opened nil text)
run_tool read _ = some (codes "Usage: ./config_parser <path to config file>\n", 1)
