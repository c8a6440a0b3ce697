-- ===== src/Tests/Routes.antt =====
-- The routes of a config, the output of the tool and a race, at concrete inputs.
use https_server.Prelude.{
  ◌+◌, ◌<◌, ◌≤◌, ◌↔◌, arith, ◌≡◌, refl, false, [], ◌∷◌, ◌++◌, Option, some, Bytes, codes, equal,
}
use https_server.Config.Back.{append_config}
use https_server.Config.{line, nil, cons, to_string}
use https_server.Dispatcher.Assigned.{assigned, init_handlers-assigned}
use https_server.Dispatcher.Routed.{Routed, get_request_handler-Routed}
use https_server.Dispatcher.{init_handlers, get_request_handler, trim_slashes}
use https_server.Dispatcher.Unblocked.{init_handlers-line}
use https_server.Handlers.{built, undefined}
use https_server.Lexer.{TokenType}
use https_server.Parser.Output.{bad_transition}
use https_server.Parser.{ParseState, out_config, returned, parse}
use https_server.Session.Races.{Races, race_of, race_over, race_iff}
use https_server.StdMap.{lookup}
use https_server.StdString.{c_string}
use https_server.Tests.{static, static-ConfigIsPlain, dispatcher, init_handlers-static}
use https_server.Tool.Runs.{token_lines, run_tool-to_string, run_tool-refused}
use https_server.Tool.{run_tool}

init_handlers-assigned_example :
    assigned (codes "/static") static ≡ built (lookup (codes "/static") dispatcher.handlers)
unfolding equal
init_handlers-assigned_example =
    init_handlers-assigned [] static dispatcher (codes "/static") init_handlers-static refl

get_request_handler-Routed_example :
    Routed static
      (trim_slashes (codes "/static/a.txt"))
      (get_request_handler dispatcher (codes "/static/a.txt"))
get_request_handler-Routed_example =
    get_request_handler-Routed [] static dispatcher (codes "/static/a.txt") init_handlers-static

init_handlers-line_example :
    init_handlers [] (
      append_config static
        (cons (line (codes "location" ∷ codes "/e" ∷ codes "EchoHandler" ∷ [])) nil))
    ≡ undefined
init_handlers-line_example =
    init_handlers-line [] static nil (codes "/e") (codes "EchoHandler") [] dispatcher
      init_handlers-static

-- A disk on which every file is the config, two steps to the right.
abbrev written : Bytes → Option Bytes
written file_name = some (to_string 2 static)

static_whole : c_string (to_string 0 static) ≡ to_string 0 static
unfolding c_string to_string
static_whole = refl

run_tool-to_string_example :
    run_tool written (codes "static_config" ∷ [])
    ≡ some (token_lines static ++ to_string 0 static, 0)
run_tool-to_string_example =
    run_tool-to_string written (codes "static_config") static 2 refl static-ConfigIsPlain
      static_whole

-- A disk on which every file has a bracket too many.
abbrev broken : Bytes → Option Bytes
broken file_name = some (codes "a {} }")

run_tool-refused_example :
    (before : Bytes) × (last : ParseState) × (t : TokenType) × (parse (codes "a {} }") nil
      ≡ returned false (out_config last))
    × (run_tool broken (codes "bad_config" ∷ [])
        ≡ some ((before ++ bad_transition last t) ++ c_string (to_string 0 (out_config last)), 0))
unfolding parse
run_tool-refused_example = run_tool-refused broken (codes "bad_config") (codes "a {} }") refl refl

-- What is printed there, and without an argument.
printed :
    (run_tool broken (codes "bad_config" ∷ [])
      ≡ some (
        codes
            "TOKEN_TYPE_NORMAL: a\nTOKEN_TYPE_START_BLOCK: {\nTOKEN_TYPE_END_BLOCK: }\nTOKEN_TYPE_END_BLOCK: }\nBad transition from TOKEN_TYPE_END_BLOCK to TOKEN_TYPE_END_BLOCK\na {\n}\n",
        0,
      ))
    × (run_tool broken [] ≡ some (codes "Usage: ./config_parser <path to config file>\n", 1))
unfolding run_tool
printed = (refl, refl)

-- Three requests at once may leave the count of one.
race_iff_example : Races (race_of 7 3) (race_over 8 3) ↔ ((7 < 8) × (8 ≤ 7 + 3))
race_iff_example = race_iff 7 3 8 (omega arith)
