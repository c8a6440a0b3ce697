-- ===== src/Tool/Runs.antt =====
-- What src/config_parser_main.cc prints for a file, and how it ends.
use https_server.Prelude.{
  ℕ, ◌≡◌, refl, ap, sym, ◌∙◌, Bool, true, false, [], ◌∷◌, ◌++◌, append-nil, Option, none, some,
  Bytes,
}
use https_server.Config.{Config, nil, to_string}
use https_server.Lexer.{TokenType, eof}
use https_server.Main.{parse_opened}
use https_server.Parser.{ParseState, out_config, Parsed, returned, parse}
use https_server.Parser.Loop.{accepted, parse_total}
use https_server.Parser.Output.Printed.{line_onto, print_parse-accepted, print_parse-refused}
use https_server.Parser.Output.{token_line, bad_transition, print_opened, print_parse}
use https_server.Parser.RoundTrip.{parse-to_string}
use https_server.Parser.Tokens.{gather, gather-nil}
use https_server.Parser.Written.{ConfigIsPlain, config_onto, gather-config}
use https_server.StdString.{c_string}
use https_server.Tool.{print_config, run_tool}

accepted-returned : (p : Parsed) (c : Config) → accepted p ≡ some c → p ≡ returned true c
accepted-returned (returned true d) c e = let same : d ≡ c = cc in ap (returned true) same
accepted-returned (returned false d) c e = cc
accepted-returned _ c e = cc

refused-returned :
    (valid : Bool) (out : Config) → accepted (returned valid out) ≡ none → valid ≡ false
refused-returned true out e = cc
refused-returned false out e = refl

-- The lines for the tokens of a config, and for the end of its file.
abbrev pub token_lines : Config → Bytes
token_lines c = config_onto line_onto c (token_line eof [])

print_parse-to_string :
    (c : Config) (depth : ℕ) → ConfigIsPlain c → print_parse (to_string depth c) nil ≡ token_lines c
print_parse-to_string c depth plain =
    print_parse-accepted (to_string depth c) nil c
      (accepted-returned _ c (parse-to_string c depth plain))
    ∙ ap (gather line_onto []) (sym (append-nil (to_string depth c)))
    ∙ gather-config line_onto [] (λ v a b. refl) c depth [] plain
    ∙ ap (config_onto line_onto c) (gather-nil line_onto [] (λ v a b. refl))

-- On a file that `ToString` has written at some depth, of a config without zero bytes in which
-- every statement has a token and every token is a word that needs no quotes, the tool prints a
-- line for each token of the config, one for the end of the file, and then the config with its
-- indentation from the left edge; its exit code is 0.
pub run_tool-to_string :
    (read : Bytes → Option Bytes) (file_name : Bytes) (c : Config) (depth : ℕ)
    → read file_name ≡ some (to_string depth c)
    → ConfigIsPlain c
    → c_string (to_string 0 c) ≡ to_string 0 c
    → run_tool read (file_name ∷ []) ≡ some (token_lines c ++ to_string 0 c, 0)
unfolding run_tool
run_tool-to_string read file_name c depth opens plain whole =
    let parsed = accepted-returned _ c (parse-to_string c depth plain) in
    rw (opens, parsed, whole)
      (ap (λ printed. some (printed ++ to_string 0 c, 0)) (print_parse-to_string c depth plain))

-- On a file that opens, and that `Parse` does not accept, `Parse` returns false with the config
-- that it had read by then, and the tool prints the line on a bad transition, behind others, and
-- then that config; its exit code is 0.
pub run_tool-refused :
    (read : Bytes → Option Bytes) (file_name text : Bytes)
    → read file_name ≡ some text
    → accepted (parse text nil) ≡ none
    → (before : Bytes) × (last : ParseState) × (t : TokenType) × (parse text nil
        ≡ returned false (out_config last))
      × (run_tool read (file_name ∷ [])
          ≡ some ((before ++ bad_transition last t) ++ c_string (to_string 0 (out_config last)), 0))
unfolding run_tool
run_tool-refused read file_name text opens refused =
    let (valid, out, e) = parse_total text nil in
    let e' : parse text nil ≡ returned false out =
      e
      ∙ ap (λ valid. returned valid out)
          (refused-returned valid out (sym (ap accepted e) ∙ refused)) in
    let (before, last, t, printed, left) = print_parse-refused text nil out e' in
    (
      before,
      last,
      t,
      e' ∙ ap (returned false) left,
      ap (λ o. print_config (print_opened file_name nil o) (parse_opened nil o)) opens
          ∙ ap (print_config (print_parse text nil)) e'
          ∙ ap (λ text. some (text ++ c_string (to_string 0 out), 0)) printed
          ∙ ap (λ c. some ((before ++ bad_transition last t) ++ c_string (to_string 0 c), 0)) left,
    )
