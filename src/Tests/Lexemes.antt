-- ===== src/Tests/Lexemes.antt =====
-- Tokens and files of src/config_parser.cc, by their grammar.
use https_server.Prelude.{◌≡◌, ◌↔◌, Bool, refl, [], ◌∷◌, some, codes, arith}
use https_server.Config.{Config, line, nil, cons}
use https_server.Lexer.Complete.{parse_token_iff}
use https_server.Lexer.Grammar.{Lexeme}
use https_server.Lexer.Merged.{parse_token-escape}
use https_server.Lexer.{normal, error, token, parse_token}
use https_server.Parser.Grammar.{config_symbols, IsWellFormed}
use https_server.Parser.Loop.{accepted}
use https_server.Parser.Syntax.{Symbols, parse-Symbols_iff}
use https_server.Parser.Shape.{parse-IsWellFormed}
use https_server.Parser.{parse, returned}

parse_token_iff_example :
    (parse_token (codes " 'it\\'s' x;") ≡ token normal (codes "'it's'") (codes " x;"))
    ↔ Lexeme [] (codes " 'it\\'s' x;") normal (codes "'it's'") (codes " x;")
parse_token_iff_example =
    parse_token_iff (codes " 'it\\'s' x;") normal (codes "'it's'") (codes " x;")

quoted_found : parse_token (codes " 'it\\'s' x;") ≡ token normal (codes "'it's'") (codes " x;")
unfolding parse_token
quoted_found = refl

-- The closing quote at the end of the file is kept in the value.
quoted_cut : parse_token (codes "'a'") ≡ token error (codes "'a'") []
unfolding parse_token
quoted_cut = refl

abbrev listen : Config
listen = cons (line (codes "listen" ∷ codes "80" ∷ [])) nil

parse-Symbols_iff_example :
    (accepted (parse (codes "listen 80; # a port\n") nil) ≡ some listen)
    ↔ (Symbols (codes "listen 80; # a port\n") (config_symbols listen) × IsWellFormed listen)
parse-Symbols_iff_example = parse-Symbols_iff (codes "listen 80; # a port\n") listen

parse_token-escape_example :
    parse_token (codes "\\; \tlisten 80;") ≡ token normal (codes ";listen") (codes " 80;")
parse_token-escape_example =
    parse_token-escape b';' (codes " \t") (codes "listen") b' ' (codes "80;") refl
      (refl, (refl, tt)) (ground arith) refl

parse-IsWellFormed_example :
    (b : Bool) × (out : Config) × (parse (codes "a { b; } } c") nil ≡ returned b out)
    × IsWellFormed out
unfolding IsWellFormed
parse-IsWellFormed_example = parse-IsWellFormed (codes "a { b; } } c") nil tt
