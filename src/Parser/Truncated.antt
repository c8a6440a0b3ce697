-- ===== src/Parser/Truncated.antt =====
-- A word at the very end of the input, with nothing behind it.
use https_server.Prelude.{◌≡◌, ap, ◌∙◌, [], ◌++◌, append-nil, none, some, refl, Bytes, ℕ}
use https_server.Config.{Config, nil, to_string}
use https_server.Lexer.Words.{IsWord, parse_token_end}
use https_server.Parser.{parse}
use https_server.Parser.Grammar.{config_symbols, parse_iff}
use https_server.Parser.Loop.{accepted}
use https_server.Parser.RoundTrip.{plain_config, prepend_all, prepend_all-some, symbols-config}
use https_server.Parser.Machine.{symbol_onto}
use https_server.Parser.Tokens.{gather-at}
use https_server.Parser.Written.{ConfigIsPlain}

-- A config file that ends in a word, with no `;` behind it, is accepted, and the word is lost: the
-- config is that of the file without the word.
pub parse-to_string_word :
    (c : Config) (depth : ℕ) (w : Bytes)
    → ConfigIsPlain c
    → IsWord w
    → accepted (parse (to_string depth c ++ w) nil) ≡ some c
parse-to_string_word c depth w h k = (parse_iff (to_string depth c ++ w) c).1 (
  symbols-config c depth w h
      ∙ ap (prepend_all (config_symbols c))
          (gather-at symbol_onto none (λ v a b. refl) w (parse_token_end w k))
      ∙ prepend_all-some (config_symbols c) []
      ∙ ap some (append-nil (config_symbols c)),
  plain_config c h,
)
