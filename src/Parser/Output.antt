-- ===== src/Parser/Output.antt =====
-- What `Parse` of src/config_parser.cc prints: a line for each token, and a line for the token that
-- stops it.
pub mod Printed
use https_server.Prelude.{ℕ, zero, suc, [], ◌∷◌, ◌++◌, Option, none, some, Bytes, codes, length}
use https_server.Config.{Config}
use https_server.Lexer.{
  TokenType, start, normal, start_block, end_block, comment, statement_end, eof, error,
  quoted_string, parse_token,
}
use https_server.Parser.{
  ParseState, Round, next, break, accept, undefined, feed, write_back, pop_config, initial,
}
use https_server.StdString.{c_string}

-- `TokenTypeAsString`, whose `switch` has no case for TOKEN_TYPE_QUOTED_STRING.
abbrev pub token_type_as_string : TokenType → Bytes
token_type_as_string start = codes "TOKEN_TYPE_START"
token_type_as_string normal = codes "TOKEN_TYPE_NORMAL"
token_type_as_string start_block = codes "TOKEN_TYPE_START_BLOCK"
token_type_as_string end_block = codes "TOKEN_TYPE_END_BLOCK"
token_type_as_string comment = codes "TOKEN_TYPE_COMMENT"
token_type_as_string statement_end = codes "TOKEN_TYPE_STATEMENT_END"
token_type_as_string eof = codes "TOKEN_TYPE_EOF"
token_type_as_string error = codes "TOKEN_TYPE_ERROR"
token_type_as_string quoted_string = codes "Unknown token type"

-- printf("%s: %s\n", …)
abbrev pub token_line : TokenType → Bytes → Bytes
token_line t value = token_type_as_string t ++ (b':' ∷ b' ' ∷ (c_string value ++ b'\n' ∷ []))

-- printf("Bad transition from %s to %s\n", …)
abbrev pub bad_transition : ParseState → TokenType → Bytes
bad_transition s t =
    codes "Bad transition from "
    ++ (token_type_as_string s.last_token_type
        ++ (codes " to " ++ (token_type_as_string t ++ b'\n' ∷ [])))

-- What is printed behind the line of a token of type `t`.
abbrev pub print_behind : (ParseState → Bytes) → TokenType → Round → Bytes
print_behind loop t (next s) = loop s
print_behind loop t (break s) = bad_transition s t
print_behind loop t (accept s) = []
print_behind loop t undefined = []

-- The text that the loop prints, round by round as it goes.
pub print_loop : ℕ → ParseState → Bytes → Bytes
print_loop zero s input = []
print_loop (suc fuel) s input =
    let t = parse_token input in
    token_line t.token_type t.value
    ++ print_behind (λ s'. print_loop fuel s' t.rest) t.token_type (feed s t.token_type t.value)

unfoldable pub print_parse : Bytes → Config → Bytes
unfolding print_loop feed write_back pop_config parse_token c_string
print_parse input config = print_loop (suc (length input)) (initial config) input

-- Behind a file name: the line for a file that does not open.
abbrev pub print_opened : Bytes → Config → Option Bytes → Bytes
print_opened file_name config none =
    codes "Failed to open config file: " ++ (c_string file_name ++ b'\n' ∷ [])
print_opened file_name config (some text) = print_parse text config
