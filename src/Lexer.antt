-- ===== src/Lexer.antt =====
-- src/config_parser.cc, `NginxConfigParser::ParseToken`, and the enums of include/config_parser.h.
-- The stream is the list of the bytes that are left: `get` takes one, `unget` behind a successful
-- `get` puts it back, and once a `get` has failed there are none left, so `good()` is that the next
-- `get` succeeds.
pub mod Steps
pub mod Types
pub mod Words
pub mod Quotes
pub mod Insides
pub mod Grammar
pub mod Follows
pub mod Complete
pub mod Merged
use https_server.Prelude.{
  ℕ, Bool, ◌||◌, [], ◌∷◌, ◌++◌, Option, none, some, ◌==◌, if◌then◌else◌, Bytes,
}

pub data TokenType : Type 0 where
  start normal start_block end_block comment statement_end eof error quoted_string : TokenType

pub data TokenParserState : Type 0 where
  initial_whitespace single_quote double_quote token_type_comment token_type_normal :
      TokenParserState

-- What one round of the loop does, once `c` is read. The round may read a second byte, `ch`.
pub data Round : Type 0 where
  -- `continue`, behind `c`
  continue : TokenParserState → Bytes → Round
  -- `continue`, behind `c` and `ch`
  continue_past : TokenParserState → Bytes → Round
  -- `return`, with `c` put back
  return_unget : TokenType → Bytes → Round
  -- `return`, behind `c`
  return : TokenType → Bytes → Round
  -- `return`, behind `c` and `ch`
  return_past : TokenType → Bytes → Round
  -- `break`: the second `get` found the end of the stream; `*value` stays what it was
  leave : Bytes → Round

abbrev pub is_space : ℕ → Bool
is_space c = c == b' ' || (c == b'\t' || (c == b'\n' || c == b'\r'))

-- What a backslash escapes outside quotes.
abbrev pub is_special : ℕ → Bool
is_special ch =
    ch == b' ' || (ch == b'\t' || (ch == b';' || (ch == b'{' || (ch == b'}' || ch == b'#'))))

-- What may follow a closing quote.
abbrev pub ends_quoted : ℕ → Bool
ends_quoted ch = is_space ch || (ch == b';' || ch == b'{')

-- What ends an unquoted token.
abbrev pub ends_normal : ℕ → Bool
ends_normal c = is_space c || (c == b';' || (c == b'{' || c == b'}'))

-- The code behind `if (c == '\\')`, in a state that stays, for the bytes that may be escaped.
abbrev escaped : (ℕ → Bool) → TokenParserState → Bytes → ℕ → Option ℕ → Round
escaped test state value c none = leave value
escaped test state value c (some ch) =
    if test ch then continue_past state (value ++ ch ∷ []) else continue state (value ++ c ∷ [])

-- The code behind a closing quote.
abbrev closed : Bytes → Option ℕ → Round
closed value none = leave value
closed value (some ch) = if ends_quoted ch then return normal value else return_past error value

-- `case TOKEN_STATE_INITIAL_WHITESPACE`. The `break` for a failed `get` leaves the inner switch and
-- falls into the code of the next case, where a backslash calls `get` once more, which fails again.
abbrev round_initial : Bytes → ℕ → Option ℕ → Round
round_initial value c next =
    if c == b'{'
    then return start_block (c ∷ [])
    else if c == b'}'
    then return end_block (c ∷ [])
    else if c == b'#'
    then continue token_type_comment (c ∷ [])
    else if c == b'"'
    then continue double_quote value
    else if c == b'\''
    then continue single_quote (c ∷ [])
    else if c == b';'
    then return statement_end (c ∷ [])
    else if is_space c
    then continue initial_whitespace value
    else if c == b'\\'
    then escaped is_special initial_whitespace value c next
    else continue token_type_normal (value ++ c ∷ [])

abbrev round_single : Bytes → ℕ → Option ℕ → Round
round_single value c next =
    if c == b'\\'
    then escaped (λ ch. ch == b'\'') single_quote value c next
    else if c == b'\''
    then closed (value ++ c ∷ []) next
    else continue single_quote (value ++ c ∷ [])

abbrev round_double : Bytes → ℕ → Option ℕ → Round
round_double value c next =
    if c == b'\\'
    then escaped (λ ch. ch == b'"') double_quote value c next
    else if c == b'"'
    then closed value next
    else continue double_quote (value ++ c ∷ [])

abbrev round_comment : Bytes → ℕ → Round
round_comment value c =
    if c == b'\n' || c == b'\r'
    then return comment value
    else continue token_type_comment (value ++ c ∷ [])

abbrev round_normal : Bytes → ℕ → Option ℕ → Round
round_normal value c next =
    if ends_normal c
    then return_unget normal value
    else if c == b'\\'
    then escaped is_special token_type_normal value c next
    else continue token_type_normal (value ++ c ∷ [])

-- `switch (state)`.
pub round : TokenParserState → Bytes → ℕ → Option ℕ → Round
round initial_whitespace value c next = round_initial value c next
round single_quote value c next = round_single value c next
round double_quote value c next = round_double value c next
round token_type_comment value c next = round_comment value c
round token_type_normal value c next = round_normal value c next

-- The result of `ParseToken`: the type, `*value`, and what is left of the stream.
pub record Token : Type 0 where
  pub token_type : TokenType
  pub value : Bytes
  pub rest : Bytes

abbrev pub token : TokenType → Bytes → Bytes → Token
token t v rest = record { token_type = t; value = v; rest = rest }

abbrev pub behind : Bytes → Bytes
behind [] = []
behind (c ∷ rest) = rest

-- The code behind the loop.
pub at_end : TokenParserState → TokenType
at_end single_quote = error
at_end double_quote = error
at_end _ = eof

-- How the loop goes on behind a round that read `c`, and maybe the first byte of `rest`; `next` is
-- the loop from `rest`, and `past` the loop from behind its first byte.
abbrev pub resume :
    (next past : TokenParserState → Bytes → Token)
    → TokenParserState
    → Bytes
    → ℕ
    → Bytes
    → Round
    → Token
resume next past state value c rest (continue state' value') = next state' value'
resume next past state value c rest (continue_past state' value') = past state' value'
resume next past state value c rest (return_unget t value') = token t value' (c ∷ rest)
resume next past state value c rest (return t value') = token t value' rest
resume next past state value c rest (return_past t value') = token t value' (behind rest)
resume next past state value c rest (leave value') = token (at_end state) value' []

-- The loop `while (input->good())`.
pub scan : TokenParserState → Bytes → Bytes → Token
scan state value [] = token (at_end state) value []
scan state value (c ∷ []) =
    let stop = λ (s : TokenParserState) (v : Bytes). token (at_end s) v [] in
    resume stop stop state value c [] (round state value c none)
scan state value (c ∷ ch ∷ rest) =
    resume (λ s v. scan s v (ch ∷ rest)) (λ s v. scan s v rest) state value c (ch ∷ rest)
      (round state value c (some ch))

unfoldable pub parse_token : Bytes → Token
unfolding scan round at_end
parse_token input = scan initial_whitespace [] input
