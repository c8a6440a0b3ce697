-- ===== src/Lexer/Types.antt =====
-- The token types that `ParseToken` can return.
use https_server.Prelude.{ℕ, [], ◌∷◌, Option, none, some, arith, Bytes}
use https_server.Lexer.{
  TokenType, start, quoted_string, TokenParserState, initial_whitespace, single_quote, double_quote,
  token_type_comment, token_type_normal, Round, continue, continue_past, return_unget, return,
  return_past, leave, round, at_end, scan, parse_token,
}
use https_server.Lexer.Steps.{resumed}

abbrev pub IsReturned : TokenType → Type 0
IsReturned start = ⊥
IsReturned quoted_string = ⊥
IsReturned _ = Unit

abbrev Returns : Round → Type 0
Returns (return_unget t v) = IsReturned t
Returns (return t v) = IsReturned t
Returns (return_past t v) = IsReturned t
Returns _ = Unit

round-Returns :
    (state : TokenParserState) (value : Bytes) (c : ℕ) (next : Option ℕ)
    → Returns (round state value c next)
unfolding round
round-Returns initial_whitespace value c none = ground arith
round-Returns initial_whitespace value c (some ch) = ground arith
round-Returns single_quote value c none = ground arith
round-Returns single_quote value c (some ch) = ground arith
round-Returns double_quote value c none = ground arith
round-Returns double_quote value c (some ch) = ground arith
round-Returns token_type_comment value c next = ground arith
round-Returns token_type_normal value c none = ground arith
round-Returns token_type_normal value c (some ch) = ground arith

at_end-IsReturned : (state : TokenParserState) → IsReturned (at_end state)
unfolding at_end
at_end-IsReturned single_quote = tt
at_end-IsReturned _ = tt

scan-IsReturned :
    (state : TokenParserState) (value input : Bytes)
    → IsReturned (scan state value input).token_type
unfolding scan
scan-IsReturned state value [] = at_end-IsReturned state
scan-IsReturned state value (c ∷ []) =
    go (round state value c none) (round-Returns state value c none)
  where
    go : (r : Round) → Returns r → IsReturned (resumed state value c [] r).token_type
    go (continue s v) h = at_end-IsReturned s
    go (continue_past s v) h = at_end-IsReturned s
    go (leave v) h = at_end-IsReturned state
    go _ h = h
scan-IsReturned state value (c ∷ ch ∷ rest) =
    go (λ s v. scan-IsReturned s v (ch ∷ rest)) (λ s v. scan-IsReturned s v rest)
      (round state value c (some ch)) (round-Returns state value c (some ch))
  where
    go :
        ((s : TokenParserState) (v : Bytes) → IsReturned (scan s v (ch ∷ rest)).token_type)
        → ((s : TokenParserState) (v : Bytes) → IsReturned (scan s v rest).token_type)
        → (r : Round) → Returns r
        → IsReturned (resumed state value c (ch ∷ rest) r).token_type
    go h k (continue s v) e = h s v
    go h k (continue_past s v) e = k s v
    go h k (leave v) e = at_end-IsReturned state
    go h k _ e = e

-- `ParseToken` returns neither `TOKEN_TYPE_START` nor `TOKEN_TYPE_QUOTED_STRING`.
pub parse_token-IsReturned : (input : Bytes) → IsReturned (parse_token input).token_type
unfolding parse_token
parse_token-IsReturned input = scan-IsReturned initial_whitespace [] input
