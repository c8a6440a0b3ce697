-- ===== src/Lexer/Steps.antt =====
-- The loop of `ParseToken` one byte at a time, and how much of the stream it takes.
use https_server.Prelude.{
  ℕ, suc, ◌≤◌, ◌<◌, ◌≡◌, refl, [], ◌∷◌, Option, none, some, arith, length, Bytes,
}
use https_server.Lexer.{
  TokenParserState, initial_whitespace, Round, continue, continue_past, return_unget, return,
  return_past, leave, round, behind, resume, Token, scan, parse_token,
}

-- The byte that a second `get` would read.
abbrev pub peek : Bytes → Option ℕ
peek [] = none
peek (c ∷ rest) = some c

-- What follows a round.
abbrev pub resumed : TokenParserState → Bytes → ℕ → Bytes → Round → Token
resumed state value c rest =
    resume (λ s v. scan s v rest) (λ s v. scan s v (behind rest)) state value c rest

-- The loop, as an equation for its first byte.
pub scan_lem :
    (state : TokenParserState) (value : Bytes) (c : ℕ) (rest : Bytes)
    → scan state value (c ∷ rest) ≡ resumed state value c rest (round state value c (peek rest))
unfolding scan
scan_lem state value c [] = refl
scan_lem state value c (ch ∷ rest) = refl

-- The equation at a known round.
pub scan_at :
    (state : TokenParserState) (value : Bytes) (c : ℕ) (rest : Bytes) {r : Round}
    → round state value c (peek rest) ≡ r
    → scan state value (c ∷ rest) ≡ resumed state value c rest r
scan_at state value c rest e = rw (← e) (scan_lem state value c rest)

scan_rest :
    (state : TokenParserState) (value input : Bytes)
    → length (scan state value input).rest ≤ length input
unfolding scan
scan_rest state value [] = omega arith
scan_rest state value (c ∷ []) = go (round state value c none)
  where
    go : (r : Round) → length (resumed state value c [] r).rest ≤ 1
    go r = ground arith
scan_rest state value (c ∷ ch ∷ rest) =
    go (λ s v. scan_rest s v (ch ∷ rest)) (λ s v. scan_rest s v rest)
      (round state value c (some ch))
  where
    go :
        ((s : TokenParserState) (v : Bytes)
          → length (scan s v (ch ∷ rest)).rest ≤ suc (length rest))
        → ((s : TokenParserState) (v : Bytes) → length (scan s v rest).rest ≤ length rest)
        → (r : Round) → length (resumed state value c (ch ∷ rest) r).rest ≤ suc (suc (length rest))
    go h k (continue s v) = omega (arith, h s v)
    go h k (continue_past s v) = omega (arith, k s v)
    go h k _ = omega arith

-- The round does not put its byte back.
abbrev Takes : Round → Type 0
Takes (return_unget t v) = ⊥
Takes _ = Unit

round_initial-Takes :
    (value : Bytes) (c : ℕ) (next : Option ℕ) → Takes (round initial_whitespace value c next)
unfolding round
round_initial-Takes value c none = ground arith
round_initial-Takes value c (some ch) = ground arith

resumed_rest :
    (state : TokenParserState) (value : Bytes) (c : ℕ) (rest : Bytes) (r : Round)
    → Takes r
    → length (resumed state value c rest r).rest ≤ length rest
resumed_rest state value c rest (continue s v) h = scan_rest s v rest
resumed_rest state value c [] (continue_past s v) h = scan_rest s v []
resumed_rest state value c (ch ∷ rest) (continue_past s v) h = omega (arith, scan_rest s v rest)
resumed_rest state value c rest (return_unget t v) h = absurd h
resumed_rest state value c [] (return_past t v) h = omega arith
resumed_rest state value c (ch ∷ rest) (return_past t v) h = omega arith
resumed_rest state value c rest (return t v) h = omega arith
resumed_rest state value c rest (leave v) h = omega arith

-- `ParseToken` takes at least one byte, unless the stream is at its end.
pub parse_token-lt :
    (c : ℕ) (rest : Bytes) → length (parse_token (c ∷ rest)).rest < length (c ∷ rest)
unfolding parse_token
parse_token-lt c rest = rw scan_lem (
    omega
      (arith, resumed_rest initial_whitespace [] c rest _ (round_initial-Takes [] c (peek rest))))
