-- ===== src/Parser/Tokens.antt =====
-- What is gathered from the tokens that `ParseToken` of src/config_parser.cc takes off an input:
-- each token in front of what is gathered behind it. The symbols of the machine are gathered so,
-- and the lines that `Parse` prints.
use https_server.Prelude.{
  ℕ, zero, suc, ◌<◌, ◌≡◌, ap, sym, ◌∙◌, true, [], ◌∷◌, ◌++◌, arith, Bytes, length,
}
use https_server.Lexer.{
  TokenType, normal, start_block, end_block, statement_end, eof, ends_normal, is_space, Token,
  parse_token,
}
use https_server.Lexer.Steps.{parse_token-lt}
use https_server.Lexer.Words.{
  IsWord, parse_token-IsWord, parse_token-space, parse_token-semi, parse_token-open,
  parse_token-close,
}

module _ {A : Type 0} (onto : TokenType → Bytes → A → A) (empty : A) where
  -- From the first `fuel` tokens.
  unfoldable pub gather_of : ℕ → Bytes → A
  gather_of zero input = empty
  gather_of (suc fuel) input =
      let t = parse_token input in let xs = gather_of fuel t.rest in onto t.token_type t.value xs

  -- From a whole input.
  unfoldable pub gather : Bytes → A
  unfolding gather_of
  gather input = gather_of (suc (length input)) input

  -- From the first token, and from what it leaves.
  abbrev pub gather_behind : Token → A
  gather_behind t = onto t.token_type t.value (gather t.rest)

-- Nothing is gathered behind the end of the input.
module _ {A : Type 0} (onto : TokenType → Bytes → A → A) (empty : A)
    (stops : (v : Bytes) (a b : A) → onto eof v a ≡ onto eof v b) where
  gather_of_fuel :
      (f g : ℕ) (input : Bytes)
      → length input < f
      → length input < g
      → gather_of onto empty f input ≡ gather_of onto empty g input
  unfolding gather_of
  gather_of_fuel zero g input h k = elim h [ ]
  gather_of_fuel (suc f) zero input h k = elim k [ ]
  gather_of_fuel (suc f) (suc g) [] h k = unfold parse_token in stops [] _ _
  gather_of_fuel (suc f) (suc g) (c ∷ rest) h k =
      ap (onto (parse_token (c ∷ rest)).token_type (parse_token (c ∷ rest)).value) (
        gather_of_fuel f g (parse_token (c ∷ rest)).rest (omega (arith, parse_token-lt c rest))
          (omega (arith, parse_token-lt c rest)))

  gather_lem :
      (input : Bytes) → gather onto empty input ≡ gather_behind onto empty (parse_token input)
  unfolding gather gather_of
  gather_lem [] = unfold parse_token in stops [] _ _
  gather_lem (c ∷ rest) =
      ap (onto (parse_token (c ∷ rest)).token_type (parse_token (c ∷ rest)).value) (
        gather_of_fuel (suc (length rest)) (suc (length (parse_token (c ∷ rest)).rest))
          (parse_token (c ∷ rest)).rest (omega (arith, parse_token-lt c rest)) (omega arith))

  pub gather-at :
      (input : Bytes) {t : Token}
      → parse_token input ≡ t
      → gather onto empty input ≡ gather_behind onto empty t
  gather-at input e = gather_lem input ∙ ap (gather_behind onto empty) e

  pub gather-word :
      (w : Bytes) (d : ℕ) (rest : Bytes)
      → IsWord w
      → ends_normal d ≡ true
      → gather onto empty (w ++ d ∷ rest) ≡ onto normal w (gather onto empty (d ∷ rest))
  gather-word w d rest h e = gather-at (w ++ d ∷ rest) (parse_token-IsWord w d rest h e)

  pub gather-space :
      (c : ℕ) (rest : Bytes)
      → is_space c ≡ true
      → gather onto empty (c ∷ rest) ≡ gather onto empty rest
  gather-space c rest h =
      gather_lem (c ∷ rest)
      ∙ ap (gather_behind onto empty) (parse_token-space c rest h)
      ∙ sym (gather_lem rest)

  pub gather-semi :
      (rest : Bytes)
      → gather onto empty (b';' ∷ rest) ≡ onto statement_end (b';' ∷ []) (gather onto empty rest)
  gather-semi rest = gather-at (b';' ∷ rest) (parse_token-semi rest)

  pub gather-open :
      (rest : Bytes)
      → gather onto empty (b'{' ∷ rest) ≡ onto start_block (b'{' ∷ []) (gather onto empty rest)
  gather-open rest = gather-at (b'{' ∷ rest) (parse_token-open rest)

  pub gather-close :
      (rest : Bytes)
      → gather onto empty (b'}' ∷ rest) ≡ onto end_block (b'}' ∷ []) (gather onto empty rest)
  gather-close rest = gather-at (b'}' ∷ rest) (parse_token-close rest)

  pub gather-nil : gather onto empty [] ≡ onto eof [] empty
  unfolding parse_token
  gather-nil = gather_lem [] ∙ stops [] _ _
