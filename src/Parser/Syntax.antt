-- ===== src/Parser/Syntax.antt =====
-- The config files that `Parse` of src/config_parser.cc accepts, by the grammar of their tokens.
use https_server.Prelude.{
  ℕ, zero, suc, ◌≡◌, ◌<◌, ◌↔◌, refl, sym, ap, ◌∙◌, subst, List, [], ◌∷◌, Option, none, some, Bytes,
  length, arith,
}
use https_server.Config.{Config, nil}
use https_server.Lexer.Complete.{parse_token_iff}
use https_server.Lexer.Grammar.{Lexeme, nothing}
use https_server.Lexer.Steps.{parse_token-lt}
use https_server.Lexer.{
  TokenType, start, normal, start_block, end_block, comment, statement_end, eof, error,
  quoted_string, parse_token,
}
use https_server.Parser.Grammar.{config_symbols, IsWellFormed, parse_iff}
use https_server.Parser.Loop.{accepted, symbols}
use https_server.Parser.Machine.{Symbol, word, semi, open_brace, close_brace, prepend, symbol_onto}
use https_server.Parser.Tokens.{gather-at}
use https_server.Parser.{parse}

-- An input as symbols, its comments left out. What the end of the file cuts off is left out too,
-- if it is no text between quotes.
pub data Symbols : Bytes → List Symbol → Type 0 where
  at_end : {input v rest : Bytes} → Lexeme [] input eof v rest → Symbols input []
  past_comment :
      {input v rest : Bytes} {xs : List Symbol}
      → Lexeme [] input comment v rest
      → Symbols rest xs
      → Symbols input xs
  at_word :
      {input v rest : Bytes} {xs : List Symbol}
      → Lexeme [] input normal v rest
      → Symbols rest xs
      → Symbols input (word v ∷ xs)
  at_semi :
      {input v rest : Bytes} {xs : List Symbol}
      → Lexeme [] input statement_end v rest
      → Symbols rest xs
      → Symbols input (semi ∷ xs)
  at_open :
      {input v rest : Bytes} {xs : List Symbol}
      → Lexeme [] input start_block v rest
      → Symbols rest xs
      → Symbols input (open_brace ∷ xs)
  at_close :
      {input v rest : Bytes} {xs : List Symbol}
      → Lexeme [] input end_block v rest
      → Symbols rest xs
      → Symbols input (close_brace ∷ xs)

-- The first token, and the symbols behind it.
symbols-Lexeme :
    (input v rest : Bytes) (t : TokenType)
    → Lexeme [] input t v rest
    → symbols input ≡ symbol_onto t v (symbols rest)
symbols-Lexeme input v rest t l =
    gather-at symbol_onto none (λ v a b. refl) input ((parse_token_iff input t v rest).1 l)

symbols-Symbols : {input : Bytes} {xs : List Symbol} → Symbols input xs → symbols input ≡ some xs
symbols-Symbols (at_end {input} {v} {rest} l) = symbols-Lexeme input v rest eof l
symbols-Symbols (past_comment {input} {v} {rest} l s) =
    symbols-Lexeme input v rest comment l ∙ symbols-Symbols s
symbols-Symbols (at_word {input} {v} {rest} l s) =
    symbols-Lexeme input v rest normal l ∙ ap (prepend (word v)) (symbols-Symbols s)
symbols-Symbols (at_semi {input} {v} {rest} l s) =
    symbols-Lexeme input v rest statement_end l ∙ ap (prepend semi) (symbols-Symbols s)
symbols-Symbols (at_open {input} {v} {rest} l s) =
    symbols-Lexeme input v rest start_block l ∙ ap (prepend open_brace) (symbols-Symbols s)
symbols-Symbols (at_close {input} {v} {rest} l s) =
    symbols-Lexeme input v rest end_block l ∙ ap (prepend close_brace) (symbols-Symbols s)

-- What is in front of a list.
prepended :
    (x : Symbol) (o : Option (List Symbol)) (xs : List Symbol)
    → prepend x o ≡ some xs
    → (ys : List Symbol) × (o ≡ some ys) × (xs ≡ x ∷ ys)
prepended x none xs e = absurd (cc)
prepended x (some ys) xs e = (ys, refl, cc)

-- One token at the front, and what is left as symbols.
Symbols-at :
    (input v rest : Bytes) (t : TokenType) (xs : List Symbol)
    → Lexeme [] input t v rest
    → symbol_onto t v (symbols rest) ≡ some xs
    → ((ys : List Symbol) → symbols rest ≡ some ys → Symbols rest ys)
    → Symbols input xs
Symbols-at input v rest eof xs l e later =
    let same : [] ≡ xs = cc in subst (Symbols input) same (at_end l)
Symbols-at input v rest comment xs l e later = past_comment l (later xs e)
Symbols-at input v rest normal xs l e later =
    let (ys, tail, same) = prepended (word v) (symbols rest) xs e in
    subst (Symbols input) (sym same) (at_word l (later ys tail))
Symbols-at input v rest statement_end xs l e later =
    let (ys, tail, same) = prepended semi (symbols rest) xs e in
    subst (Symbols input) (sym same) (at_semi l (later ys tail))
Symbols-at input v rest start_block xs l e later =
    let (ys, tail, same) = prepended open_brace (symbols rest) xs e in
    subst (Symbols input) (sym same) (at_open l (later ys tail))
Symbols-at input v rest end_block xs l e later =
    let (ys, tail, same) = prepended close_brace (symbols rest) xs e in
    subst (Symbols input) (sym same) (at_close l (later ys tail))
Symbols-at input v rest start xs l e later = absurd (cc)
Symbols-at input v rest error xs l e later = absurd (cc)
Symbols-at input v rest quoted_string xs l e later = absurd (cc)

Symbols-symbols :
    (fuel : ℕ) (input : Bytes) (xs : List Symbol)
    → length input < fuel
    → symbols input ≡ some xs
    → Symbols input xs
Symbols-symbols zero input xs h e = absurd (omega (arith, h))
Symbols-symbols (suc fuel) [] xs h e =
    let same : [] ≡ xs = cc (sym (symbols-Lexeme [] [] [] eof nothing) ∙ e) in
    subst (Symbols []) same (at_end nothing)
Symbols-symbols (suc fuel) (c ∷ input) xs h e =
    let t = parse_token (c ∷ input) in
    let l = (parse_token_iff (c ∷ input) t.token_type t.value t.rest).0 refl in
    Symbols-at (c ∷ input) t.value t.rest t.token_type xs l
      (sym (symbols-Lexeme (c ∷ input) t.value t.rest t.token_type l) ∙ e)
      (λ ys tail. Symbols-symbols fuel t.rest ys (omega (arith, parse_token-lt c input, h)) tail)

-- `Parse` on an empty config returns true with the config `c` exactly when the symbols of the
-- input, by the grammar of its tokens and with its comments left out, are those of `c` written out,
-- and every statement of `c` has a token.
pub parse-Symbols_iff :
    (input : Bytes) (c : Config)
    → (accepted (parse input nil) ≡ some c) ↔ (Symbols input (config_symbols c) × IsWellFormed c)
parse-Symbols_iff input c = (
  λ e.
      let (found, formed) = (parse_iff input c).0 e in
      (Symbols-symbols (suc (length input)) input (config_symbols c) (omega arith) found, formed),
  λ h. (parse_iff input c).1 (symbols-Symbols h.0, h.1),
)
