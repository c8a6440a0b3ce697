-- ===== src/Parser/RoundTrip.antt =====
-- `Parse` reads back what `ToString` writes.
use https_server.Prelude.{
  ℕ, ◌≡◌, refl, ap, sym, ◌∙◌, List, [], ◌∷◌, ◌++◌, append-nil, Option, none, some, Bytes,
}
use https_server.Config.{Statement, line, block, Config, nil, cons, to_string}
use https_server.Parser.{parse}
use https_server.Parser.Grammar.{
  words, statement_symbols, config_symbols, StatementIsWellFormed, IsWellFormed, parse_iff,
}
use https_server.Parser.Loop.{accepted, symbols}
use https_server.Parser.Machine.{Symbol, word, semi, open_brace, close_brace, prepend, symbol_onto}
use https_server.Parser.Tokens.{gather-nil}
use https_server.Parser.Written.{
  StatementIsPlain, ConfigIsPlain, words_onto, statement_onto, config_onto, gather-config,
}

mutual
  unfolding StatementIsWellFormed StatementIsPlain

  plain_statement : (s : Statement) → StatementIsPlain s → StatementIsWellFormed s
  plain_statement (line ts) h = h.0
  plain_statement (block ts child) h = (h.0, plain_config child h.2)

  pub plain_config : (c : Config) → ConfigIsPlain c → IsWellFormed c
  plain_config nil h = tt
  plain_config (cons s rest) h = (plain_statement s h.0, plain_config rest h.1)

-- Symbols in front of those of an input.
abbrev pub prepend_all : List Symbol → Option (List Symbol) → Option (List Symbol)
prepend_all [] xs = xs
prepend_all (y ∷ ys) xs = prepend y (prepend_all ys xs)

prepend_all-append :
    (xs ys : List Symbol) (o : Option (List Symbol))
    → prepend_all (xs ++ ys) o ≡ prepend_all xs (prepend_all ys o)
prepend_all-append [] ys o = refl
prepend_all-append (x ∷ xs) ys o = ap (prepend x) (prepend_all-append xs ys o)

pub prepend_all-some : (xs ys : List Symbol) → prepend_all xs (some ys) ≡ some (xs ++ ys)
prepend_all-some [] ys = refl
prepend_all-some (x ∷ xs) ys = ap (prepend x) (prepend_all-some xs ys)

words_onto-prepend_all :
    (ts : List Bytes) (xs : Option (List Symbol))
    → words_onto symbol_onto ts xs ≡ prepend_all (words ts) xs
words_onto-prepend_all [] xs = refl
words_onto-prepend_all (t ∷ ts) xs = ap (prepend (word t)) (words_onto-prepend_all ts xs)

-- The symbols that the tokens of a config stand for.
mutual
  unfolding config_symbols config_onto

  statement_onto-prepend_all :
      (s : Statement) (xs : Option (List Symbol))
      → statement_onto symbol_onto s xs ≡ prepend_all (statement_symbols s) xs
  statement_onto-prepend_all (line ts) xs =
      rw prepend_all-append (words_onto-prepend_all ts (prepend semi xs))
  statement_onto-prepend_all (block ts child) xs =
      let end = prepend close_brace xs in
      rw (prepend_all-append (words ts) _ xs, prepend_all-append (config_symbols child) _ xs)
        (words_onto-prepend_all ts (prepend open_brace (config_onto symbol_onto child end))
          ∙ ap (λ ys. prepend_all (words ts) (prepend open_brace ys))
              (config_onto-prepend_all child end))

  config_onto-prepend_all :
      (c : Config) (xs : Option (List Symbol))
      → config_onto symbol_onto c xs ≡ prepend_all (config_symbols c) xs
  config_onto-prepend_all nil xs = refl
  config_onto-prepend_all (cons s c) xs = rw prepend_all-append (
      ap (statement_onto symbol_onto s) (config_onto-prepend_all c xs)
      ∙ statement_onto-prepend_all s (prepend_all (config_symbols c) xs))

pub symbols-config :
    (c : Config) (depth : ℕ) (rest : Bytes)
    → ConfigIsPlain c
    → symbols (to_string depth c ++ rest) ≡ prepend_all (config_symbols c) (symbols rest)
symbols-config c depth rest h =
    gather-config symbol_onto none (λ v a b. refl) c depth rest h
    ∙ config_onto-prepend_all c (symbols rest)

-- `Parse` reads a config back from its `ToString`, at any depth, where every statement has a token
-- and every token is a word that needs no quotes.
pub parse-to_string :
    (c : Config) (depth : ℕ) → ConfigIsPlain c → accepted (parse (to_string depth c) nil) ≡ some c
parse-to_string c depth h = (parse_iff (to_string depth c) c).1 (
  ap symbols (sym (append-nil (to_string depth c)))
      ∙ symbols-config c depth [] h
      ∙ ap (prepend_all (config_symbols c)) (gather-nil symbol_onto none (λ v a b. refl))
      ∙ prepend_all-some (config_symbols c) []
      ∙ ap some (append-nil (config_symbols c)),
  plain_config c h,
)
