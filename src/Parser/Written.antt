-- ===== src/Parser/Written.antt =====
-- What is gathered from the tokens of a text that `ToString` has written.
use https_server.Prelude.{
  ℕ, zero, suc, ◌+◌, ◌≡◌, ◌≢◌, refl, ap, sym, ◌∙◌, List, [], ◌∷◌, ◌++◌, append_assoc, true, All,
  Bytes,
}
use https_server.Config.{
  Statement, line, block, Config, nil, cons, indent, spaced, joined, statement_to_string, to_string,
}
use https_server.Lexer.{TokenType, normal, start_block, end_block, statement_end, eof, ends_normal}
use https_server.Lexer.Words.{IsWord}
use https_server.Parser.Tokens.{
  gather, gather-word, gather-space, gather-semi, gather-open, gather-close,
}

-- Every token is a word, and every statement has one.
unfoldable mutual
  pub StatementIsPlain : Statement → Type 0
  StatementIsPlain (line ts) = (ts ≢ []) × All IsWord ts
  StatementIsPlain (block ts child) = (ts ≢ []) × All IsWord ts × ConfigIsPlain child

  pub ConfigIsPlain : Config → Type 0
  ConfigIsPlain nil = Unit
  ConfigIsPlain (cons s rest) = StatementIsPlain s × ConfigIsPlain rest

module _ {A : Type 0} (onto : TokenType → Bytes → A → A) where
  -- The tokens of a config, in front of what is gathered behind them.
  abbrev pub words_onto : List Bytes → A → A
  words_onto [] a = a
  words_onto (t ∷ ts) a = onto normal t (words_onto ts a)

  unfoldable mutual
    pub statement_onto : Statement → A → A
    statement_onto (line ts) a = words_onto ts (onto statement_end (b';' ∷ []) a)
    statement_onto (block ts child) a =
        words_onto ts
          (onto start_block (b'{' ∷ []) (config_onto child (onto end_block (b'}' ∷ []) a)))

    pub config_onto : Config → A → A
    config_onto nil a = a
    config_onto (cons s rest) a = statement_onto s (config_onto rest a)

module _ {A : Type 0} (onto : TokenType → Bytes → A → A) (empty : A)
    (stops : (v : Bytes) (a b : A) → onto eof v a ≡ onto eof v b) where
  gather-indent :
      (depth : ℕ) (rest : Bytes) → gather onto empty (indent depth ++ rest) ≡ gather onto empty rest
  gather-indent zero rest = refl
  gather-indent (suc depth) rest =
      gather-space onto empty stops b' ' (b' ' ∷ (indent depth ++ rest)) refl
      ∙ gather-space onto empty stops b' ' (indent depth ++ rest) refl
      ∙ gather-indent depth rest

  -- The words of a line, in front of a byte that ends the last.
  gather-spaced :
      (ts : List Bytes) (d : ℕ) (rest : Bytes)
      → All IsWord ts
      → ends_normal d ≡ true
      → gather onto empty (spaced ts ++ (d ∷ rest))
        ≡ words_onto onto ts (gather onto empty (d ∷ rest))
  gather-spaced [] d rest h e = refl
  gather-spaced (t ∷ []) d rest h e =
      gather-space onto empty stops b' ' _ refl
      ∙ rw append_assoc (gather-word onto empty stops t d rest h.0 e)
  gather-spaced (t ∷ u ∷ ts) d rest h e =
      gather-space onto empty stops b' ' _ refl
      ∙ rw append_assoc (
          gather-word onto empty stops t b' ' _ h.0 refl
          ∙ ap (onto normal t) (gather-spaced (u ∷ ts) d rest h.1 e))

  -- The first word has no space before it, which makes no difference.
  gather-joined :
      (ts : List Bytes) (d : ℕ) (rest : Bytes)
      → All IsWord ts
      → ends_normal d ≡ true
      → gather onto empty (joined ts ++ (d ∷ rest))
        ≡ words_onto onto ts (gather onto empty (d ∷ rest))
  gather-joined [] d rest h e = refl
  gather-joined (t ∷ ts) d rest h e =
      sym (gather-space onto empty stops b' ' ((t ++ spaced ts) ++ (d ∷ rest)) refl)
      ∙ gather-spaced (t ∷ ts) d rest h e

  -- What comes of a text behind its indentation, its words and one more byte.
  gather-head :
      (depth : ℕ) (ts : List Bytes) (d : ℕ) (rest : Bytes)
      → All IsWord ts
      → ends_normal d ≡ true
      → gather onto empty (indent depth ++ (joined ts ++ (d ∷ rest)))
        ≡ words_onto onto ts (gather onto empty (d ∷ rest))
  gather-head depth ts d rest h e =
      gather-indent depth (joined ts ++ (d ∷ rest)) ∙ gather-joined ts d rest h e

  gather-semi_line :
      (rest : Bytes)
      → gather onto empty (b';' ∷ b'\n' ∷ rest)
        ≡ onto statement_end (b';' ∷ []) (gather onto empty rest)
  gather-semi_line rest =
      gather-semi onto empty stops (b'\n' ∷ rest)
      ∙ ap (onto statement_end (b';' ∷ [])) (gather-space onto empty stops b'\n' rest refl)

  gather-open_line :
      (rest : Bytes)
      → gather onto empty (b' ' ∷ b'{' ∷ b'\n' ∷ rest)
        ≡ onto start_block (b'{' ∷ []) (gather onto empty rest)
  gather-open_line rest =
      gather-space onto empty stops b' ' _ refl
      ∙ gather-open onto empty stops (b'\n' ∷ rest)
      ∙ ap (onto start_block (b'{' ∷ [])) (gather-space onto empty stops b'\n' rest refl)

  gather-close_line :
      (depth : ℕ) (rest : Bytes)
      → gather onto empty (indent depth ++ (b'}' ∷ b'\n' ∷ rest))
        ≡ onto end_block (b'}' ∷ []) (gather onto empty rest)
  gather-close_line depth rest =
      gather-indent depth _
      ∙ gather-close onto empty stops (b'\n' ∷ rest)
      ∙ ap (onto end_block (b'}' ∷ [])) (gather-space onto empty stops b'\n' rest refl)

  mutual
    unfolding to_string config_onto ConfigIsPlain

    gather-statement :
        (s : Statement) (depth : ℕ) (rest : Bytes)
        → StatementIsPlain s
        → gather onto empty (statement_to_string depth s ++ rest)
          ≡ statement_onto onto s (gather onto empty rest)
    gather-statement (line ts) depth rest h =
        rw (append_assoc, append_assoc)
          (gather-head depth ts b';' (b'\n' ∷ rest) h.1 refl
            ∙ ap (words_onto onto ts) (gather-semi_line rest))
    gather-statement (block ts child) depth rest h =
        let end = indent depth ++ (b'}' ∷ b'\n' ∷ rest) in
        simp (append_assoc) (
          gather-head depth ts b' ' (b'{' ∷ b'\n' ∷ (to_string (depth + 1) child ++ end)) h.1 refl
          ∙ ap (words_onto onto ts) (
              gather-open_line (to_string (depth + 1) child ++ end)
              ∙ ap (onto start_block (b'{' ∷ [])) (
                  gather-config child (depth + 1) end h.2
                  ∙ ap (config_onto onto child) (gather-close_line depth rest))))

    pub gather-config :
        (c : Config) (depth : ℕ) (rest : Bytes)
        → ConfigIsPlain c
        → gather onto empty (to_string depth c ++ rest)
          ≡ config_onto onto c (gather onto empty rest)
    gather-config nil depth rest h = refl
    gather-config (cons s c) depth rest h = rw (append_assoc) (
        gather-statement s depth (to_string depth c ++ rest) h.0
        ∙ ap (statement_onto onto s) (gather-config c depth rest h.1))
