-- ===== src/Lexer/Complete.antt =====
-- `ParseToken` of src/config_parser.cc finds the tokens of the grammar, and no others.
use https_server.Prelude.{
  ℕ, ◌≡◌, ◌≢◌, ◌↔◌, sym, ◌∙◌, subst, true, false, [], ◌∷◌, ◌++◌, ◌||◌, ◌==◌, arith, Bytes,
  Bool-cases, inl, inr,
}
use https_server.Lexer.Follows.{scan-Lexeme}
use https_server.Lexer.Grammar.{
  Mark, opens, closes, ends, Remark, line_end, inside, Closing, good, bad, cut, unclosed, WordEnd,
  stop, IsFirst, last_quote, Lexeme, nothing, blank, mark, remark, double, single, word, escape,
  backslash, last_backslash,
}
use https_server.Lexer.Insides.{is_double, is_single, reads}
use https_server.Lexer.{
  TokenType, start_block, end_block, statement_end, is_space, is_special, ends_quoted, ends_normal,
  normal, comment, eof, error, token, parse_token,
}

remarks : (input : Bytes) → (v : Bytes) × (t : TokenType) × (rest : Bytes) × Remark input v t rest
remarks [] = ([], eof, [], Remark.file_end)
remarks (c ∷ input) =
    let (v, t, rest, r) = remarks input in
    elim (Bool-cases (c == b'\n' || c == b'\r')) [
      | inl e ↦ ([], comment, input, line_end e)
      | inr e ↦ (c ∷ v, t, rest, inside e r)
    ]

closings : (tail : Bytes) → (t : TokenType) × (rest : Bytes) × Closing tail t rest
closings [] = (error, [], unclosed)
closings (q ∷ []) = (error, [], cut)
closings (q ∷ d ∷ rest) = elim (Bool-cases (ends_quoted d)) [
  | inl e ↦ (normal, d ∷ rest, good e)
  | inr e ↦ (error, rest, bad e)
]

word_ends : (rest : Bytes) → (t : TokenType) × WordEnd rest t
word_ends [] = (eof, WordEnd.file_end)
word_ends (c ∷ rest) = (normal, stop)

-- What a byte in front of a token is.
data Front (c : ℕ) : Type 0 where
  is_blank : is_space c ≡ true → Front c
  is_mark : (t : TokenType) → Mark c t → Front c
  is_hash : c ≡ b'#' → Front c
  is_double_quote : c ≡ b'"' → Front c
  is_single_quote : c ≡ b'\'' → Front c
  is_backslash : c ≡ b'\\' → Front c
  is_first : IsFirst c → Front c

quote_or_first : (c : ℕ) → ends_normal c ≡ false → c ≢ b'\\' → c ≢ b'#' → Front c
quote_or_first c plain no_backslash no_hash = elim (Bool-cases (c == b'"')) [
  | inl e ↦ is_double_quote (ground arith)
  | inr e ↦ elim (Bool-cases (c == b'\'')) [
    | inl f ↦ is_single_quote (ground arith)
    | inr f ↦ is_first (plain, no_backslash, no_hash, ground arith, ground arith)
  ]
]

mark_front : (c : ℕ) → ends_normal c ≡ true → is_space c ≡ false → Front c
mark_front c h k = elim (Bool-cases (c == b'{')) [
  | inl e ↦ is_mark start_block (opens (ground arith))
  | inr e ↦ elim (Bool-cases (c == b'}')) [
    | inl f ↦ is_mark end_block (closes (ground arith))
    | inr f ↦ is_mark statement_end (ends (ground arith))
  ]
]

front : (c : ℕ) → Front c
front c = elim (Bool-cases (is_space c)) [
  | inl e ↦ is_blank e
  | inr e ↦ elim (Bool-cases (ends_normal c)) [
    | inl f ↦ mark_front c f e
    | inr f ↦ elim (Bool-cases (c == b'\\')) [
      | inl g ↦ is_backslash (ground arith)
      | inr g ↦ elim (Bool-cases (c == b'#')) [
        | inl h ↦ is_hash (ground arith)
        | inr h ↦ quote_or_first c f (ground arith) (ground arith)
      ]
    ]
  ]
]

-- A token at the front of an input.
abbrev Lexemes : Bytes → Bytes → Type 0
Lexemes p input = (t : TokenType) × (v : Bytes) × (rest : Bytes) × Lexeme p input t v rest

lexeme_remark : (p : Bytes) (c : ℕ) (input : Bytes) → c ≡ b'#' → Lexemes p (c ∷ input)
lexeme_remark p c input e = let (v, t, rest, r) = remarks input in (t, c ∷ v, rest, remark e r)

lexeme_double : (p : Bytes) (c : ℕ) (input : Bytes) → c ≡ b'"' → Lexemes p (c ∷ input)
lexeme_double p c input e =
    let (v, tail, r) = reads is_double is_double input in
    let (t, rest, k) = closings tail in (t, p ++ v, rest, double e r k)

lexeme_single : (p : Bytes) (c : ℕ) (input : Bytes) → c ≡ b'\'' → Lexemes p (c ∷ input)
lexeme_single p c input e =
    let (v, tail, r) = reads is_single is_single input in
    let (t, rest, k) = closings tail in (t, (c ∷ v) ++ last_quote tail, rest, single e r k)

lexeme_word : (p : Bytes) (c : ℕ) (input : Bytes) → IsFirst c → Lexemes p (c ∷ input)
lexeme_word p c input f =
    let (v, rest, r) = reads ends_normal is_special input in
    let (t, k) = word_ends rest in (t, p ++ c ∷ v, rest, word f r k)

-- Where the byte is no backslash, from a token behind it.
lexeme_front :
    (p : Bytes) (c : ℕ) (input : Bytes)
    → Front c
    → c ≢ b'\\'
    → Lexemes p input
    → Lexemes p (c ∷ input)
lexeme_front p c input (is_blank e) other (t, v, rest, l) = (t, v, rest, blank e l)
lexeme_front p c input (is_mark t m) other l = (t, c ∷ [], input, mark m)
lexeme_front p c input (is_hash e) other l = lexeme_remark p c input e
lexeme_front p c input (is_double_quote e) other l = lexeme_double p c input e
lexeme_front p c input (is_single_quote e) other l = lexeme_single p c input e
lexeme_front p c input (is_backslash e) other l = absurd (other e)
lexeme_front p c input (is_first f) other l = lexeme_word p c input f

lexemes : (p input : Bytes) → Lexemes p input
lexemes p [] = (eof, p, [], nothing)
lexemes p (c ∷ []) = elim (Bool-cases (c == b'\\')) [
  | inl b ↦ (eof, p, [], last_backslash (ground arith))
  | inr b ↦ lexeme_front p c [] (front c) (ground arith) (lexemes p [])
]
lexemes p (c ∷ ch ∷ rest) =
    let (t, v, r, past) = lexemes (p ++ ch ∷ []) rest in
    let (t', v', r', next) = lexemes (p ++ c ∷ []) (ch ∷ rest) in
    let behind_blank = lexemes p (ch ∷ rest) in
    elim (Bool-cases (c == b'\\')) [
      | inr b ↦ lexeme_front p c (ch ∷ rest) (front c) (ground arith) behind_blank
      | inl b ↦ elim (Bool-cases (is_special ch)) [
        | inl e ↦ (t, v, r, escape (ground arith) e past)
        | inr e ↦ (t', v', r', backslash (ground arith) e next)
      ]
    ]

-- `ParseToken` finds a token exactly where the grammar has it at the front of the stream, with the
-- type, the value and the bytes that are left.
pub parse_token_iff :
    (input : Bytes) (t : TokenType) (v rest : Bytes)
    → (parse_token input ≡ token t v rest) ↔ Lexeme [] input t v rest
unfolding parse_token
parse_token_iff input t v rest = (complete, λ l. scan-Lexeme l)
  where
    complete : parse_token input ≡ token t v rest → Lexeme [] input t v rest
    complete e =
        let (t', v', rest', l) = lexemes [] input in
        let found : token t' v' rest' ≡ token t v rest = sym (scan-Lexeme l) ∙ e in
        let types : t' ≡ t = cc in
        let values : v' ≡ v = cc in
        let rests : rest' ≡ rest = cc in
        subst (λ x. Lexeme [] input x v rest) types
          (subst (λ x. Lexeme [] input t' x rest) values
            (subst (λ x. Lexeme [] input t' v' x) rests l))
