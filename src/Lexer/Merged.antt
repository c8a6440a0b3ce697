-- ===== src/Lexer/Merged.antt =====
-- A backslash at the front of a token, for `ParseToken` of src/config_parser.cc, which stays in the
-- white space in front of a token behind what it escapes.
use https_server.Prelude.{ℕ, ◌≡◌, refl, true, [], ◌∷◌, ◌++◌, Bytes, All}
use https_server.Lexer.Complete.{parse_token_iff}
use https_server.Lexer.Grammar.{Mark, Lexeme, blank, mark, word, escape, stop}
use https_server.Lexer.Insides.{Reads, byte, stopped}
use https_server.Lexer.Words.{IsPlain, IsWord}
use https_server.Lexer.{TokenType, normal, is_space, is_special, ends_normal, token, parse_token}

Reads-plain :
    (w : Bytes) (d : ℕ) (rest : Bytes)
    → All IsPlain w
    → ends_normal d ≡ true
    → Reads ends_normal is_special (w ++ d ∷ rest) w (d ∷ rest)
Reads-plain [] d rest h e = stopped e
Reads-plain (c ∷ w) d rest (h, k) e = byte h.0 h.1 (Reads-plain w d rest k e)

Lexeme-blanks :
    (p blanks input v rest : Bytes) (t : TokenType)
    → All (λ c. is_space c ≡ true) blanks
    → Lexeme p input t v rest
    → Lexeme p (blanks ++ input) t v rest
Lexeme-blanks p [] input v rest t h l = l
Lexeme-blanks p (c ∷ blanks) input v rest t (e, h) l =
    blank e (Lexeme-blanks p blanks input v rest t h l)

Lexeme-word :
    (p w : Bytes) (d : ℕ) (rest : Bytes)
    → IsWord w
    → ends_normal d ≡ true
    → Lexeme p (w ++ d ∷ rest) normal (p ++ w) (d ∷ rest)
Lexeme-word p [] d rest h e = absurd h
Lexeme-word p (c ∷ w) d rest (plain, first, others) e =
    word (plain.0, plain.1, first.0, first.1, first.2) (Reads-plain w d rest others e) stop

-- A byte that a backslash escapes at the front of a word, the white space behind it, and the next
-- word are one token, and the white space between the two is lost.
pub parse_token-escape :
    (ch : ℕ) (blanks w : Bytes) (d : ℕ) (rest : Bytes)
    → is_special ch ≡ true
    → All (λ c. is_space c ≡ true) blanks
    → IsWord w
    → ends_normal d ≡ true
    → parse_token (b'\\' ∷ ch ∷ (blanks ++ (w ++ d ∷ rest))) ≡ token normal (ch ∷ w) (d ∷ rest)
parse_token-escape ch blanks w d rest h spaces is_word e =
    (parse_token_iff _ normal (ch ∷ w) (d ∷ rest)).1 (
      escape refl h (
        Lexeme-blanks (ch ∷ []) blanks (w ++ d ∷ rest) (ch ∷ w) (d ∷ rest) normal spaces
          (Lexeme-word (ch ∷ []) w d rest is_word e)))

-- In front of ";" or a bracket, and white space, the escaped byte is lost.
parse_token-escape_mark :
    (ch : ℕ) (blanks : Bytes) (d : ℕ) (rest : Bytes) (t : TokenType)
    → is_special ch ≡ true
    → All (λ c. is_space c ≡ true) blanks
    → Mark d t
    → parse_token (b'\\' ∷ ch ∷ (blanks ++ d ∷ rest)) ≡ token t (d ∷ []) rest
parse_token-escape_mark ch blanks d rest t h spaces m =
    (parse_token_iff _ t (d ∷ []) rest).1
      (escape refl h (Lexeme-blanks (ch ∷ []) blanks (d ∷ rest) (d ∷ []) rest t spaces (mark m)))
