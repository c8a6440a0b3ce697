-- ===== src/Lexer/Words.antt =====
-- `ParseToken` on white space, on punctuation and on words that need no quotes.
use https_server.Prelude.{
  ℕ, ◌≡◌, ◌≢◌, refl, ◌∙◌, true, false, [], ◌∷◌, ◌++◌, append_assoc, append-nil, Option, arith, All,
  Bytes,
}
use https_server.Lexer.{
  return_unget, normal, start_block, end_block, statement_end, initial_whitespace,
  token_type_normal, continue, is_space, ends_normal, round, token, at_end, eof, scan, parse_token,
}
use https_server.Lexer.Steps.{peek, scan_at}

-- A byte that a token outside quotes holds as it is.
abbrev pub IsPlain : ℕ → Type 0
IsPlain c = (ends_normal c ≡ false) × (c ≢ b'\\')

-- A word that `ParseToken` reads as it is written.
abbrev pub IsWord : Bytes → Type 0
IsWord [] = ⊥
IsWord (c ∷ w) = IsPlain c × ((c ≢ b'#') × (c ≢ b'"') × (c ≢ b'\'')) × All IsPlain w

round-plain :
    (value : Bytes) (c : ℕ) (next : Option ℕ)
    → IsPlain c
    → round token_type_normal value c next ≡ continue token_type_normal (value ++ c ∷ [])
unfolding round
round-plain value c next h = ground arith

pub round-end :
    (value : Bytes) (c : ℕ) (next : Option ℕ)
    → ends_normal c ≡ true
    → round token_type_normal value c next ≡ return_unget normal value
unfolding round
round-end value c next h = rw h

round-first :
    (c : ℕ) (next : Option ℕ)
    → IsPlain c
    → (c ≢ b'#') × (c ≢ b'"') × (c ≢ b'\'')
    → round initial_whitespace [] c next ≡ continue token_type_normal (c ∷ [])
unfolding round
round-first c next h k = ground arith

pub round-space :
    (value : Bytes) (c : ℕ) (next : Option ℕ)
    → is_space c ≡ true
    → round initial_whitespace value c next ≡ continue initial_whitespace value
unfolding round
round-space value c next h = ground arith

scan-plain :
    (w value : Bytes) (d : ℕ) (rest : Bytes)
    → All IsPlain w
    → ends_normal d ≡ true
    → scan token_type_normal value (w ++ d ∷ rest) ≡ token normal (value ++ w) (d ∷ rest)
scan-plain [] value d rest h e =
    scan_at token_type_normal value d rest (round-end value d (peek rest) e) ∙ rw append-nil
scan-plain (c ∷ w) value d rest h e =
    scan_at token_type_normal value c (w ++ d ∷ rest)
      (round-plain value c (peek (w ++ d ∷ rest)) h.0)
    ∙ scan-plain w (value ++ c ∷ []) d rest h.1 e
    ∙ rw append_assoc

-- A word in front of white space, `;`, `{` or `}` is a token as it stands.
pub parse_token-IsWord :
    (w : Bytes) (d : ℕ) (rest : Bytes)
    → IsWord w
    → ends_normal d ≡ true
    → parse_token (w ++ d ∷ rest) ≡ token normal w (d ∷ rest)
unfolding parse_token
parse_token-IsWord [] d rest h e = absurd h
parse_token-IsWord (c ∷ w) d rest h e =
    scan_at initial_whitespace [] c (w ++ d ∷ rest) (round-first c (peek (w ++ d ∷ rest)) h.0 h.1)
    ∙ scan-plain w (c ∷ []) d rest h.2 e

pub parse_token-space :
    (c : ℕ) (rest : Bytes) → is_space c ≡ true → parse_token (c ∷ rest) ≡ parse_token rest
unfolding parse_token
parse_token-space c rest h = scan_at initial_whitespace [] c rest (round-space [] c (peek rest) h)

pub parse_token-semi :
    (rest : Bytes) → parse_token (b';' ∷ rest) ≡ token statement_end (b';' ∷ []) rest
unfolding parse_token round
parse_token-semi rest = scan_at initial_whitespace [] b';' rest refl

pub parse_token-open :
    (rest : Bytes) → parse_token (b'{' ∷ rest) ≡ token start_block (b'{' ∷ []) rest
unfolding parse_token round
parse_token-open rest = scan_at initial_whitespace [] b'{' rest refl

pub parse_token-close :
    (rest : Bytes) → parse_token (b'}' ∷ rest) ≡ token end_block (b'}' ∷ []) rest
unfolding parse_token round
parse_token-close rest = scan_at initial_whitespace [] b'}' rest refl

scan_end :
    (w value : Bytes) → All IsPlain w → scan token_type_normal value w ≡ token eof (value ++ w) []
unfolding scan at_end
scan_end [] value h = rw append-nil
scan_end (c ∷ w) value h =
    scan_at token_type_normal value c w (round-plain value c (peek w) h.0)
    ∙ scan_end w (value ++ c ∷ []) h.1
    ∙ rw append_assoc

-- A word at the end of the stream is no token: `ParseToken` reports the end of the file.
pub parse_token_end : (w : Bytes) → IsWord w → parse_token w ≡ token eof w []
unfolding parse_token
parse_token_end [] h = absurd h
parse_token_end (c ∷ w) h =
    scan_at initial_whitespace [] c w (round-first c (peek w) h.0 h.1) ∙ scan_end w (c ∷ []) h.2
