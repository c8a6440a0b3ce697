-- ===== src/Lexer/Grammar.antt =====
-- The tokens of src/config_parser.cc by a grammar.
use https_server.Prelude.{ℕ, ◌≡◌, ◌≢◌, true, false, [], ◌∷◌, ◌++◌, ◌||◌, ◌==◌, Bytes}
use https_server.Lexer.Insides.{Reads, is_double, is_single}
use https_server.Lexer.{
  TokenType, normal, start_block, end_block, statement_end, comment, eof, error, is_space,
  is_special, ends_quoted, ends_normal,
}

-- A byte that is a token by itself.
pub data Mark : ℕ → TokenType → Type 0 where
  opens : {c : ℕ} → c ≡ b'{' → Mark c start_block
  closes : {c : ℕ} → c ≡ b'}' → Mark c end_block
  ends : {c : ℕ} → c ≡ b';' → Mark c statement_end

-- A comment behind its "#", up to the end of its line, or to the end of the file, which is no
-- token.
pub data Remark : Bytes → Bytes → TokenType → Bytes → Type 0 where
  line_end :
      {c : ℕ} {rest : Bytes} → (c == b'\n' || c == b'\r') ≡ true → Remark (c ∷ rest) [] comment rest
  inside :
      {c : ℕ} {input v rest : Bytes} {t : TokenType}
      → (c == b'\n' || c == b'\r') ≡ false
      → Remark input v t rest
      → Remark (c ∷ input) (c ∷ v) t rest
  file_end : Remark [] [] eof []

-- The end of a quoted text, from its closing quote on: what must follow, and is left; anything
-- else, which is taken; or the end of the file in front of it.
pub data Closing : Bytes → TokenType → Bytes → Type 0 where
  good : {q d : ℕ} {rest : Bytes} → ends_quoted d ≡ true → Closing (q ∷ d ∷ rest) normal (d ∷ rest)
  bad : {q d : ℕ} {rest : Bytes} → ends_quoted d ≡ false → Closing (q ∷ d ∷ rest) error rest
  cut : {q : ℕ} → Closing (q ∷ []) error []
  unclosed : Closing [] error []

-- The end of a word: the byte that stops it, or the end of the file, which is no token.
pub data WordEnd : Bytes → TokenType → Type 0 where
  stop : {c : ℕ} {rest : Bytes} → WordEnd (c ∷ rest) normal
  file_end : WordEnd [] eof

-- A byte that begins a word, and is no backslash.
abbrev pub IsFirst : ℕ → Type 0
IsFirst c = (ends_normal c ≡ false) × (c ≢ b'\\') × (c ≢ b'#') × (c ≢ b'"') × (c ≢ b'\'')

-- The closing quote, which a text between single quotes keeps.
abbrev pub last_quote : Bytes → Bytes
last_quote [] = []
last_quote (q ∷ rest) = q ∷ []

-- A token of this type and value at the front of an input, and what is left behind it. The first
-- argument is what backslashes and the bytes that they escape have given in front of the token: a
-- word and a text between double quotes begin with it, and it is lost otherwise.
pub data Lexeme : Bytes → Bytes → TokenType → Bytes → Bytes → Type 0 where
  nothing : {p : Bytes} → Lexeme p [] eof p []
  blank :
      {p : Bytes} {c : ℕ} {input v rest : Bytes} {t : TokenType}
      → is_space c ≡ true
      → Lexeme p input t v rest
      → Lexeme p (c ∷ input) t v rest
  mark :
      {p : Bytes} {c : ℕ} {rest : Bytes} {t : TokenType}
      → Mark c t
      → Lexeme p (c ∷ rest) t (c ∷ []) rest
  remark :
      {p : Bytes} {c : ℕ} {input v rest : Bytes} {t : TokenType}
      → c ≡ b'#'
      → Remark input v t rest
      → Lexeme p (c ∷ input) t (c ∷ v) rest
  double :
      {p : Bytes} {c : ℕ} {input v tail rest : Bytes} {t : TokenType}
      → c ≡ b'"'
      → Reads is_double is_double input v tail
      → Closing tail t rest
      → Lexeme p (c ∷ input) t (p ++ v) rest
  single :
      {p : Bytes} {c : ℕ} {input v tail rest : Bytes} {t : TokenType}
      → c ≡ b'\''
      → Reads is_single is_single input v tail
      → Closing tail t rest
      → Lexeme p (c ∷ input) t ((c ∷ v) ++ last_quote tail) rest
  word :
      {p : Bytes} {c : ℕ} {input v rest : Bytes} {t : TokenType}
      → IsFirst c
      → Reads ends_normal is_special input v rest
      → WordEnd rest t
      → Lexeme p (c ∷ input) t (p ++ c ∷ v) rest
  escape :
      {p : Bytes} {c ch : ℕ} {input v rest : Bytes} {t : TokenType}
      → c ≡ b'\\'
      → is_special ch ≡ true
      → Lexeme (p ++ ch ∷ []) input t v rest
      → Lexeme p (c ∷ ch ∷ input) t v rest
  backslash :
      {p : Bytes} {c ch : ℕ} {input v rest : Bytes} {t : TokenType}
      → c ≡ b'\\'
      → is_special ch ≡ false
      → Lexeme (p ++ c ∷ []) (ch ∷ input) t v rest
      → Lexeme p (c ∷ ch ∷ input) t v rest
  last_backslash : {p : Bytes} {c : ℕ} → c ≡ b'\\' → Lexeme p (c ∷ []) eof p []
