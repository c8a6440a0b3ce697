-- ===== src/Lexer/Insides.antt =====
-- The bytes inside a token of src/config_parser.cc, between quotes or outside of them, up to the
-- one that ends it.
use https_server.Prelude.{
  ℕ, ◌≡◌, ◌≢◌, refl, sym, ◌∙◌, Bool, true, false, [], ◌∷◌, ◌++◌, append_assoc, append-nil, Option,
  none, some, ◌==◌, arith, Bytes, Bool-cases, inl, inr,
}
use https_server.Lexer.{
  TokenParserState, single_quote, double_quote, token_type_normal, continue, continue_past, leave,
  is_special, ends_normal, round, at_end, scan,
}
use https_server.Lexer.Steps.{peek, scan_at}

-- The bytes of an input up to one that stops the token, or to the end, and the value that they
-- stand for: a backslash is left out before a byte that it escapes, and at the very end.
pub data Reads (stops escapes : ℕ → Bool) : Bytes → Bytes → Bytes → Type 0 where
  stopped : {c : ℕ} {rest : Bytes} → stops c ≡ true → Reads stops escapes (c ∷ rest) [] (c ∷ rest)
  ran_out : Reads stops escapes [] [] []
  byte :
      {c : ℕ} {input v rest : Bytes}
      → stops c ≡ false
      → c ≢ b'\\'
      → Reads stops escapes input v rest
      → Reads stops escapes (c ∷ input) (c ∷ v) rest
  escape :
      {c ch : ℕ} {input v rest : Bytes}
      → c ≡ b'\\'
      → escapes ch ≡ true
      → Reads stops escapes input v rest
      → Reads stops escapes (c ∷ ch ∷ input) (ch ∷ v) rest
  backslash :
      {c ch : ℕ} {input v rest : Bytes}
      → c ≡ b'\\'
      → escapes ch ≡ false
      → Reads stops escapes (ch ∷ input) v rest
      → Reads stops escapes (c ∷ ch ∷ input) (c ∷ v) rest
  last_backslash : {c : ℕ} → c ≡ b'\\' → Reads stops escapes (c ∷ []) [] []

-- What a state makes of the bytes inside a token.
pub record IsInside (state : TokenParserState) (stops escapes : ℕ → Bool) : Type 0 where
  on_byte :
      (value : Bytes) (c : ℕ) (next : Option ℕ)
      → stops c ≡ false
      → c ≢ b'\\'
      → round state value c next ≡ continue state (value ++ c ∷ [])
  on_escape :
      (value : Bytes) (c ch : ℕ)
      → c ≡ b'\\'
      → escapes ch ≡ true
      → round state value c (some ch) ≡ continue_past state (value ++ ch ∷ [])
  on_backslash :
      (value : Bytes) (c ch : ℕ)
      → c ≡ b'\\'
      → escapes ch ≡ false
      → round state value c (some ch) ≡ continue state (value ++ c ∷ [])
  on_last : (value : Bytes) (c : ℕ) → c ≡ b'\\' → round state value c none ≡ leave value

abbrev pub is_double : ℕ → Bool
is_double c = c == b'"'

abbrev pub is_single : ℕ → Bool
is_single c = c == b'\''

pub normal-IsInside : IsInside token_type_normal ends_normal is_special
unfolding round
normal-IsInside = record {
  on_byte = λ value c next h k. ground arith;
  on_escape = λ value c ch h k. ground arith;
  on_backslash = λ value c ch h k. ground arith;
  on_last = λ value c h. ground arith;
}

pub double-IsInside : IsInside double_quote is_double is_double
unfolding round
double-IsInside = record {
  on_byte = λ value c next h k. ground arith;
  on_escape = λ value c ch h k. ground arith;
  on_backslash = λ value c ch h k. ground arith;
  on_last = λ value c h. ground arith;
}

pub single-IsInside : IsInside single_quote is_single is_single
unfolding round
single-IsInside = record {
  on_byte = λ value c next h k. ground arith;
  on_escape = λ value c ch h k. ground arith;
  on_backslash = λ value c ch h k. ground arith;
  on_last = λ value c h. ground arith;
}

module _ (state : TokenParserState) (stops escapes : ℕ → Bool)
    (inside : IsInside state stops escapes) where
  pub scan-Reads :
      {input v rest : Bytes} (value : Bytes)
      → Reads stops escapes input v rest
      → scan state value input ≡ scan state (value ++ v) rest
  unfolding scan at_end
  scan-Reads value (stopped h) = rw append-nil refl
  scan-Reads value ran_out = rw append-nil refl
  scan-Reads value (byte {c} {input} {v} h k r) =
      scan_at state value c input (inside.on_byte value c (peek input) h k)
      ∙ scan-Reads (value ++ c ∷ []) r
      ∙ rw append_assoc refl
  scan-Reads value (escape {c} {ch} {input} e h r) =
      scan_at state value c (ch ∷ input) (inside.on_escape value c ch e h)
      ∙ scan-Reads (value ++ ch ∷ []) r
      ∙ rw append_assoc refl
  scan-Reads value (backslash {c} {ch} {input} e h r) =
      scan_at state value c (ch ∷ input) (inside.on_backslash value c ch e h)
      ∙ scan-Reads (value ++ c ∷ []) r
      ∙ rw append_assoc refl
  scan-Reads value (last_backslash {c} e) =
      scan_at state value c [] (inside.on_last value c e) ∙ rw append-nil refl

-- Every input is read so far as it goes.
pub reads :
    (stops escapes : ℕ → Bool) (input : Bytes)
    → (v : Bytes) × (rest : Bytes) × Reads stops escapes input v rest
reads stops escapes [] = ([], [], ran_out)
reads stops escapes (c ∷ []) = elim (Bool-cases (stops c)) [
  | inl e ↦ ([], c ∷ [], stopped e)
  | inr e ↦ elim (Bool-cases (c == b'\\')) [
    | inl b ↦ ([], [], last_backslash (ground arith))
    | inr b ↦ (c ∷ [], [], byte e (ground arith) ran_out)
  ]
]
reads stops escapes (c ∷ ch ∷ rest) =
    let (v, r, next) = reads stops escapes (ch ∷ rest) in
    let (v', r', past) = reads stops escapes rest in
    elim (Bool-cases (stops c)) [
      | inl e ↦ ([], c ∷ ch ∷ rest, stopped e)
      | inr e ↦ elim (Bool-cases (c == b'\\')) [
        | inr b ↦ (c ∷ v, r, byte e (ground arith) next)
        | inl b ↦ elim (Bool-cases (escapes ch)) [
          | inl f ↦ (ch ∷ v', r', escape (ground arith) f past)
          | inr f ↦ (c ∷ v, r, backslash (ground arith) f next)
        ]
      ]
    ]

-- What is left begins with a byte that stops the token.
pub Reads-stops :
    {stops escapes : ℕ → Bool} {input v : Bytes} (c : ℕ) (rest tail : Bytes)
    → Reads stops escapes input v tail
    → tail ≡ c ∷ rest
    → stops c ≡ true
Reads-stops {stops} c rest _ (stopped {c = d} h) same = let heads : d ≡ c = cc in rw (sym heads) h
Reads-stops c rest _ ran_out same = absurd (cc)
Reads-stops c rest tail (byte h k r) same = Reads-stops c rest tail r same
Reads-stops c rest tail (escape e h r) same = Reads-stops c rest tail r same
Reads-stops c rest tail (backslash e h r) same = Reads-stops c rest tail r same
Reads-stops c rest _ (last_backslash e) same = absurd (cc)
