-- ===== src/Lexer/Quotes.antt =====
-- `ParseToken` on a text between double quotes.
use https_server.Prelude.{
  if◌then◌else◌, ℕ, ◌≡◌, ◌≢◌, refl, ◌∙◌, true, [], ◌∷◌, ◌++◌, append_assoc, append-nil, Option,
  some, ◌==◌, arith, Bytes, Bool-cases, inl, inr,
}
use https_server.Lexer.{
  normal, initial_whitespace, return, token, parse_token, double_quote, continue, continue_past,
  ends_quoted, round, scan,
}
use https_server.Lexer.Steps.{peek, scan_at}

-- A text with a backslash before each double quote.
abbrev escape_byte : ℕ → Bytes
escape_byte c = if c == b'"' then b'\\' ∷ c ∷ [] else c ∷ []

unfoldable pub escape : Bytes → Bytes
escape [] = []
escape (c ∷ s) = escape_byte c ++ escape s

abbrev pub quote : Bytes → Bytes
quote s = b'"' ∷ (escape s ++ b'"' ∷ [])

-- The last byte is no backslash.
abbrev pub IsQuotable : Bytes → Type 0
IsQuotable [] = Unit
IsQuotable (c ∷ []) = c ≢ b'\\'
IsQuotable (c ∷ d ∷ s) = IsQuotable (d ∷ s)

-- The next byte is there, and is no double quote.
abbrev Follows : Bytes → Type 0
Follows tail = (ch : ℕ) × (peek tail ≡ some ch) × (ch ≢ b'"')

Follows-escape : (c : ℕ) (s tail : Bytes) → Follows (escape (c ∷ s) ++ tail)
unfolding escape
Follows-escape c s tail = elim (Bool-cases (c == b'"')) [
  | inl e ↦ (b'\\', rw e, omega arith)
  | inr e ↦ (c, rw e, ground arith)
]

round-quote :
    (value : Bytes) (c : ℕ)
    → c ≡ b'"'
    → round double_quote value b'\\' (some c) ≡ continue_past double_quote (value ++ c ∷ [])
unfolding round
round-quote value c h = ground arith

round-backslash :
    (value : Bytes) (c : ℕ) (next : Option ℕ) (ch : ℕ)
    → next ≡ some ch
    → c ≡ b'\\'
    → ch ≢ b'"'
    → round double_quote value c next ≡ continue double_quote (value ++ c ∷ [])
unfolding round
round-backslash value c next ch e h k = ground arith

round-other :
    (value : Bytes) (c : ℕ) (next : Option ℕ)
    → c ≢ b'\\'
    → c ≢ b'"'
    → round double_quote value c next ≡ continue double_quote (value ++ c ∷ [])
unfolding round
round-other value c next h k = ground arith

round-close :
    (value : Bytes) (d : ℕ)
    → ends_quoted d ≡ true
    → round double_quote value b'"' (some d) ≡ return normal value
unfolding round
round-close value d h = rw h

scan-escape_byte :
    (c : ℕ) (value tail : Bytes)
    → (c ≡ b'\\' → Follows tail)
    → scan double_quote value (escape_byte c ++ tail) ≡ scan double_quote (value ++ c ∷ []) tail
scan-escape_byte c value tail h = elim (Bool-cases (c == b'"')) [
  | inl e ↦ rw e (scan_at double_quote value b'\\' (c ∷ tail) (round-quote value c (ground arith)))
  | inr e ↦ rw e (elim (Bool-cases (c == b'\\')) [
    | inl b ↦
        let (ch, next, ne) = h (ground arith) in
        scan_at double_quote value c tail
          (round-backslash value c (peek tail) ch next (ground arith) ne)
    | inr b ↦
        scan_at double_quote value c tail
          (round-other value c (peek tail) (ground arith) (ground arith))
  ])
]

scan-escape :
    (s value : Bytes) (d : ℕ) (rest : Bytes)
    → IsQuotable s
    → ends_quoted d ≡ true
    → scan double_quote value (escape s ++ b'"' ∷ d ∷ rest) ≡ token normal (value ++ s) (d ∷ rest)
unfolding escape
scan-escape [] value d rest h e =
    scan_at double_quote value b'"' (d ∷ rest) (round-close value d e) ∙ rw append-nil
scan-escape (c ∷ []) value d rest h e = rw append-nil (
    scan-escape_byte c value (b'"' ∷ d ∷ rest) (λ b. absurd (h b))
    ∙ scan-escape [] (value ++ c ∷ []) d rest tt e
    ∙ rw append-nil)
scan-escape (c ∷ x ∷ s) value d rest h e = rw append_assoc (
    scan-escape_byte c value (escape (x ∷ s) ++ b'"' ∷ d ∷ rest)
      (λ _. Follows-escape x s (b'"' ∷ d ∷ rest))
    ∙ scan-escape (x ∷ s) (value ++ c ∷ []) d rest h e
    ∙ rw append_assoc)

-- A text between double quotes, with a backslash before each double quote in it, is one token with
-- that text as its value, whatever bytes it holds, if its last is no backslash and the closing
-- quote stands before white space, `;` or `{`.
pub parse_token-quote :
    (s : Bytes) (d : ℕ) (rest : Bytes)
    → IsQuotable s
    → ends_quoted d ≡ true
    → parse_token (quote s ++ d ∷ rest) ≡ token normal s (d ∷ rest)
unfolding parse_token round
parse_token-quote s d rest h e =
    scan_at initial_whitespace [] b'"' ((escape s ++ b'"' ∷ []) ++ d ∷ rest) refl
    ∙ rw append_assoc (scan-escape s [] d rest h e)
