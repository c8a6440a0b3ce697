-- ===== src/Lexer/Follows.antt =====
-- `ParseToken` of src/config_parser.cc follows the grammar of its tokens.
use https_server.Prelude.{
  ℕ, ◌≡◌, refl, ◌∙◌, Bool, true, false, [], ◌∷◌, ◌++◌, ◌||◌, append_assoc, append-nil, Option, none,
  some, ◌==◌, arith, Bytes,
}
use https_server.Lexer.Insides.{
  is_double, is_single, normal-IsInside, double-IsInside, single-IsInside, scan-Reads, Reads-stops,
}
use https_server.Lexer.Steps.{peek, scan_at}
use https_server.Lexer.{
  TokenType, TokenParserState, normal, comment, error, initial_whitespace, single_quote,
  double_quote, token_type_comment, token_type_normal, continue, continue_past, return, return_past,
  leave, is_special, ends_quoted, ends_normal, round, token, at_end, scan,
}
use https_server.Lexer.Grammar.{
  Mark, opens, closes, ends, Remark, line_end, inside, Closing, good, bad, cut, unclosed, WordEnd,
  stop, IsFirst, last_quote, Lexeme, nothing, blank, mark, remark, double, single, word, escape,
  backslash, last_backslash,
}
use https_server.Lexer.Words.{round-space, round-end}

-- The rounds in front of a token.
round-mark :
    (p : Bytes) (c : ℕ) (next : Option ℕ) (t : TokenType)
    → Mark c t
    → round initial_whitespace p c next ≡ return t (c ∷ [])
unfolding round
round-mark p c next _ (opens e) = ground arith
round-mark p c next _ (closes e) = ground arith
round-mark p c next _ (ends e) = ground arith

round-hash :
    (p : Bytes) (c : ℕ) (next : Option ℕ)
    → c ≡ b'#'
    → round initial_whitespace p c next ≡ continue token_type_comment (c ∷ [])
unfolding round
round-hash p c next h = ground arith

round-double :
    (p : Bytes) (c : ℕ) (next : Option ℕ)
    → c ≡ b'"'
    → round initial_whitespace p c next ≡ continue double_quote p
unfolding round
round-double p c next h = ground arith

round-single :
    (p : Bytes) (c : ℕ) (next : Option ℕ)
    → c ≡ b'\''
    → round initial_whitespace p c next ≡ continue single_quote (c ∷ [])
unfolding round
round-single p c next h = ground arith

round-first :
    (p : Bytes) (c : ℕ) (next : Option ℕ)
    → IsFirst c
    → round initial_whitespace p c next ≡ continue token_type_normal (p ++ c ∷ [])
unfolding round
round-first p c next h = ground arith

round-escape :
    (p : Bytes) (c ch : ℕ)
    → c ≡ b'\\'
    → is_special ch ≡ true
    → round initial_whitespace p c (some ch) ≡ continue_past initial_whitespace (p ++ ch ∷ [])
unfolding round
round-escape p c ch e h = ground arith

round-backslash :
    (p : Bytes) (c ch : ℕ)
    → c ≡ b'\\'
    → is_special ch ≡ false
    → round initial_whitespace p c (some ch) ≡ continue initial_whitespace (p ++ c ∷ [])
unfolding round
round-backslash p c ch e h = ground arith

round-last : (p : Bytes) (c : ℕ) → c ≡ b'\\' → round initial_whitespace p c none ≡ leave p
unfolding round
round-last p c h = ground arith

round-line_end :
    (value : Bytes) (c : ℕ) (next : Option ℕ)
    → (c == b'\n' || c == b'\r') ≡ true
    → round token_type_comment value c next ≡ return comment value
unfolding round
round-line_end value c next h = ground arith

round-inside :
    (value : Bytes) (c : ℕ) (next : Option ℕ)
    → (c == b'\n' || c == b'\r') ≡ false
    → round token_type_comment value c next ≡ continue token_type_comment (value ++ c ∷ [])
unfolding round
round-inside value c next h = ground arith

scan_end :
    (state : TokenParserState) (value : Bytes) → scan state value [] ≡ token (at_end state) value []
unfolding scan
scan_end state value = refl

scan-Remark :
    {input v rest : Bytes} {t : TokenType} (value : Bytes)
    → Remark input v t rest
    → scan token_type_comment value input ≡ token t (value ++ v) rest
scan-Remark value (line_end {c} {rest} h) =
    scan_at token_type_comment value c rest (round-line_end value c (peek rest) h)
    ∙ rw append-nil refl
scan-Remark value (inside {c} {input} h r) =
    scan_at token_type_comment value c input (round-inside value c (peek input) h)
    ∙ scan-Remark (value ++ c ∷ []) r
    ∙ rw append_assoc refl
scan-Remark value Remark.file_end =
    unfold at_end in scan_end token_type_comment value ∙ rw append-nil refl

scan-WordEnd :
    {rest : Bytes} {t : TokenType} (value : Bytes)
    → WordEnd rest t
    → ((c : ℕ) (tail : Bytes) → rest ≡ c ∷ tail → ends_normal c ≡ true)
    → scan token_type_normal value rest ≡ token t value rest
scan-WordEnd value (stop {c} {rest}) stops =
    scan_at token_type_normal value c rest (round-end value c (peek rest) (stops c rest refl))
scan-WordEnd value WordEnd.file_end stops = unfold at_end in scan_end token_type_normal value

-- What a state makes of a closing quote: it keeps it in the value or not.
record IsQuoted (state : TokenParserState) (stops : ℕ → Bool) (keep : Bytes → Bytes) : Type 0 where
  on_good :
      (value : Bytes) (q d : ℕ)
      → stops q ≡ true
      → ends_quoted d ≡ true
      → round state value q (some d) ≡ return normal (value ++ keep (q ∷ []))
  on_bad :
      (value : Bytes) (q d : ℕ)
      → stops q ≡ true
      → ends_quoted d ≡ false
      → round state value q (some d) ≡ return_past error (value ++ keep (q ∷ []))
  on_cut :
      (value : Bytes) (q : ℕ)
      → stops q ≡ true
      → round state value q none ≡ leave (value ++ keep (q ∷ []))

double-IsQuoted : IsQuoted double_quote is_double (λ q. [])
unfolding round
double-IsQuoted = record {
  on_good = λ value q d h k. rw append-nil (ground arith);
  on_bad = λ value q d h k. rw append-nil (ground arith);
  on_cut = λ value q h. rw append-nil (ground arith);
}

single-IsQuoted : IsQuoted single_quote is_single (λ q. q)
unfolding round
single-IsQuoted = record {
  on_good = λ value q d h k. ground arith;
  on_bad = λ value q d h k. ground arith;
  on_cut = λ value q h. ground arith;
}

module _ (state : TokenParserState) (stops : ℕ → Bool) (keep : Bytes → Bytes)
    (quoted : IsQuoted state stops keep) (unfinished : at_end state ≡ error)
    (keep_none : keep [] ≡ []) where
  scan-Closing :
      {tail rest : Bytes} {t : TokenType} (value : Bytes)
      → Closing tail t rest
      → ((c : ℕ) (rest : Bytes) → tail ≡ c ∷ rest → stops c ≡ true)
      → scan state value tail ≡ token t (value ++ keep (last_quote tail)) rest
  scan-Closing value (good {q} {d} {rest} h) ends_it =
      scan_at state value q (d ∷ rest) (quoted.on_good value q d (ends_it q (d ∷ rest) refl) h)
  scan-Closing value (bad {q} {d} {rest} h) ends_it =
      scan_at state value q (d ∷ rest) (quoted.on_bad value q d (ends_it q (d ∷ rest) refl) h)
  scan-Closing value (cut {q}) ends_it =
      scan_at state value q [] (quoted.on_cut value q (ends_it q [] refl)) ∙ rw unfinished refl
  scan-Closing value unclosed ends_it =
      scan_end state value ∙ rw (unfinished, keep_none, append-nil) refl

double_error : at_end double_quote ≡ error
unfolding at_end
double_error = refl

single_error : at_end single_quote ≡ error
unfolding at_end
single_error = refl

-- A token of the grammar is what the loop finds.
pub scan-Lexeme :
    {p input v rest : Bytes} {t : TokenType}
    → Lexeme p input t v rest
    → scan initial_whitespace p input ≡ token t v rest
scan-Lexeme {p} nothing = unfold at_end in scan_end initial_whitespace p
scan-Lexeme {p} (blank {c = c} {input = input} h l) =
    scan_at initial_whitespace p c input (round-space p c (peek input) h) ∙ scan-Lexeme l
scan-Lexeme {p} (mark {c = c} {rest = rest} {t = t} m) =
    scan_at initial_whitespace p c rest (round-mark p c (peek rest) t m)
scan-Lexeme {p} (remark {c = c} {input = input} e r) =
    scan_at initial_whitespace p c input (round-hash p c (peek input) e) ∙ scan-Remark (c ∷ []) r
scan-Lexeme {p} (double {c = c} {input = input} {v = v} {tail = tail} e r k) =
    scan_at initial_whitespace p c input (round-double p c (peek input) e)
    ∙ scan-Reads double_quote is_double is_double double-IsInside p r
    ∙ scan-Closing double_quote is_double (λ q. []) double-IsQuoted double_error refl (p ++ v) k
        (λ d rest same. Reads-stops d rest tail r same)
    ∙ rw append-nil refl
scan-Lexeme {p} (single {c = c} {input = input} {v = v} {tail = tail} e r k) =
    scan_at initial_whitespace p c input (round-single p c (peek input) e)
    ∙ scan-Reads single_quote is_single is_single single-IsInside (c ∷ []) r
    ∙ scan-Closing single_quote is_single (λ q. q) single-IsQuoted single_error refl (c ∷ v) k
        (λ d rest same. Reads-stops d rest tail r same)
scan-Lexeme {p} (word {c = c} {input = input} {v = v} {rest = rest} f r k) =
    scan_at initial_whitespace p c input (round-first p c (peek input) f)
    ∙ scan-Reads token_type_normal ends_normal is_special normal-IsInside (p ++ c ∷ []) r
    ∙ rw append_assoc refl
    ∙ scan-WordEnd (p ++ c ∷ v) k (λ d tail same. Reads-stops d tail rest r same)
scan-Lexeme {p} (escape {c = c} {ch = ch} {input = input} e h l) =
    scan_at initial_whitespace p c (ch ∷ input) (round-escape p c ch e h) ∙ scan-Lexeme l
scan-Lexeme {p} (backslash {c = c} {ch = ch} {input = input} e h l) =
    scan_at initial_whitespace p c (ch ∷ input) (round-backslash p c ch e h) ∙ scan-Lexeme l
scan-Lexeme {p} (last_backslash {c = c} e) =
    unfold at_end in scan_at initial_whitespace p c [] (round-last p c e)
