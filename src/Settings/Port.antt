-- ===== src/Settings/Port.antt =====
-- `GetPortNumber` on a line `listen <digits>;`.
use https_server.Prelude.{
  ℕ, ◌+◌, ◌-◌, ◌^◌, ◌≡◌, refl, ap, ◌∙◌, true, false, not, [], ◌∷◌, ◌++◌, append_assoc, none, some,
  ltb, ◌==◌, if◌then◌else◌, Bytes, codes, length, All, All-map, arith,
}
use native.Mathlib.Nat.{zero-add}
use https_server.Config.{Statement, line, Config, nil, cons, statement_to_string}
use https_server.StdString.{npos, find, find_first_not_of, contains}
use https_server.Settings.Values.{
  index_at_none, text_end, text_value, value_start, find_at-append, line_text,
}
use https_server.Settings.{
  PortResult, found, not_found, threw, is_digit, decimal, stoi, checked_port, port_of, port_at,
  port_in, port_loop, keyword, get_port_number,
}

abbrev pub IsDigit : ℕ → Type 0
IsDigit c = is_digit c ≡ true

digit_is_listed : (c : ℕ) → IsDigit c → not (contains (codes "0123456789") c) ≡ false
digit_is_listed c h = ground arith

digit-no_blank : (c : ℕ) → IsDigit c → contains (codes " \t\n\r") c ≡ false
digit-no_blank c h = ground arith

digit-no_end : (c : ℕ) → IsDigit c → contains (codes " \t;") c ≡ false
digit-no_end c h = ground arith

port_of-digits : (d : Bytes) → All IsDigit d → port_of d ≡ checked_port (stoi d)
port_of-digits d h =
    rw
      (index_at_none 0 (λ c. not (contains (codes "0123456789") c)) d
        (All-map IsDigit _ d digit_is_listed h))
      refl

-- The digits stand at position `length head`, behind the word and a space.
module _ (head : Bytes) (c : ℕ) (d rest : Bytes) (digits : All IsDigit (c ∷ d)) where
  -- Where the keyword ends one byte before them, at a space, the port is those digits.
  port_at-digits :
      (pos : ℕ)
      → find_first_not_of (head ++ ((c ∷ d) ++ b';' ∷ rest)) (codes " \t\n\r") pos ≡ length head
      → port_at (head ++ ((c ∷ d) ++ b';' ∷ rest)) pos ≡ checked_port (stoi (c ∷ d))
  unfolding port_at
  port_at-digits pos e =
      let plain = All-map IsDigit _ (c ∷ d) digit-no_end digits in
      let apart : (length head + length (c ∷ d) == length head) ≡ false = ground arith in
      let count : length head + length (c ∷ d) - length head ≡ length (c ∷ d) = omega arith in
      rw (e, text_end head c d rest plain, apart, count, text_value head c d rest plain)
        (port_of-digits (c ∷ d) digits)

-- The text of a statement `<word> <digits>;` begins with the word and a space.
port_at-line :
    (word : Bytes) (c : ℕ) (d rest : Bytes)
    → All IsDigit (c ∷ d)
    → port_at ((word ++ b' ' ∷ []) ++ ((c ∷ d) ++ b';' ∷ rest)) (length word)
      ≡ checked_port (stoi (c ∷ d))
port_at-line word c d rest h =
    port_at-digits (word ++ b' ' ∷ []) c d rest h (length word)
      (value_start word c (d ++ b';' ∷ rest) (digit-no_blank c h.0))

-- `d` is the argument of the first statement whose text holds the keyword, and that statement is a
-- line of the keyword and `d`.
pub data Announces (word d : Bytes) : Config → Type 0 where
  here : {rest : Config} → Announces word d (cons (line (word ∷ d ∷ [])) rest)
  later :
      {s : Statement} {rest : Config}
      → find (statement_to_string 0 s) word ≡ npos
      → Announces word d rest
      → Announces word d (cons s rest)

port_in-line :
    (x : ℕ) (word : Bytes) (c : ℕ) (d : Bytes)
    → All IsDigit (c ∷ d)
    → port_in (x ∷ word) (statement_to_string 0 (line ((x ∷ word) ∷ (c ∷ d) ∷ [])))
      ≡ some (checked_port (stoi (c ∷ d)))
unfolding port_in
port_in-line x word c d h =
    let at_front : find (((x ∷ word) ++ b' ' ∷ []) ++ ((c ∷ d) ++ b';' ∷ b'\n' ∷ [])) (x ∷ word)
        ≡ 0 =
      rw append_assoc (find_at-append 0 x word _) in
    rw (line_text (x ∷ word) c d)
      (rw (at_front, zero-add) (ap some (port_at-line (x ∷ word) c d (b'\n' ∷ []) h)))

port_loop-Announces :
    (x : ℕ) (word : Bytes) (c : ℕ) (d : Bytes) {config : Config}
    → Announces (x ∷ word) (c ∷ d) config
    → All IsDigit (c ∷ d)
    → port_loop (x ∷ word) config ≡ checked_port (stoi (c ∷ d))
unfolding port_loop
port_loop-Announces x word c d here h = rw (port_in-line x word c d h, port_loop) refl
port_loop-Announces x word c d (later {s} {rest} e a) h =
    let skipped : port_in (x ∷ word) (statement_to_string 0 s) ≡ none =
      unfold port_in in rw e refl in
    rw (skipped, port_loop) (port_loop-Announces x word c d a h)

get_port_number-cons :
    (port_type word : Bytes) (s : Statement) (rest : Config)
    → keyword port_type ≡ some word
    → get_port_number (cons s rest) port_type ≡ port_loop word (cons s rest)
unfolding get_port_number
get_port_number-cons port_type word s rest k = rw (k, get_port_number) refl

-- What becomes of a run of digits.
abbrev pub port_of_value : ℕ → PortResult
port_of_value n = if ltb (2 ^ 31 - 1) n then threw else if ltb 65535 n then not_found else found n

checked_port-value :
    (n : ℕ) → checked_port (if ltb (2 ^ 31 - 1) n then none else some n) ≡ port_of_value n
checked_port-value n = ground arith

port_loop-value :
    (x : ℕ) (word : Bytes) (c : ℕ) (d : Bytes) {config : Config}
    → Announces (x ∷ word) (c ∷ d) config
    → All IsDigit (c ∷ d)
    → port_loop (x ∷ word) config ≡ port_of_value (decimal 0 (c ∷ d))
port_loop-value x word c d a h =
    port_loop-Announces x word c d a h ∙ checked_port-value (decimal 0 (c ∷ d))

-- `GetPortNumber` on a config whose first statement with the keyword is a line of the keyword and
-- digits: their value where it is at most 65535, `false` where it is larger, an exception where it
-- is too large for an int.
pub get_port_number-Announces :
    (port_type : Bytes) (x : ℕ) (word : Bytes) (c : ℕ) (d : Bytes) {config : Config}
    → keyword port_type ≡ some (x ∷ word)
    → Announces (x ∷ word) (c ∷ d) config
    → All IsDigit (c ∷ d)
    → get_port_number config port_type ≡ port_of_value (decimal 0 (c ∷ d))
get_port_number-Announces port_type x word c d k (here {rest}) h =
    get_port_number-cons port_type (x ∷ word) _ rest k ∙ port_loop-value x word c d here h
get_port_number-Announces port_type x word c d k (later {s} {rest} e a) h =
    get_port_number-cons port_type (x ∷ word) s rest k ∙ port_loop-value x word c d (later e a) h

-- No statement's text holds the word.
pub data NeverHolds (word : Bytes) : Config → Type 0 where
  at_end : NeverHolds word nil
  behind :
      {s : Statement} {rest : Config}
      → find (statement_to_string 0 s) word ≡ npos
      → NeverHolds word rest
      → NeverHolds word (cons s rest)

port_loop-NeverHolds :
    (word : Bytes) {config : Config} → NeverHolds word config → port_loop word config ≡ not_found
unfolding port_loop
port_loop-NeverHolds word at_end = refl
port_loop-NeverHolds word (behind {s} {rest} e n) =
    let skipped : port_in word (statement_to_string 0 s) ≡ none = unfold port_in in rw e refl in
    rw (skipped, port_loop) (port_loop-NeverHolds word n)

-- `GetPortNumber` finds no port where no statement's text holds the keyword.
pub get_port_number-NeverHolds :
    (port_type word : Bytes) (config : Config)
    → keyword port_type ≡ some word
    → NeverHolds word config
    → get_port_number config port_type ≡ not_found
unfolding get_port_number
get_port_number-NeverHolds port_type word _ k at_end = refl
get_port_number-NeverHolds port_type word _ k (behind {s} {rest} e n) =
    get_port_number-cons port_type word s rest k ∙ port_loop-NeverHolds word (behind e n)
