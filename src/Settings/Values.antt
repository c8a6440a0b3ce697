-- ===== src/Settings/Values.antt =====
-- A value behind a word in the text of a line, as `GetPortNumber` and `GetKeyPath` of
-- src/config_parser.cc cut it out.
use https_server.Prelude.{
  ℕ, ◌+◌, ◌≡◌, refl, ap, sym, ◌∙◌, Bool, true, false, not, [], ◌∷◌, ◌++◌, append_assoc, append-nil,
  some, ltb, Bytes, codes, length, length-append, take-append, drop-append, All, arith,
}
use https_server.Config.{line, statement_to_string}
use https_server.StdString.{
  npos, find_at, find_first_of, find_first_not_of, index_at, contains, substr,
}
use https_server.StdString.Holds.{starts_with-append}

-- The first byte that passes a test, behind a run of bytes that do not.
pub index_at-run :
    (i : ℕ) (test : ℕ → Bool) (run : Bytes) (c : ℕ) (rest : Bytes)
    → All (λ b. test b ≡ false) run
    → test c ≡ true
    → index_at i test (run ++ c ∷ rest) ≡ i + length run
unfolding index_at
index_at-run i test [] c rest h e = rw e (omega arith)
index_at-run i test (b ∷ run) c rest h e =
    rw h.0 (index_at-run (i + 1) test run c rest h.1 e ∙ omega arith)

pub index_at_none :
    (i : ℕ) (test : ℕ → Bool) (run : Bytes)
    → All (λ b. test b ≡ false) run
    → index_at i test run ≡ npos
unfolding index_at
index_at_none i test [] h = refl
index_at_none i test (b ∷ run) h = rw h.0 (index_at_none (i + 1) test run h.1)

pub find_at-append : (i x : ℕ) (needle s : Bytes) → find_at i (x ∷ needle) ((x ∷ needle) ++ s) ≡ i
unfolding find_at
find_at-append i x needle s = rw (starts_with-append (x ∷ needle) s) refl

pub line_text :
    (word : Bytes) (c : ℕ) (d : Bytes)
    → statement_to_string 0 (line (word ∷ (c ∷ d) ∷ []))
      ≡ (word ++ b' ' ∷ []) ++ ((c ∷ d) ++ b';' ∷ b'\n' ∷ [])
unfolding statement_to_string
line_text word c d = simp (append_assoc, append-nil)

-- The value stands at position `length head`, and a ";" ends it.
module _ (head : Bytes) (c : ℕ) (d rest : Bytes)
    (plain : All (λ b. contains (codes " \t;") b ≡ false) (c ∷ d)) where
  pub text_end :
      find_first_of (head ++ ((c ∷ d) ++ b';' ∷ rest)) (codes " \t;") (length head)
      ≡ length head + length (c ∷ d)
  text_end =
      ap (index_at (length head) (contains (codes " \t;"))) (drop-append head _)
      ∙ index_at-run (length head) (contains (codes " \t;")) (c ∷ d) b';' rest plain refl

  pub text_value :
      substr (head ++ ((c ∷ d) ++ b';' ∷ rest)) (length head) (length (c ∷ d)) ≡ some (c ∷ d)
  text_value =
      let short : ltb (length (head ++ ((c ∷ d) ++ b';' ∷ rest))) (length head) ≡ false =
        ground (arith, length-append head ((c ∷ d) ++ b';' ∷ rest)) in
      rw short (rw drop-append (ap some (take-append (c ∷ d) (b';' ∷ rest))))

-- Where the word ends one byte before the value, at a space.
pub value_start :
    (word : Bytes) (c : ℕ) (rest : Bytes)
    → contains (codes " \t\n\r") c ≡ false
    → find_first_not_of ((word ++ b' ' ∷ []) ++ c ∷ rest) (codes " \t\n\r") (length word)
      ≡ length (word ++ b' ' ∷ [])
value_start word c rest h = rw append_assoc (
    rw drop-append (
      index_at-run (length word) (λ b. not (contains (codes " \t\n\r") b)) (b' ' ∷ []) c rest
        (refl, tt) (rw h refl)
      ∙ sym (length-append word (b' ' ∷ []))))
