-- ===== src/Settings/Keys.antt =====
-- `GetKeyPath` of src/config_parser.cc on lines `private_key_root <path>;` and
-- `public_key_root <path>;`.
use https_server.Prelude.{
  ℕ, ◌+◌, ◌-◌, ◌≡◌, ◌≢◌, ◌↔◌, refl, ap, ◌∙◌, Bool, true, false, not, ◌||◌, [], ◌∷◌, ◌++◌,
  append_assoc, some, Bytes, codes, length, All, All-map, arith,
}
use native.Mathlib.Nat.{zero-add}
use https_server.Config.{Statement, line, Config, nil, cons, statement_to_string}
use https_server.Settings.Values.{text_end, text_value, value_start, find_at-append, line_text}
use https_server.Settings.{KeyPaths, path_in, key_in, key_loop, get_key_path, is_empty, ◌>>=◌}
use https_server.StdString.{npos, find, contains}

-- A path without white space and ";".
abbrev pub IsPlain : Bytes → Type 0
IsPlain path =
    (path ≢ [])
    × All (λ b. (contains (codes " \t;") b ≡ false) × (contains (codes " \t\n\r") b ≡ false)) path

abbrev private_word : Bytes
private_word = codes "private_key_root"

abbrev public_word : Bytes
public_word = codes "public_key_root"

path_in-text :
    (word : Bytes) (c : ℕ) (d rest old : Bytes)
    → IsPlain (c ∷ d)
    → find ((word ++ b' ' ∷ []) ++ ((c ∷ d) ++ b';' ∷ rest)) word ≡ 0
    → path_in word ((word ++ b' ' ∷ []) ++ ((c ∷ d) ++ b';' ∷ rest)) old ≡ some (c ∷ d)
path_in-text word c d rest old h e =
    let head = word ++ b' ' ∷ [] in
    let plain = All-map _ (λ b. contains (codes " \t;") b ≡ false) (c ∷ d) (λ b p. p.0) h.1 in
    let start = value_start word c (d ++ b';' ∷ rest) h.1.0.1 in
    let count : length head + length (c ∷ d) - length head ≡ length (c ∷ d) = omega arith in
    rw (e, zero-add, start, text_end head c d rest plain, count) (text_value head c d rest plain)

path_in-line :
    (x : ℕ) (word : Bytes) (c : ℕ) (d old : Bytes)
    → IsPlain (c ∷ d)
    → path_in (x ∷ word) (statement_to_string 0 (line ((x ∷ word) ∷ (c ∷ d) ∷ []))) old
      ≡ some (c ∷ d)
path_in-line x word c d old h =
    rw (line_text (x ∷ word) c d)
      (path_in-text (x ∷ word) c d (b'\n' ∷ []) old h (rw append_assoc (find_at-append 0 x word _)))

path_in-npos : (word text old : Bytes) → find text word ≡ npos → path_in word text old ≡ some old
path_in-npos word text old e = rw e refl

-- The paths that the lines of a config leave, from those that were there: a line of a key word sets
-- its path, and a statement whose text holds no key word sets none.
pub data Sets : KeyPaths → Config → KeyPaths → Type 0 where
  at_end : (p : KeyPaths) → Sets p nil p
  other :
      (p q : KeyPaths) (s : Statement) (rest : Config)
      → find (statement_to_string 0 s) private_word ≡ npos
      → find (statement_to_string 0 s) public_word ≡ npos
      → Sets p rest q
      → Sets p (cons s rest) q
  private_line :
      (p q : KeyPaths) (c : ℕ) (path : Bytes) (rest : Config)
      → IsPlain (c ∷ path)
      → find (statement_to_string 0 (line (private_word ∷ (c ∷ path) ∷ []))) public_word ≡ npos
      → Sets (record p { ssl_private_path = c ∷ path }) rest q
      → Sets p (cons (line (private_word ∷ (c ∷ path) ∷ [])) rest) q
  public_line :
      (p q : KeyPaths) (c : ℕ) (path : Bytes) (rest : Config)
      → IsPlain (c ∷ path)
      → find (statement_to_string 0 (line (public_word ∷ (c ∷ path) ∷ []))) private_word ≡ npos
      → Sets (record p { ssl_public_path = c ∷ path }) rest q
      → Sets p (cons (line (public_word ∷ (c ∷ path) ∷ [])) rest) q

key_loop-cons :
    (p : KeyPaths) (s : Statement) (rest : Config) (private public : Bytes) {q : KeyPaths}
    → path_in private_word (statement_to_string 0 s) p.ssl_private_path ≡ some private
    → path_in public_word (statement_to_string 0 s) p.ssl_public_path ≡ some public
    → key_loop (record { ssl_private_path = private; ssl_public_path = public }) rest ≡ some q
    → key_loop p (cons s rest) ≡ some q
unfolding key_loop
key_loop-cons p s rest private public e e' h =
    let both : key_in p (statement_to_string 0 s)
        ≡ some (record { ssl_private_path = private; ssl_public_path = public }) =
      ap
        (λ o. o >>= λ a. path_in public_word (statement_to_string 0 s) p.ssl_public_path >>= λ b.
          some (record { ssl_private_path = a; ssl_public_path = b }))
        e
      ∙ ap (λ o. o >>= λ b. some (record { ssl_private_path = private; ssl_public_path = b })) e' in
    ap (λ o. o >>= λ paths. key_loop paths rest) both ∙ h

key_loop-Sets : {p q : KeyPaths} {c : Config} → Sets p c q → key_loop p c ≡ some q
unfolding key_loop
key_loop-Sets (at_end p) = refl
key_loop-Sets (other p q s rest e e' h) =
    key_loop-cons p s rest p.ssl_private_path p.ssl_public_path
      (path_in-npos private_word (statement_to_string 0 s) p.ssl_private_path e)
      (path_in-npos public_word (statement_to_string 0 s) p.ssl_public_path e') (key_loop-Sets h)
key_loop-Sets (private_line p q c path rest plain e h) =
    key_loop-cons p _ rest (c ∷ path) p.ssl_public_path
      (path_in-line b'p' (codes "rivate_key_root") c path p.ssl_private_path plain)
      (path_in-npos public_word _ p.ssl_public_path e) (key_loop-Sets h)
key_loop-Sets (public_line p q c path rest plain e h) =
    key_loop-cons p _ rest p.ssl_private_path (c ∷ path)
      (path_in-npos private_word _ p.ssl_private_path e)
      (path_in-line b'p' (codes "ublic_key_root") c path p.ssl_public_path plain) (key_loop-Sets h)

is_empty-nil : (s : Bytes) → (is_empty s ≡ false) ↔ (s ≢ [])
is_empty-nil [] = ((λ h. cc), (λ ne. absurd (ne refl)))
is_empty-nil (c ∷ s) = ((λ h e. cc), (λ ne. refl))

both_set : (a b : Bytes) → (not (is_empty a || is_empty b) ≡ true) ↔ ((a ≢ []) × (b ≢ []))
both_set a b = (
  (λ h. (
    let e : is_empty a ≡ false = ground arith in (is_empty-nil a).0 e,
    let e : is_empty b ≡ false = ground arith in (is_empty-nil b).0 e,
  )),
  (λ ne. rw ((is_empty-nil a).1 ne.0, (is_empty-nil b).1 ne.1) refl),
)

-- `GetKeyPath` on a config where each statement with a key word in its text is a line of the word
-- and a path without white space and ";", and holds no other key word: each path is that of the
-- word's last line, or as it was where there is none, and the call returns true exactly where
-- neither path is empty.
pub get_key_path-Sets :
    (p q : KeyPaths) (c : Config)
    → Sets p c q
    → (is_found : Bool) × (get_key_path p c ≡ some (is_found, q))
      × ((is_found ≡ true) ↔ ((q.ssl_public_path ≢ []) × (q.ssl_private_path ≢ [])))
unfolding get_key_path
get_key_path-Sets p q c h = (
  not (is_empty q.ssl_public_path || is_empty q.ssl_private_path),
  ap (λ o. o >>= λ p. some (not (is_empty p.ssl_public_path || is_empty p.ssl_private_path), p))
      (key_loop-Sets h),
  both_set q.ssl_public_path q.ssl_private_path,
)
