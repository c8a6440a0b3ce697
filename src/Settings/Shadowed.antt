-- ===== src/Settings/Shadowed.antt =====
-- `GetPortNumber` of src/config_parser.cc on a statement that holds the key word in another place.
use https_server.Prelude.{
  ℕ, ◌+◌, ◌-◌, ◌<◌, ◌≡◌, refl, ap, ◌∙◌, true, false, not, [], ◌∷◌, ◌++◌, append_assoc, append-nil,
  some, ltb, ◌==◌, equal, Bytes, codes, length, length-append, take, take-append, drop-append, All,
  arith,
}
use https_server.Config.{Config, block, cons, statement_to_string, to_string}
use https_server.Settings.Values.{index_at-run, value_start, find_at-append}
use https_server.Settings.{
  not_found, is_digit, port_of, port_at, port_in, port_loop, get_port_number,
}
use https_server.StdString.{
  npos, find, find_at, starts_with, find_first_of, find_first_not_of, index_at, contains, substr,
}

-- The key word is not found in front of its first byte.
find_at-skip :
    (i : ℕ) (front s : Bytes)
    → All (λ c. (b'l' == c) ≡ false) front
    → find_at i (codes "listen") (front ++ s) ≡ find_at (i + length front) (codes "listen") s
unfolding find_at starts_with
find_at-skip i [] s h = ap (λ k. find_at k (codes "listen") s) (omega arith)
find_at-skip i (c ∷ front) s (e, h) =
    rw e (find_at-skip (i + 1) front s h ∙ ap (λ k. find_at k (codes "listen") s) (omega arith))

-- The text of a location up to the end of its path.
abbrev path_text : Bytes → Bytes
path_text front = codes "location " ++ (front ++ codes "listen")

location_text :
    (front : Bytes) (c : ℕ) (kind : Bytes) (child : Config)
    → statement_to_string 0
        (block (codes "location" ∷ (front ++ codes "listen") ∷ (c ∷ kind) ∷ []) child)
      ≡ (path_text front ++ b' ' ∷ [])
        ++ ((c ∷ kind) ++ b' ' ∷ b'{' ∷ b'\n' ∷ (to_string 1 child ++ b'}' ∷ b'\n' ∷ []))
unfolding statement_to_string
location_text front c kind child = simp (append_assoc, append-nil)

find-path :
    (front rest : Bytes)
    → All (λ c. (b'l' == c) ≡ false) front
    → find ((path_text front ++ b' ' ∷ []) ++ rest) (codes "listen") ≡ 9 + length front
unfolding find_at starts_with
find-path front rest h = rw append_assoc (
    rw append_assoc (
      find_at-skip 9 front (codes "listen" ++ b' ' ∷ rest) h
      ∙ find_at-append (9 + length front) b'l' (codes "isten") (b' ' ∷ rest)))

-- What stands behind the path, up to the space behind it, is no number.
module _ (front : Bytes) (c : ℕ) (kind tail : Bytes)
    (plain : All (λ b. contains (codes " \t;") b ≡ false) (c ∷ kind))
    (no_blank : contains (codes " \t\n\r") c ≡ false) (no_digit : is_digit c ≡ false) where
  abbrev head : Bytes
  head = path_text front ++ b' ' ∷ []

  abbrev text : Bytes
  text = head ++ ((c ∷ kind) ++ b' ' ∷ tail)

  kind_start : find_first_not_of text (codes " \t\n\r") (9 + length front + 6) ≡ length head
  kind_start =
      let place : 9 + length front + 6 ≡ length (path_text front) =
        omega (arith, length-append front (codes "listen")) in
      ap (find_first_not_of text (codes " \t\n\r")) place
      ∙ value_start (path_text front) c (kind ++ b' ' ∷ tail) no_blank

  kind_end : find_first_of text (codes " \t;") (length head) ≡ length head + length (c ∷ kind)
  kind_end =
      ap (index_at (length head) (contains (codes " \t;")))
        (drop-append head ((c ∷ kind) ++ b' ' ∷ tail))
      ∙ index_at-run (length head) (contains (codes " \t;")) (c ∷ kind) b' ' tail plain refl

  kind_text : substr text (length head) (length (c ∷ kind)) ≡ some (c ∷ kind)
  kind_text =
      let short : ltb (length text) (length head) ≡ false =
        ground (arith, length-append head ((c ∷ kind) ++ b' ' ∷ tail)) in
      rw short (
        ap (λ s. some (take (length (c ∷ kind)) s)) (drop-append head ((c ∷ kind) ++ b' ' ∷ tail))
        ∙ ap some (take-append (c ∷ kind) (b' ' ∷ tail)))

  port_of-kind : port_of (c ∷ kind) ≡ not_found
  unfolding index_at
  port_of-kind =
      let first : not (contains (codes "0123456789") c) ≡ true = ground arith in rw first refl

  port_at-kind : port_at text (9 + length front + 6) ≡ not_found
  unfolding port_at
  port_at-kind =
      let apart : (length head + length (c ∷ kind) == length head) ≡ false = ground arith in
      let count : length head + length (c ∷ kind) - length head ≡ length (c ∷ kind) = omega arith in
      rw (kind_start, kind_end, apart, count, kind_text) port_of-kind

  port_in-kind :
      All (λ b. (b'l' == b) ≡ false) front
      → 9 + length front < npos
      → port_in (codes "listen") text ≡ some not_found
  unfolding port_in
  port_in-kind other small =
      let inside : (9 + length front == npos) ≡ false = ground arith in
      rw (find-path front ((c ∷ kind) ++ b' ' ∷ tail) other, inside) (ap some port_at-kind)

-- A location whose path ends in "listen", with no other "l" in it, and whose handler type begins
-- with neither a digit nor a blank and has no blank and no ";", in front of all other statements:
-- there is no port for HTTP, whatever stands behind it, a `listen` statement too.
pub get_port_number-shadowed :
    (front : Bytes) (c : ℕ) (kind : Bytes) (child rest : Config)
    → All (λ b. (b'l' == b) ≡ false) front
    → 9 + length front < npos
    → All (λ b. contains (codes " \t;") b ≡ false) (c ∷ kind)
    → contains (codes " \t\n\r") c ≡ false
    → is_digit c ≡ false
    → get_port_number
        (cons (block (codes "location" ∷ (front ++ codes "listen") ∷ (c ∷ kind) ∷ []) child) rest)
        (codes "HTTP")
      ≡ not_found
unfolding get_port_number equal
get_port_number-shadowed front c kind child rest other small plain no_blank no_digit =
    let s = block (codes "location" ∷ (front ++ codes "listen") ∷ (c ∷ kind) ∷ []) child in
    let tail = b'{' ∷ b'\n' ∷ (to_string 1 child ++ b'}' ∷ b'\n' ∷ []) in
    let result : port_in (codes "listen") (statement_to_string 0 s) ≡ some not_found =
      ap (port_in (codes "listen")) (location_text front c kind child)
      ∙ port_in-kind front c kind tail plain no_blank no_digit other small in
    rw (result, port_loop) refl
