-- ===== src/Session/Text.antt =====
-- The text in `data_` of src/session.cc: what its prefixes say of it, and what a read makes of it.
use https_server.Prelude.{
  zero, ℕ, suc, ◌+◌, ◌<◌, ◌≤◌, ◌≡◌, ◌≢◌, refl, subst, true, false, [], ◌∷◌, ◌++◌, ltb, arith, Bytes,
  length, length-append, take, take-append, drop, append-nil, Bool-cases, inl, inr, codes,
}
use https_server.Session.{max_length, store, end_of_request}
use https_server.StdString.{c_string, npos}
use https_server.StdString.Laws.{find_at-append}

pub c_string-prefix : (p q : Bytes) → c_string (p ++ q) ≡ p ++ q → c_string p ≡ p
unfolding c_string
c_string-prefix [] q h = refl
c_string-prefix (c ∷ p) q h = ground (arith, c_string-prefix p q)

-- A text that ends a request still does when more follows.
end_of_request-append :
    (p q : Bytes)
    → c_string (p ++ q) ≡ p ++ q
    → length (p ++ q) < max_length
    → end_of_request p ≡ true
    → end_of_request (p ++ q) ≡ true
unfolding end_of_request
end_of_request-append p q whole small h =
    let prefix = c_string-prefix p q whole in
    let wide : 0 + length (p ++ q) < npos = omega arith in
    let crlf = find_at-append 0 b'\r' (codes "\n\r\n") p q wide in
    let lf = find_at-append 0 b'\n' (codes "\n") p q wide in ground (arith, prefix, whole, crlf, lf)

-- A text that ends no request has no prefix that does.
pub prefix_open :
    (p q : Bytes)
    → c_string (p ++ q) ≡ p ++ q
    → length (p ++ q) < max_length
    → end_of_request (p ++ q) ≡ false
    → end_of_request p ≡ false
prefix_open p q whole small h = elim (Bool-cases (end_of_request p)) [
  | inr e ↦ e
  | inl e ↦ let ended = end_of_request-append p q whole small e in cc
]

nil-append : (p q : Bytes) → p ++ q ≡ [] → q ≡ []
nil-append [] q h = h
nil-append (x ∷ p) q h = cc

-- All but the last byte of a text holds each shorter prefix.
shorter_prefix :
    (p q u : Bytes) (c : ℕ) → p ++ q ≡ u ++ c ∷ [] → q ≢ [] → (w : Bytes) × (u ≡ p ++ w)
shorter_prefix [] q u c h ne = (u, refl)
shorter_prefix (x ∷ p) q [] c h ne =
    absurd (ne (nil-append p q (let tails : p ++ q ≡ [] = cc in tails)))
shorter_prefix (x ∷ p) q (y ∷ u) c h ne =
    let (w, e) = shorter_prefix p q u c (let tails : p ++ q ≡ u ++ c ∷ [] = cc in tails) ne in
    (w, cc)

-- A prefix that leaves at least the last byte out ends no request if all but the last byte do not.
pub still_open :
    (p q u : Bytes) (c : ℕ)
    → p ++ q ≡ u ++ c ∷ []
    → q ≢ []
    → c_string (u ++ c ∷ []) ≡ u ++ c ∷ []
    → length (u ++ c ∷ []) < max_length
    → end_of_request u ≡ false
    → end_of_request p ≡ false
still_open p q u c parts ne whole small before = elim (Bool-cases (end_of_request p)) [
  | inr e ↦ e
  | inl e ↦
      let (w, same) = shorter_prefix p q u c parts ne in
      let text = subst (λ x. c_string x ≡ x) same (c_string-prefix u (c ∷ []) whole) in
      let short : length u < max_length = omega (arith, small, length-append u (c ∷ [])) in
      let ended =
        end_of_request-append p w text (subst (λ x. length x < max_length) same short) e in
      let ended_before : end_of_request u ≡ true = rw (same) ended in cc
]

drop-all : (k : ℕ) (t : Bytes) → length t ≤ k → drop k t ≡ []
drop-all zero [] h = refl
drop-all (suc k) [] h = refl
drop-all zero (x ∷ t) h = absurd (omega (arith, h))
drop-all (suc k) (x ∷ t) h = drop-all k t (omega arith)

pub store-append : (t b : Bytes) → store (length t) b t ≡ t ++ b
store-append t b =
    let front : take (length t) t ≡ t =
      subst (λ x. take (length t) x ≡ t) (append-nil t) (take-append t []) in
    let behind : drop (length t + length b) t ≡ [] =
      drop-all (length t + length b) t (omega arith) in
    rw (front, behind, append-nil b) refl

pub within :
    (t b : Bytes) → length (t ++ b) < max_length → ltb max_length (length t + length b) ≡ false
within t b small = let sum = length-append t b in ground arith

pub inside : (text : Bytes) → length text < max_length → ltb (length text) max_length ≡ true
inside text small = ground arith
