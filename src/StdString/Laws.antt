-- ===== src/StdString/Laws.antt =====
-- An occurrence is found in every longer text.
use https_server.Prelude.{
  zero, suc, ◌≤◌, All, take, ap, some, ℕ, ◌+◌, ◌<◌, ◌≡◌, refl, true, false, [], ◌∷◌, ◌++◌, ◌==◌,
  arith, Bytes, length, Bool-cases, inl, inr,
}
use https_server.StdString.{npos, starts_with, find_at, back, pop_back}

starts_with-append :
    (needle s q : Bytes) → starts_with needle s ≡ true → starts_with needle (s ++ q) ≡ true
unfolding starts_with
starts_with-append [] s q h = refl
starts_with-append (x ∷ needle) [] q h = cc
starts_with-append (x ∷ needle) (c ∷ s) q h = ground (arith, starts_with-append needle s q)

pub find_at-append :
    (i x : ℕ) (needle p q : Bytes)
    → i + length (p ++ q) < npos
    → (find_at i (x ∷ needle) p == npos) ≡ false
    → (find_at i (x ∷ needle) (p ++ q) == npos) ≡ false
unfolding find_at
find_at-append i x needle [] q small h = ground arith
find_at-append i x needle (c ∷ p) q small h = elim (Bool-cases (starts_with (x ∷ needle) (c ∷ p))) [
  | inl e ↦ rw (starts_with-append (x ∷ needle) (c ∷ p) q e) (ground arith)
  | inr e ↦
      let later = find_at-append (i + 1) x needle p q (omega arith) (ground arith) in
      ground (arith, later)
]

-- A byte is found behind bytes that are other ones, and not where all are.
pub find_at-byte :
    (i x : ℕ) (name rest : Bytes)
    → All (λ c. (x == c) ≡ false) name
    → find_at i (x ∷ []) (name ++ x ∷ rest) ≡ i + length name
unfolding find_at starts_with
find_at-byte i x [] rest h = let same : (x == x) ≡ true = ground arith in rw same (omega arith)
find_at-byte i x (c ∷ name) rest (e, h) = rw (e) (omega (arith, find_at-byte (i + 1) x name rest h))

pub find_at-byte_npos :
    (i x : ℕ) (s : Bytes) → All (λ c. (x == c) ≡ false) s → find_at i (x ∷ []) s ≡ npos
unfolding find_at starts_with
find_at-byte_npos i x [] h = refl
find_at-byte_npos i x (c ∷ s) (e, h) = rw (e) (find_at-byte_npos (i + 1) x s h)

pub back-append : (s : Bytes) (c : ℕ) → back (s ++ c ∷ []) ≡ some c
unfolding back
back-append [] c = refl
back-append (d ∷ []) c = refl
back-append (d ∷ e ∷ s) c = back-append (e ∷ s) c

pub pop_back-append : (s : Bytes) (c : ℕ) → pop_back (s ++ c ∷ []) ≡ s
unfolding pop_back
pop_back-append [] c = refl
pop_back-append (d ∷ []) c = refl
pop_back-append (d ∷ e ∷ s) c = ap (◌∷◌ d) (pop_back-append (e ∷ s) c)

pub take_all : (n : ℕ) (s : Bytes) → length s ≤ n → take n s ≡ s
take_all zero [] h = refl
take_all (suc n) [] h = refl
take_all zero (c ∷ s) h = absurd (omega arith)
take_all (suc n) (c ∷ s) h = ap (◌∷◌ c) (take_all n s (omega arith))
