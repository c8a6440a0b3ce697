-- ===== src/StdMap/Laws.antt =====
-- What a write changes in a map.
use https_server.Prelude.{
  suc, ◌≡◌, refl, sym, List, [], ◌∷◌, none, some, if◌then◌else◌, arith, Bytes, equal, equal_iff,
  length, Bool-cases, inl, inr, All,
}
use https_server.StdMap.{lookup, insert}
use https_server.StdString.{less}

-- An entry of the map.
pub data Has {ℓ} {V : Type ℓ} (k : Bytes) (v : V) : List (Bytes × V) → Type ℓ where
  here : {m : List (Bytes × V)} → Has k v ((k, v) ∷ m)
  there : {e : Bytes × V} {m : List (Bytes × V)} → Has k v m → Has k v (e ∷ m)

module _ {ℓ} {V : Type ℓ} where
  pub lookup-insert :
      (k j : Bytes) (v : V) (m : List (Bytes × V))
      → lookup j (insert k v m) ≡ (if equal k j then some v else lookup j m)
  unfolding lookup insert
  lookup-insert k j v [] = refl
  lookup-insert k j v ((i, w) ∷ m) =
      ground (arith, equal_iff k j, equal_iff i k, equal_iff i j, lookup-insert k j v m)

  pub length-insert :
      (k : Bytes) (v : V) (m : List (Bytes × V))
      → lookup k m ≡ none
      → length (insert k v m) ≡ suc (length m)
  unfolding lookup insert
  length-insert k v [] h = refl
  length-insert k v ((i, w) ∷ m) h = ground (arith, length-insert k v m)

  pub lookup-Has : (k : Bytes) (v : V) (m : List (Bytes × V)) → lookup k m ≡ some v → Has k v m
  unfolding lookup
  lookup-Has k v [] h = cc
  lookup-Has k v ((i, w) ∷ m) h = elim (Bool-cases (equal i k)) [
    | inl e ↦ let same : w ≡ v = ground arith in rw (sym ((equal_iff i k).0 e), sym same) here
    | inr e ↦ there (lookup-Has k v m (ground arith))
  ]

pub insert-All {ℓ κ} :
    {V : Type ℓ} (P : Bytes × V → Type κ) (k : Bytes) (v : V) (m : List (Bytes × V))
    → P (k, v)
    → All P m
    → All P (insert k v m)
unfolding insert
insert-All P k v [] p h = (p, tt)
insert-All P k v ((j, w) ∷ m) p (q, h) = elim (Bool-cases (equal j k)) [
  | inl e ↦ rw e (p, h)
  | inr e ↦ elim (Bool-cases (less k j)) [
    | inl f ↦ rw (e, f) (p, (q, h))
    | inr f ↦ rw (e, f) (q, insert-All P k v m p h)
  ]
]
