-- ===== src/StdMap/Order.antt =====
-- The keys of a map stand in the order of `operator<`, and a write keeps them in it.
use https_server.Prelude.{
  ◌≡◌, refl, sym, true, false, [], ◌∷◌, List, none, some, arith, Bytes, equal, equal_iff,
  Bool-cases, inl, inr,
}
use https_server.StdMap.Laws.{Has, here, there}
use https_server.StdMap.{lookup, insert}
use https_server.StdString.{less}

less_trans : (a b c : Bytes) → less a b ≡ true → less b c ≡ true → less a c ≡ true
unfolding less
less_trans a b [] h k = cc
less_trans [] b (z ∷ c) h k = refl
less_trans (x ∷ a) [] (z ∷ c) h k = cc
less_trans (x ∷ a) (y ∷ b) (z ∷ c) h k = ground (arith, less_trans a b c)

less_irrefl : (a : Bytes) → less a a ≡ false
unfolding less
less_irrefl [] = refl
less_irrefl (x ∷ a) = ground (arith, less_irrefl a)

pub less_total : (a b : Bytes) → equal a b ≡ false → less b a ≡ false → less a b ≡ true
unfolding equal less
less_total [] [] h k = cc
less_total [] (y ∷ b) h k = refl
less_total (x ∷ a) [] h k = cc
less_total (x ∷ a) (y ∷ b) h k = ground (arith, less_total a b)

module _ {ℓ} {V : Type ℓ} where
  -- `k` is less than every key.
  unfoldable pub Below : Bytes → List (Bytes × V) → Type 0
  Below k [] = Unit
  Below k ((j, v) ∷ m) = (less k j ≡ true) × Below k m

  unfoldable pub IsSorted : List (Bytes × V) → Type 0
  unfolding Below
  IsSorted [] = Unit
  IsSorted ((j, v) ∷ m) = Below j m × IsSorted m

  pub Below-trans : (k j : Bytes) (m : List (Bytes × V)) → less k j ≡ true → Below j m → Below k m
  unfolding Below
  Below-trans k j [] h b = tt
  Below-trans k j ((i, v) ∷ m) h (l, b) = (less_trans k j i h l, Below-trans k j m h b)

  pub lookup-Below : (k : Bytes) (m : List (Bytes × V)) → Below k m → lookup k m ≡ none
  unfolding Below lookup
  lookup-Below k [] b = refl
  lookup-Below k ((j, v) ∷ m) (l, b) =
      ground (arith, equal_iff j k, less_irrefl k, lookup-Below k m b)

  Below-insert :
      (i k : Bytes) (v : V) (m : List (Bytes × V))
      → less i k ≡ true
      → Below i m
      → Below i (insert k v m)
  unfolding Below insert
  Below-insert i k v [] h b = (h, tt)
  Below-insert i k v ((j, w) ∷ m) h (l, b) = elim (Bool-cases (equal j k)) [
    | inl e ↦ rw (e) (h, b)
    | inr e ↦ elim (Bool-cases (less k j)) [
      | inl f ↦ rw (e, f) (h, (l, b))
      | inr f ↦ rw (e, f) (l, Below-insert i k v m h b)
    ]
  ]

  pub insert-IsSorted :
      (k : Bytes) (v : V) (m : List (Bytes × V)) → IsSorted m → IsSorted (insert k v m)
  unfolding Below IsSorted insert
  insert-IsSorted k v [] s = (tt, tt)
  insert-IsSorted k v ((j, w) ∷ m) (b, s) = elim (Bool-cases (equal j k)) [
    | inl e ↦ let same : j ≡ k = (equal_iff j k).0 e in rw (e) (rw (sym same) b, s)
    | inr e ↦ elim (Bool-cases (less k j)) [
      | inl f ↦ rw (e, f) ((f, Below-trans k j m f b), (b, s))
      | inr f ↦ rw (e, f) (Below-insert j k v m (less_total j k e f) b, insert-IsSorted k v m s)
    ]
  ]

Has-Below {ℓ} :
    {V : Type ℓ} {k : Bytes} {v : V} {m : List (Bytes × V)} (j : Bytes)
    → Has k v m
    → Below j m
    → less j k ≡ true
unfolding Below
Has-Below j here b = b.0
Has-Below j (there has) b = Has-Below j has b.1

-- An entry of a map in order is the one that is found under its key.
pub Has-lookup {ℓ} :
    {V : Type ℓ} (k : Bytes) (v : V) (m : List (Bytes × V))
    → Has k v m
    → IsSorted m
    → lookup k m ≡ some v
unfolding IsSorted lookup
Has-lookup k v _ here s = ground (arith, equal_iff k k)
Has-lookup k v _ (there {e = (j, w)} {m = m} has) (b, s) =
    ground (arith, equal_iff j k, less_irrefl k, Has-Below j has b, Has-lookup k v m has s)
