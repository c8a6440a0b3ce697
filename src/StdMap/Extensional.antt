-- ===== src/StdMap/Extensional.antt =====
-- A map is what is found under its keys.
use https_server.Prelude.{
  ◌≡◌, refl, sym, ◌∙◌, subst, false, List, [], ◌∷◌, some, arith, Bytes, equal, equal_iff,
  Bool-cases, inl, inr, All,
}
use https_server.StdMap.Order.{Below, IsSorted, lookup-Below, Below-trans, less_total}
use https_server.StdMap.{lookup}
use https_server.StdString.{less}

pub lookup-All {ℓ κ} :
    {V : Type ℓ} (P : Bytes × V → Type κ) (k : Bytes) (v : V) (m : List (Bytes × V))
    → lookup k m ≡ some v
    → All P m
    → P (k, v)
unfolding lookup
lookup-All P k v [] e h = absurd (cc)
lookup-All P k v ((j, w) ∷ m) e (p, h) = elim (Bool-cases (equal j k)) [
  | inl same ↦
      let values : w ≡ v = ground arith in
      subst (λ x. P (k, x)) values (subst (λ x. P (x, w)) ((equal_iff j k).0 same) p)
  | inr other ↦ lookup-All P k v m (ground arith) h
]

module _ {ℓ} {V : Type ℓ} where
  lookup-first : (k : Bytes) (v : V) (m : List (Bytes × V)) → lookup k ((k, v) ∷ m) ≡ some v
  unfolding lookup
  lookup-first k v m = ground (arith, equal_iff k k)

  lookup-rest :
      (k j : Bytes) (v : V) (m : List (Bytes × V))
      → equal j k ≡ false
      → lookup k ((j, v) ∷ m) ≡ lookup k m
  unfolding lookup
  lookup-rest k j v m e = rw e refl

  -- What is in front of every key of a map is not the first key of one that finds the same.
  no_front :
      (j : Bytes) (v : V) (m m' : List (Bytes × V))
      → Below j m'
      → ((k : Bytes) → lookup k ((j, v) ∷ m) ≡ lookup k m')
      → ⊥
  no_front j v m m' below e =
      let found = sym (lookup-first j v m) ∙ (e j ∙ lookup-Below j m' below) in absurd (cc)

  tails_ext :
      (j : Bytes) (v w : V) (m m' : List (Bytes × V))
      → Below j m
      → Below j m'
      → ((k : Bytes) → lookup k ((j, v) ∷ m) ≡ lookup k ((j, w) ∷ m'))
      → (k : Bytes) → lookup k m ≡ lookup k m'
  tails_ext j v w m m' b b' e k = elim (Bool-cases (equal j k)) [
    | inl same ↦
        subst (λ i. lookup i m ≡ lookup i m') ((equal_iff j k).0 same)
          (lookup-Below j m b ∙ sym (lookup-Below j m' b'))
    | inr other ↦ sym (lookup-rest k j v m other) ∙ (e k ∙ lookup-rest k j w m' other)
  ]

  heads_ext :
      (j : Bytes) (v w : V) (m m' : List (Bytes × V))
      → ((k : Bytes) → lookup k ((j, v) ∷ m) ≡ lookup k ((j, w) ∷ m'))
      → v ≡ w
  heads_ext j v w m m' e =
      let found : some v ≡ some w = sym (lookup-first j v m) ∙ (e j ∙ lookup-first j w m') in cc

  -- Two maps whose keys are in order are equal where the same is found under each key.
  pub lookup_ext :
      (m m' : List (Bytes × V))
      → IsSorted m
      → IsSorted m'
      → ((k : Bytes) → lookup k m ≡ lookup k m')
      → m ≡ m'
  unfolding Below IsSorted
  lookup_ext [] [] s s' e = refl
  lookup_ext [] ((i, w) ∷ m') s s' e = absurd (no_front i w m' [] tt (λ k. sym (e k)))
  lookup_ext ((j, v) ∷ m) [] s s' e = absurd (no_front j v m [] tt e)
  lookup_ext ((j, v) ∷ m) ((i, w) ∷ m') (b, s) (b', s') e = elim (Bool-cases (equal j i)) [
    | inl same ↦
        let keys : j ≡ i = (equal_iff j i).0 same in
        let b'' : Below j m' = subst (λ k. Below k m') (sym keys) b' in
        let e' =
          subst (λ k. (l : Bytes) → lookup l ((j, v) ∷ m) ≡ lookup l ((k, w) ∷ m')) (sym keys) e in
        let values : v ≡ w = heads_ext j v w m m' e' in
        let tails : m ≡ m' = lookup_ext m m' s s' (tails_ext j v w m m' b b'' e') in cc
    | inr other ↦ elim (Bool-cases (less i j)) [
      | inl f ↦ absurd (no_front i w m' ((j, v) ∷ m) (f, Below-trans i j m f b) (λ k. sym (e k)))
      | inr f ↦
          let f' = less_total j i other f in
          absurd (no_front j v m ((i, w) ∷ m') (f', Below-trans j i m' f' b') e)
    ]
  ]
