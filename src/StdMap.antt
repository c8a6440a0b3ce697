-- ===== src/StdMap.antt =====
-- `std::map<std::string, V>` as the list of its entries in the order of the keys.
pub mod Laws
pub mod Order
pub mod Extensional
use https_server.Prelude.{List, [], ◌∷◌, Option, none, some, if◌then◌else◌, Bytes, equal}
use https_server.StdString.{less}

module _ {ℓ} {V : Type ℓ} where
  -- `find(k)`.
  unfoldable pub lookup : Bytes → List (Bytes × V) → Option V
  unfolding equal
  lookup k [] = none
  lookup k ((j, v) ∷ m) = if equal j k then some v else lookup k m

  -- `m[k] = v`.
  unfoldable pub insert : Bytes → V → List (Bytes × V) → List (Bytes × V)
  unfolding equal less
  insert k v [] = (k, v) ∷ []
  insert k v ((j, w) ∷ m) =
      if equal j k
      then (k, v) ∷ m
      else if less k j
      then (k, v) ∷ (j, w) ∷ m
      else (j, w) ∷ insert k v m
