-- ===== src/Dispatcher/Search.antt =====
-- The search for the longest prefix.
use https_server.Prelude.{
  ℕ, ◌≤◌, ◌<◌, ◌≡◌, ◌≢◌, inl, inr, refl, ◌&&◌, List, [], ◌∷◌, Option, none, some, ltb, arith, Bytes,
  Bool-cases, length, take, equal, equal_iff,
}
use https_server.Dispatcher.Paths.{slash_first}
use https_server.Dispatcher.{Dispatcher, match_loop, trim_slashes, get_request_handler, root_path}
use https_server.Handlers.{Handler}
use https_server.StdMap.{lookup}
use https_server.StdMap.Laws.{Has, here, there, lookup-Has}

-- `path.substr(0, key.length()) == key`.
abbrev pub IsPrefixOf : Bytes → Bytes → Type 0
IsPrefixOf path key = take (length key) path ≡ key

-- No key that is a prefix of the path is longer than `n`.
pub NoneLonger {ℓ} : {A : Type ℓ} → Bytes → ℕ → List (Bytes × A) → Type 0
NoneLonger path n [] = Unit
NoneLonger path n ((key, a) ∷ m) = (IsPrefixOf path key → length key ≤ n) × NoneLonger path n m

-- What the loop has chosen: the entry with the longest key that is a prefix of the path and longer
-- than `prefix`, or, where there is none, what it was given.
pub data Chosen {ℓ} {A : Type ℓ} (path prefix : Bytes) (found : Option A) (m : List (Bytes × A))
    : Option A → Type ℓ where
  kept :
      {r : Option A} → r ≡ found → NoneLonger path (length prefix) m → Chosen path prefix found m r
  took :
      {r : Option A} (key : Bytes) (a : A)
      → Has key a m
      → IsPrefixOf path key
      → length prefix < length key
      → NoneLonger path (length key) m
      → r ≡ some a
      → Chosen path prefix found m r

module _ {ℓ} {A : Type ℓ} (path : Bytes) where
  match_loop-Chosen :
      (prefix : Bytes) (found : Option A) (m : List (Bytes × A))
      → Chosen path prefix found m (match_loop path prefix found m)
  unfolding match_loop NoneLonger
  match_loop-Chosen prefix found [] = kept refl tt
  match_loop-Chosen prefix found ((key, a) ∷ m) =
      elim (Bool-cases (equal (take (length key) path) key && ltb (length prefix) (length key))) [
        | inl e ↦ rw e (
            go (match_loop-Chosen key (some a) m)
              (ground (arith, equal_iff (take (length key) path) key)) (ground arith))
        | inr e ↦ rw e (
            pass (match_loop-Chosen prefix found m)
              (λ p. ground (arith, equal_iff (take (length key) path) key)))
      ]
    where
      go :
          {r : Option A}
          → Chosen path key (some a) m r
          → IsPrefixOf path key
          → length prefix < length key
          → Chosen path prefix found ((key, a) ∷ m) r
      go (kept e n) p lt = took key a here p lt ((λ _. omega arith), n) e
      go (took k b has q longer n e) p lt =
          took k b (there has) q (omega arith) ((λ _. omega arith), n) e

      pass :
          {r : Option A}
          → Chosen path prefix found m r
          → (IsPrefixOf path key → length key ≤ length prefix)
          → Chosen path prefix found ((key, a) ∷ m) r
      pass (kept e n) le = kept e (le, n)
      pass (took k b has q longer n e) le =
          took k b (there has) q longer ((λ p. omega (arith, le p)), n) e

-- The handler for a URI is that of the longest key which is a prefix of the URI without its
-- trailing slashes, the empty key left out; it is null exactly where no other key is such a prefix.
pub get_request_handler-Chosen :
    (d : Dispatcher) (uri : Bytes)
    → Chosen (trim_slashes uri) [] none d.handlers (get_request_handler d uri)
unfolding get_request_handler
get_request_handler-Chosen d uri = match_loop-Chosen (trim_slashes uri) [] none d.handlers

pub NoneLonger-Has {ℓ} :
    {A : Type ℓ} {key : Bytes} {a : A} {m : List (Bytes × A)} (path : Bytes) (n : ℕ)
    → Has key a m
    → NoneLonger path n m
    → IsPrefixOf path key
    → length key ≤ n
unfolding NoneLonger
NoneLonger-Has path n here h p = h.0 p
NoneLonger-Has path n (there has) h p = NoneLonger-Has path n has h.1 p

Chosen-ne-none {ℓ} :
    {A : Type ℓ} {key : Bytes} {a : A} {m : List (Bytes × A)} {r : Option A} (path : Bytes)
    → Has key a m
    → IsPrefixOf path key
    → 0 < length key
    → Chosen path [] none m r
    → r ≢ none
Chosen-ne-none path has p pos (kept e n) = absurd (omega (arith, NoneLonger-Has path 0 has n p))
Chosen-ne-none path has p pos (took k b has' q longer n e) = λ same. cc

-- A URI that begins with a slash has a handler, where "/" has one.
pub get_request_handler-ne-none :
    (d : Dispatcher) (h : Handler) (rest : Bytes)
    → lookup root_path d.handlers ≡ some h
    → get_request_handler d (b'/' ∷ rest) ≢ none
get_request_handler-ne-none d h rest e =
    Chosen-ne-none (trim_slashes (b'/' ∷ rest)) (lookup-Has root_path h d.handlers e)
      (slash_first rest) (omega arith) (get_request_handler-Chosen d (b'/' ∷ rest))
