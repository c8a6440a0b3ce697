-- ===== src/Dispatcher/Routed.antt =====
-- Where a request goes: `get_request_handler` on the dispatcher that `init_handlers` builds, both
-- of src/dispatcher.cc, in terms of the config alone.
use https_server.Prelude.{
  ℕ, ◌≤◌, ◌<◌, ◌≡◌, sym, ap, ◌∙◌, List, [], Option, none, some, if◌then◌else◌, Bytes, equal,
  equal_iff, Bool-cases, inl, inr, length, take, arith,
}
use https_server.Config.{Config}
use https_server.Dispatcher.Assigned.{assigned, init_handlers-assigned}
use https_server.Dispatcher.Induction.{init_handlers-induction, DescribesOnly-everywhere}
use https_server.Dispatcher.Register.{init_handlers-IsValid}
use https_server.Dispatcher.Search.{
  IsPrefixOf, NoneLonger, Chosen, kept, took, get_request_handler-Chosen, NoneLonger-Has,
}
use https_server.Dispatcher.{
  Dispatcher, count_added, settle, root_path, init_handlers, get_request_handler, trim_slashes,
}
use https_server.Handlers.{Handler, not_found_handler, Built, built}
use https_server.Handlers.Kinds.{OnBuilt-everywhere}
use https_server.StdMap.Laws.{lookup-Has}
use https_server.StdMap.Order.{IsSorted, insert-IsSorted, Has-lookup}
use https_server.StdMap.{lookup}

-- What a config gives to a path: "/" has the 404 handler, whatever the config says of it.
abbrev pub described : Config → Bytes → Built (Option Handler)
described c key = if equal key root_path then built (some not_found_handler) else assigned key c

-- No path that has a handler and is a prefix of the URI is longer than `n`.
abbrev pub Longest : Config → Bytes → ℕ → Type 0
Longest c uri n =
    (key : Bytes) (h : Handler)
    → described c key ≡ built (some h)
    → IsPrefixOf uri key
    → length key ≤ n

-- The handler of a URI.
pub data Routed (c : Config) (uri : Bytes) : Option Handler → Type 0 where
  nowhere : Longest c uri 0 → Routed c uri none
  under :
      (key : Bytes) (h : Handler)
      → described c key ≡ built (some h)
      → IsPrefixOf uri key
      → 0 < length key
      → Longest c uri (length key)
      → Routed c uri (some h)

-- A config leads a URI to a handler: it gives it to the longest path that is a prefix of the URI.
abbrev pub LeadsTo : Config → Bytes → Handler → Type 0
LeadsTo c uri h =
    (key : Bytes) × (described c key ≡ built (some h))
    × IsPrefixOf uri key
    × (0 < length key)
    × Longest c uri (length key)

-- Two paths of one length that are a prefix of the URI are the same.
pub Routed-LeadsTo :
    (c : Config) (uri : Bytes) (h : Handler) (found : Option Handler)
    → Routed c uri found
    → LeadsTo c uri h
    → found ≡ some h
Routed-LeadsTo c uri h _ (nowhere longest) (key, has, p, pos, _) =
    absurd (omega (arith, longest key h has p))
Routed-LeadsTo c uri h _ (under k g has' p' pos' longest') (key, has, p, pos, longest) =
    let lengths : length k ≡ length key =
      omega (arith, longest' key h has p, longest k g has' p') in
    let same : k ≡ key = sym p' ∙ ap (λ n. take n uri) lengths ∙ p in
    let results : built (some g) ≡ built (some h) = sym has' ∙ ap (described c) same ∙ has in cc

settle-IsSorted :
    (d : Dispatcher) (path : Bytes) (made : Option (Handler × Bytes))
    → IsSorted d.handlers
    → lookup path d.handlers ≡ none
    → Unit {0}
    → IsSorted (count_added (settle d path made)).handlers
settle-IsSorted d path none s fresh _ = s
settle-IsSorted d path (some (h, name)) s fresh _ = insert-IsSorted path h d.handlers s

init_handlers-IsSorted :
    (info : List (Bytes × Bytes)) (c : Config) (d : Dispatcher)
    → init_handlers info c ≡ built d
    → IsSorted d.handlers
unfolding IsSorted
init_handlers-IsSorted info c d =
    init_handlers-induction (λ d. IsSorted d.handlers) (λ _. Unit {0}) (λ _. Unit {0})
      (λ handler_type path config _. OnBuilt-everywhere _ _ (λ made. tt)) settle-IsSorted info c d
      (DescribesOnly-everywhere c (λ _. tt)) (insert-IsSorted root_path not_found_handler [] tt)

module _ (info : List (Bytes × Bytes)) (c : Config) (d : Dispatcher)
    (e : init_handlers info c ≡ built d) where
  -- The map holds what the config gives.
  described-lookup : (key : Bytes) → described c key ≡ built (lookup key d.handlers)
  described-lookup key = elim (Bool-cases (equal key root_path)) [
    | inl is ↦
        let root = (init_handlers-IsValid info c d e).root in
        let same : key ≡ root_path = (equal_iff key root_path).0 is in
        rw is (ap built (sym root ∙ ap (λ k. lookup k d.handlers) (sym same)))
    | inr other ↦ rw other (init_handlers-assigned info c d key e other)
  ]

  lookup-described :
      (key : Bytes) (h : Handler)
      → described c key ≡ built (some h)
      → lookup key d.handlers ≡ some h
  lookup-described key h has =
      let same : built (lookup key d.handlers) ≡ built (some h) =
        sym (described-lookup key) ∙ has in
      cc

  NoneLonger-Longest : (uri : Bytes) (n : ℕ) → NoneLonger uri n d.handlers → Longest c uri n
  NoneLonger-Longest uri n longest key h has p =
      NoneLonger-Has uri n (lookup-Has key h d.handlers (lookup-described key h has)) longest p

  Chosen-Routed :
      (uri : Bytes) (r : Option Handler) → Chosen uri [] none d.handlers r → Routed c uri r
  Chosen-Routed uri none (kept same n) = nowhere (NoneLonger-Longest uri 0 n)
  Chosen-Routed uri (some h) (kept same n) = cc
  Chosen-Routed uri none (took key a has p longer n same) = cc
  Chosen-Routed uri (some h) (took key a has p longer n same) =
      let found = Has-lookup key a d.handlers has (init_handlers-IsSorted info c d e) in
      under key h (described-lookup key ∙ ap built (found ∙ sym same)) p longer
        (NoneLonger-Longest uri (length key) n)

-- The handler of a URI, on the dispatcher that a config is built into: of all paths that the config
-- gives a handler, "/" with the 404 handler among them, and that are a prefix of the URI without
-- its trailing slashes, that of the longest; it is null exactly where no path but the empty one is
-- such a prefix. The config gives a path the handler of the first `location` statement for it whose
-- handler type is known.
pub get_request_handler-Routed :
    (info : List (Bytes × Bytes)) (c : Config) (d : Dispatcher) (uri : Bytes)
    → init_handlers info c ≡ built d
    → Routed c (trim_slashes uri) (get_request_handler d uri)
get_request_handler-Routed info c d uri e =
    Chosen-Routed info c d e (trim_slashes uri) (get_request_handler d uri)
      (get_request_handler-Chosen d uri)
