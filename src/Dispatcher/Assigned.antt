-- ===== src/Dispatcher/Assigned.antt =====
-- Which handler `init_handlers` of src/dispatcher.cc gives to a path: that of the first `location`
-- statement for it, of a known type, in the order of the config.
use https_server.Prelude.{
  ◌≡◌, refl, sym, ap, subst, ◌∙◌, Bool, false, ◌&&◌, List, [], ◌∷◌, Option, none, some,
  if◌then◌else◌, arith, Bytes, codes, equal, equal_iff, Bool-cases, Option-cases, inl, inr,
}
use https_server.Config.{Config, nil, cons, tokens, child_block}
use https_server.Dispatcher.{
  Dispatcher, make_handler, settle, add_at, add_handler, count_added, init_statement, init_loop,
  root_path, with_root, init_handlers, trim_slashes,
}
use https_server.Handlers.Kinds.{>>=-eq-built}
use https_server.Handlers.{Handler, Built, built, ◌>>=◌}
use https_server.StdMap.Laws.{lookup-insert}
use https_server.StdMap.{lookup, insert}

abbrev pub without_name : Option (Handler × Bytes) → Option Handler
without_name none = none
without_name (some (h, name)) = some h

-- What a statement offers to the requests under a path.
abbrev pub offer : Bytes → List Bytes → Option Config → Built (Option Handler)
offer key (t ∷ path ∷ handler_type ∷ ts) (some config) =
    if equal t (codes "location") && equal (trim_slashes path) key
    then (do made ← make_handler handler_type key config; built (without_name made))
    else built none
offer key _ _ = built none

abbrev pub or_else : Built (Option Handler) → Option Handler → Built (Option Handler)
or_else rest none = rest
or_else rest (some h) = built (some h)

-- The first offer in a config.
unfoldable pub assigned : Bytes → Config → Built (Option Handler)
assigned key nil = built none
assigned key (cons s rest) = offer key (tokens s) (child_block s) >>= or_else (assigned key rest)

-- A statement that offers nothing leaves what is there.
or_else-none : (o : Option Handler) → or_else (built none) o ≡ built o
or_else-none none = refl
or_else-none (some h) = refl

settle-lookup :
    (d : Dispatcher) (path : Bytes) (made : Option (Handler × Bytes))
    → lookup path d.handlers ≡ none
    → lookup path (count_added (settle d path made)).handlers ≡ without_name made
settle-lookup d path none fresh = fresh
settle-lookup d path (some (h, name)) fresh =
    ground (arith, lookup-insert path path h d.handlers, equal_iff path path)

settle-lookup_other :
    (d : Dispatcher) (key path : Bytes) (made : Option (Handler × Bytes))
    → equal path key ≡ false
    → lookup key (count_added (settle d path made)).handlers ≡ lookup key d.handlers
settle-lookup_other d key path none other = refl
settle-lookup_other d key path (some (h, name)) other =
    lookup-insert path key h d.handlers ∙ rw other refl

-- How a built result is counted.
abbrev counted : Built (Bool × Dispatcher) → Built Dispatcher
counted m = m >>= λ result. built (count_added result)

-- A `location` statement, by whether its path is handled already.
module _ (d d' : Dispatcher) (config : Config) (path handler_type : Bytes)
    (added : counted (add_at d config path handler_type) ≡ built d') where
  unchanged : (x : Handler) → lookup path d.handlers ≡ some x → d ≡ d'
  unfolding add_at
  unchanged x old =
      let kept : add_at d config path handler_type ≡ built (false, d) = rw (old, add_at) refl in
      let same : built d ≡ built d' = sym (ap counted kept) ∙ added in cc

  made_by :
      lookup path d.handlers ≡ none
      → (made : Option (Handler × Bytes)) × (make_handler handler_type path config ≡ built made)
        × (count_added (settle d path made) ≡ d')
  unfolding add_at
  made_by fresh =
      let opens : add_at d config path handler_type
          ≡ (make_handler handler_type path config >>= λ made. built (settle d path made)) =
        rw (fresh, add_at) refl in
      let (result, e, settled) =
        >>=-eq-built (add_at d config path handler_type) (λ result. built (count_added result))
          added in
      let (made, e', same) =
        >>=-eq-built (make_handler handler_type path config) (λ made. built (settle d path made))
          (sym opens ∙ e) in
      let same_result : settle d path made ≡ result = cc in
      let same_state : count_added result ≡ d' = cc in
      (made, e', ap count_added same_result ∙ same_state)

  offered_self :
      or_else
        (do made ← make_handler handler_type path config; built (without_name made))
        (lookup path d.handlers)
      ≡ built (lookup path d'.handlers)
  offered_self = elim (Option-cases (lookup path d.handlers)) [
    | inr (x, old) ↦
        let kept = ap (λ d. lookup path d.handlers) (sym (unchanged x old)) ∙ old in
        rw old (ap built (sym kept))
    | inl fresh ↦
        let (made, e, same) = made_by fresh in
        let found = sym (settle-lookup d path made fresh) ∙ ap (λ d. lookup path d.handlers) same in
        rw (fresh, e) (ap built found)
  ]

  -- Other paths keep what they have.
  offered_other :
      (key : Bytes) → equal path key ≡ false → lookup key d.handlers ≡ lookup key d'.handlers
  offered_other key other = elim (Option-cases (lookup path d.handlers)) [
    | inr (x, old) ↦ ap (λ d. lookup key d.handlers) (unchanged x old)
    | inl fresh ↦
        let (made, e, same) = made_by fresh in
        sym (settle-lookup_other d key path made other) ∙ ap (λ d. lookup key d.handlers) same
  ]

  add_at-offer :
      (key : Bytes)
      → or_else
          (if equal path key
            then (do made ← make_handler handler_type key config; built (without_name made))
            else built none)
          (lookup key d.handlers)
        ≡ built (lookup key d'.handlers)
  add_at-offer key = elim (Bool-cases (equal path key)) [
    | inl e ↦ rw e (
        subst
          (λ k.
            or_else (do made ← make_handler handler_type k config; built (without_name made))
              (lookup k d.handlers)
            ≡ built (lookup k d'.handlers))
          ((equal_iff path key).0 e) offered_self)
    | inr e ↦ rw e (or_else-none (lookup key d.handlers) ∙ ap built (offered_other key e))
  ]

passed :
    (d d' : Dispatcher) (key : Bytes)
    → built d ≡ built d'
    → or_else (built none) (lookup key d.handlers) ≡ built (lookup key d'.handlers)
passed d d' key e =
    let same : d ≡ d' = cc in
    or_else-none (lookup key d.handlers) ∙ ap (λ d. built (lookup key d.handlers)) same

init_statement-offer :
    (d d' : Dispatcher) (key : Bytes) (ts : List Bytes) (child : Option Config)
    → init_statement d ts child ≡ built d'
    → or_else (offer key ts child) (lookup key d.handlers) ≡ built (lookup key d'.handlers)
unfolding add_handler
init_statement-offer d d' key [] child e = cc
init_statement-offer d d' key (t ∷ []) child e = passed d d' key (ground arith)
init_statement-offer d d' key (t ∷ path ∷ []) child e = passed d d' key (ground arith)
init_statement-offer d d' key (t ∷ path ∷ handler_type ∷ ts) none e = passed d d' key (ground arith)
init_statement-offer d d' key (t ∷ path ∷ handler_type ∷ ts) (some config) e =
    elim (Bool-cases (equal t (codes "location"))) [
      | inl is ↦ rw is (add_at-offer d d' config (trim_slashes path) handler_type (rw is at e) key)
      | inr other ↦ rw other (passed d d' key (rw other at e))
    ]

-- The offers of a statement and of those after it, over what was there before it and after it.
then_or_else :
    (o o1 : Option Handler) (m rest r : Built (Option Handler))
    → or_else m o ≡ built o1
    → or_else rest o1 ≡ r
    → or_else (m >>= or_else rest) o ≡ r
then_or_else none o1 m rest r now then_on = rw now then_on
then_or_else (some h) o1 m rest r now then_on =
    let same : some h ≡ o1 = cc in subst (λ o. or_else rest o ≡ r) (sym same) then_on

init_loop-assigned :
    (d d' : Dispatcher) (key : Bytes) (c : Config)
    → init_loop d c ≡ built d'
    → or_else (assigned key c) (lookup key d.handlers) ≡ built (lookup key d'.handlers)
unfolding init_loop assigned
init_loop-assigned d d' key nil e = passed d d' key e
init_loop-assigned d d' key (cons s rest) e =
    let (d1, first, later) =
      >>=-eq-built (init_statement d (tokens s) (child_block s)) (λ d1. init_loop d1 rest) e in
    let now = init_statement-offer d d1 key (tokens s) (child_block s) first in
    let then_on = init_loop-assigned d1 d' key rest later in
    then_or_else (lookup key d.handlers) (lookup key d1.handlers)
      (offer key (tokens s) (child_block s)) (assigned key rest) (built (lookup key d'.handlers))
      now then_on

with_root-lookup :
    (info : List (Bytes × Bytes)) (key : Bytes)
    → equal key root_path ≡ false
    → lookup key (with_root info).handlers ≡ none
unfolding lookup insert
with_root-lookup info key other = ground (arith, equal_iff key root_path, equal_iff root_path key)

-- Where `init_handlers` comes to its end, a path other than "/" has the handler that the first
-- `location` statement for it, with a handler type that is known, describes, and none where no
-- statement does: the statements stand in the order of the config, and their paths have the slashes
-- at the end taken off.
pub init_handlers-assigned :
    (info : List (Bytes × Bytes)) (c : Config) (d : Dispatcher) (key : Bytes)
    → init_handlers info c ≡ built d
    → equal key root_path ≡ false
    → assigned key c ≡ built (lookup key d.handlers)
unfolding init_handlers
init_handlers-assigned info c d key e other =
    subst (λ o. or_else (assigned key c) o ≡ built (lookup key d.handlers))
      (with_root-lookup info key other) (init_loop-assigned (with_root info) d key c e)
