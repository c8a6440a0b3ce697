-- ===== src/Dispatcher/Induction.antt =====
-- What every handler that `init_handlers` of src/dispatcher.cc adds keeps, the dispatcher keeps.
use https_server.Prelude.{
  ◌≡◌, subst, true, List, [], ◌∷◌, Option, none, some, arith, Bytes, codes, equal, inl, inr,
  Bool-cases, Option-cases,
}
use https_server.Config.{Config, nil, cons, tokens, child_block}
use https_server.Dispatcher.{
  Dispatcher, make_handler, settle, add_at, add_handler, count_added, init_statement, init_loop,
  init_handlers, with_root, trim_slashes,
}
use https_server.Handlers.{Handler, built, ◌>>=◌}
use https_server.Handlers.Kinds.{OnBuilt, OnBuilt-bind}
use https_server.StdMap.{lookup}

-- A statement that names a location and a handler names one of a permitted type.
abbrev pub NamesOnly : (Bytes → Type 0) → List Bytes → Type 0
NamesOnly Permitted (t ∷ path ∷ handler_type ∷ ts) =
    equal t (codes "location") ≡ true → Permitted handler_type
NamesOnly Permitted _ = Unit

abbrev pub DescribesOnly : (Bytes → Type 0) → Config → Type 0
DescribesOnly Permitted nil = Unit
DescribesOnly Permitted (cons s rest) =
    NamesOnly Permitted (tokens s) × DescribesOnly Permitted rest

NamesOnly-everywhere : {P : Bytes → Type 0} (ts : List Bytes) → ((b : Bytes) → P b) → NamesOnly P ts
NamesOnly-everywhere [] h = tt
NamesOnly-everywhere (t ∷ []) h = tt
NamesOnly-everywhere (t ∷ path ∷ []) h = tt
NamesOnly-everywhere (t ∷ path ∷ handler_type ∷ ts) h = λ _. h handler_type

pub DescribesOnly-everywhere :
    {P : Bytes → Type 0} (c : Config) → ((b : Bytes) → P b) → DescribesOnly P c
DescribesOnly-everywhere nil h = tt
DescribesOnly-everywhere (cons s rest) h =
    (NamesOnly-everywhere (tokens s) h, DescribesOnly-everywhere rest h)

-- `Made` holds of what is made for a permitted type, and `P` is kept where such a handler is added
-- under a path that has none.
module _ (P : Dispatcher → Type 0) (Made : Option (Handler × Bytes) → Type 0)
    (Permitted : Bytes → Type 0)
    (makes : (handler_type path : Bytes) (config : Config)
      → Permitted handler_type
      → OnBuilt Made (make_handler handler_type path config))
    (keeps : (d : Dispatcher) (path : Bytes) (made : Option (Handler × Bytes))
      → P d
      → lookup path d.handlers ≡ none
      → Made made
      → P (count_added (settle d path made))) where
  add_at-induction :
      (d : Dispatcher) (config : Config) (path handler_type : Bytes)
      → Permitted handler_type
      → P d
      → OnBuilt (λ r. P (count_added r)) (add_at d config path handler_type)
  unfolding add_at
  add_at-induction d config path handler_type permitted p =
      elim (Option-cases (lookup path d.handlers)) [
        | inl fresh ↦
            rw (fresh, add_at)
              (OnBuilt-bind Made (λ r. P (count_added r)) (make_handler handler_type path config)
                (λ made. built (settle d path made)) (makes handler_type path config permitted)
                (λ made q. keeps d path made p fresh q))
        | inr (h, old) ↦ rw (old, add_at) p
      ]

  add_handler-induction :
      (d : Dispatcher) (config : Config) (path handler_type : Bytes)
      → Permitted handler_type
      → P d
      → OnBuilt P (add_handler d config path handler_type >>= λ r. built (count_added r))
  unfolding add_handler
  add_handler-induction d config path handler_type permitted p =
      OnBuilt-bind (λ r. P (count_added r)) P (add_at d config (trim_slashes path) handler_type)
        (λ r. built (count_added r))
        (add_at-induction d config (trim_slashes path) handler_type permitted p) (λ r h. h)

  init_statement-induction :
      (d : Dispatcher) (ts : List Bytes) (child : Option Config)
      → NamesOnly Permitted ts
      → P d
      → OnBuilt P (init_statement d ts child)
  init_statement-induction d [] child n p = tt
  init_statement-induction d (t ∷ []) child n p = ground arith
  init_statement-induction d (t ∷ path ∷ []) child n p = ground arith
  init_statement-induction d (t ∷ path ∷ handler_type ∷ ts) none n p = ground arith
  init_statement-induction d (t ∷ path ∷ handler_type ∷ ts) (some config) n p =
      elim (Bool-cases (equal t (codes "location"))) [
        | inl e ↦ rw e (add_handler-induction d config path handler_type (n e) p)
        | inr e ↦ rw e p
      ]

  init_loop-induction :
      (d : Dispatcher) (c : Config) → DescribesOnly Permitted c → P d → OnBuilt P (init_loop d c)
  unfolding init_loop
  init_loop-induction d nil n p = p
  init_loop-induction d (cons s rest) (n, ns) p =
      OnBuilt-bind P P (init_statement d (tokens s) (child_block s)) (λ d'. init_loop d' rest)
        (init_statement-induction d (tokens s) (child_block s) n p)
        (λ d' p'. init_loop-induction d' rest ns p')

  pub init_handlers-induction :
      (info : List (Bytes × Bytes)) (c : Config) (d : Dispatcher)
      → DescribesOnly Permitted c
      → P (with_root info)
      → init_handlers info c ≡ built d
      → P d
  unfolding init_handlers
  init_handlers-induction info c d n p e =
      subst (OnBuilt P) e (init_loop-induction (with_root info) c n p)
