-- ===== src/Dispatcher/Excluded.antt =====
-- A config that names no echo handler and no proxy gives a dispatcher without them.
use https_server.Prelude.{
  ◌≡◌, subst, false, List, [], ◌∷◌, Option, none, some, arith, Bytes, codes, equal, All, Bool-cases,
  inl, inr, ltb, ◌&&◌, length, take,
}
use https_server.Config.{Config}
use https_server.Dispatcher.{
  Dispatcher, make_handler, settle, count_added, init_handlers, trim_slashes, match_loop,
  get_request_handler,
}
use https_server.Dispatcher.Induction.{DescribesOnly, init_handlers-induction}
use https_server.Handlers.{Handler, built, make_file_handler, file_root}
use https_server.Handlers.Kinds.{EchoesOrProxies, OnBuilt, OnBuilt-bind, OnBuilt-everywhere}
use https_server.StdMap.Laws.{insert-All}
use https_server.StdMap.{lookup, insert}

-- The type of handler is neither of the two.
abbrev IsOther : Bytes → Type 0
IsOther handler_type =
    (equal handler_type (codes "EchoHandler") ≡ false)
    × (equal handler_type (codes "ProxyHandler") ≡ false)

abbrev pub WithoutEchoOrProxy : Config → Type 0
WithoutEchoOrProxy = DescribesOnly IsOther

abbrev pub HasNeither : Dispatcher → Type 0
HasNeither d = All (λ e. EchoesOrProxies e.1 → ⊥) d.handlers

abbrev MadeNeither : Option (Handler × Bytes) → Type 0
MadeNeither none = Unit
MadeNeither (some (h, n)) = EchoesOrProxies h → ⊥

make_file_handler-EchoesOrProxies :
    (path : Bytes) (config : Config)
    → OnBuilt (λ h. EchoesOrProxies h → ⊥) (make_file_handler path config)
unfolding make_file_handler
make_file_handler-EchoesOrProxies path config =
    OnBuilt-bind (λ r. Unit) _ (file_root (codes "/") config) _ (OnBuilt-everywhere _ _ (λ r. tt))
      (λ r _ p. p)

make_handler-MadeNeither :
    (handler_type path : Bytes) (config : Config)
    → IsOther handler_type
    → OnBuilt MadeNeither (make_handler handler_type path config)
unfolding make_handler
make_handler-MadeNeither handler_type path config (no_echo, no_proxy) =
    ground (arith, make_file_handler-EchoesOrProxies path config)

settle-HasNeither :
    (d : Dispatcher) (path : Bytes) (made : Option (Handler × Bytes))
    → HasNeither d
    → lookup path d.handlers ≡ none
    → MadeNeither made
    → HasNeither (count_added (settle d path made))
settle-HasNeither d path none h fresh n = h
settle-HasNeither d path (some (x, name)) h fresh n =
    insert-All (λ e. EchoesOrProxies e.1 → ⊥) path x d.handlers n h

pub init_handlers-HasNeither :
    (handler_info : List (Bytes × Bytes)) (config : Config) (d : Dispatcher)
    → WithoutEchoOrProxy config
    → init_handlers handler_info config ≡ built d
    → HasNeither d
unfolding insert
init_handlers-HasNeither handler_info config d n e =
    init_handlers-induction HasNeither MadeNeither IsOther make_handler-MadeNeither
      settle-HasNeither handler_info config d n ((λ p. p), tt) e

-- What the search finds is in the map.
match_loop-All {ℓ κ} :
    {A : Type ℓ} (P : A → Type κ) (path prefix : Bytes) (found : Option A) (m : List (Bytes × A))
    (a : A)
    → ((b : A) → found ≡ some b → P b)
    → All (λ e. P e.1) m
    → match_loop path prefix found m ≡ some a
    → P a
unfolding match_loop
match_loop-All P path prefix found [] a p h e = p a e
match_loop-All P path prefix found ((key, b) ∷ m) a p (q, h) e =
    elim (Bool-cases (equal (take (length key) path) key && ltb (length prefix) (length key))) [
      | inl t ↦ match_loop-All P path key (some b) m a (λ c same. subst P (cc) q) h (rw t at e)
      | inr f ↦ match_loop-All P path prefix found m a p h (rw f at e)
    ]

pub get_request_handler-HasNeither :
    (d : Dispatcher) (uri : Bytes) (h : Handler)
    → HasNeither d
    → get_request_handler d uri ≡ some h
    → (EchoesOrProxies h → ⊥)
unfolding get_request_handler
get_request_handler-HasNeither d uri h n e =
    match_loop-All (λ h. EchoesOrProxies h → ⊥) (trim_slashes uri) [] none d.handlers h
      (λ b same. cc) n e
