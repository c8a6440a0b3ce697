-- ===== src/Dispatcher/Total.antt =====
-- `init_handlers` of src/dispatcher.cc comes to its end.
use https_server.Prelude.{
  ◌≡◌, ◌≢◌, Bool, refl, true, false, not, List, [], ◌∷◌, Option, none, some, if◌then◌else◌, Bytes,
  codes, equal, equal_iff, subst,
}
use https_server.Config.{Config, nil, cons, tokens, child_block}
use https_server.Dispatcher.{
  Dispatcher, make_handler, add_at, add_handler, init_statement, init_loop, init_handlers,
  with_root, trim_slashes,
}
use https_server.Handlers.{Built, built}
use https_server.Handlers.Constructed.{
  HasTokens, HasHosts, IsBuilt, IsBuilt-bind, make_file_handler-IsBuilt, make_proxy_handler-IsBuilt,
}
use https_server.StdMap.{lookup}

-- A statement has a token; one that names a location and a handler has a block whose statements
-- have tokens, and a proxy has hosts in it.
abbrev pub IsSafe : List Bytes → Option Config → Type 0
IsSafe [] child = ⊥
IsSafe (t ∷ path ∷ handler_type ∷ ts) (some config) =
    equal t (codes "location") ≡ true
    → (equal handler_type (codes "ProxyHandler") ≡ true → HasHosts config) × HasTokens config
IsSafe (t ∷ path ∷ handler_type ∷ ts) none = equal t (codes "location") ≡ false
IsSafe (t ∷ ts) child = Unit

abbrev pub AllSafe : Config → Type 0
AllSafe nil = Unit
AllSafe (cons s rest) = IsSafe (tokens s) (child_block s) × AllSafe rest

IsBuilt-if :
    {A : Type 0} (b : Bool) (m n : Built A) → IsBuilt m → IsBuilt n → IsBuilt (if b then m else n)
IsBuilt-if true m n h k = h
IsBuilt-if false m n h k = k

IsBuilt-unless :
    {A : Type 0} (b : Bool) (m n : Built A)
    → IsBuilt m
    → (b ≡ true → IsBuilt n)
    → IsBuilt (if not b then m else n)
IsBuilt-unless true m n h k = k refl
IsBuilt-unless false m n h k = h

IsBuilt-then :
    {A : Type 0} (b : Bool) (m n : Built A)
    → (b ≡ true → IsBuilt m)
    → IsBuilt n
    → IsBuilt (if b then m else n)
IsBuilt-then true m n h k = h refl
IsBuilt-then false m n h k = k

IsBuilt-present :
    {A B : Type 0} (found : Option A) (b : B) (m : Built B)
    → IsBuilt m
    → IsBuilt (elim found [ some a ↦ built b | none ↦ m ])
IsBuilt-present none b m h = h
IsBuilt-present (some a) b m h = (b, refl)

make_handler-IsBuilt :
    (handler_type path : Bytes) (config : Config)
    → (equal handler_type (codes "ProxyHandler") ≡ true → HasHosts config)
    → HasTokens config
    → IsBuilt (make_handler handler_type path config)
unfolding make_handler
make_handler-IsBuilt handler_type path config hosts h =
    let is = λ (word : Bytes). equal handler_type word in
    let made_file = IsBuilt-bind _ _ (make_file_handler-IsBuilt path config h) (λ h. (_, refl)) in
    let made_proxy = λ (e : is (codes "ProxyHandler") ≡ true).
      IsBuilt-bind _ _ (make_proxy_handler-IsBuilt path config h (hosts e)) (λ h. (_, refl)) in
    IsBuilt-if (is (codes "FileHandler")) _ _ made_file (
      IsBuilt-if (is (codes "EchoHandler")) _ _ (_, refl)
        (IsBuilt-if (is (codes "404Handler")) _ _ (_, refl)
          (IsBuilt-if (is (codes "StatusHandler")) _ _ (_, refl)
            (IsBuilt-then (is (codes "ProxyHandler")) _ _ made_proxy (
              IsBuilt-if (is (codes "SleepHandler")) _ _ (_, refl)
                (IsBuilt-if (is (codes "HealthHandler")) _ _ (_, refl) (_, refl)))))))

add_at-IsBuilt :
    (d : Dispatcher) (config : Config) (path handler_type : Bytes)
    → (equal handler_type (codes "ProxyHandler") ≡ true → HasHosts config)
    → HasTokens config
    → IsBuilt (add_at d config path handler_type)
unfolding add_at
add_at-IsBuilt d config path handler_type hosts h =
    IsBuilt-present (lookup path d.handlers) _ _
      (IsBuilt-bind _ _ (make_handler-IsBuilt handler_type path config hosts h) (λ made. (_, refl)))

not_both : (t : Bytes) → equal t (codes "listen") ≡ true → equal t (codes "location") ≢ true
unfolding equal
not_both t e k =
    let different : false ≡ true =
      subst (λ s. equal s (codes "location") ≡ true) ((equal_iff t (codes "listen")).0 e) k in
    cc

init_statement-IsBuilt :
    (d : Dispatcher) (ts : List Bytes) (child : Option Config)
    → IsSafe ts child
    → IsBuilt (init_statement d ts child)
unfolding add_handler
init_statement-IsBuilt d [] child h = absurd h
init_statement-IsBuilt d (t ∷ []) child h =
    IsBuilt-unless _ _ _ (_, refl)
      (λ e. IsBuilt-unless _ _ _ (_, refl) (λ k. absurd (not_both t e k)))
init_statement-IsBuilt d (t ∷ u ∷ []) child h =
    IsBuilt-unless _ _ _ (_, refl)
      (λ e. IsBuilt-unless _ _ _ (_, refl) (λ k. absurd (not_both t e k)))
init_statement-IsBuilt d (t ∷ path ∷ handler_type ∷ ts) none h =
    IsBuilt-unless _ _ _ (_, refl) (λ (e : equal t (codes "location") ≡ true). absurd (cc))
init_statement-IsBuilt d (t ∷ path ∷ handler_type ∷ ts) (some config) h =
    IsBuilt-unless _ _ _ (_, refl)
      (λ e.
        let (hosts, safe) = h e in
        IsBuilt-bind _ _ (add_at-IsBuilt d config (trim_slashes path) handler_type hosts safe)
          (λ result. (_, refl)))

init_loop-IsBuilt : (d : Dispatcher) (c : Config) → AllSafe c → IsBuilt (init_loop d c)
unfolding init_loop
init_loop-IsBuilt d nil h = (d, refl)
init_loop-IsBuilt d (cons s rest) (h, k) =
    IsBuilt-bind _ _ (init_statement-IsBuilt d (tokens s) (child_block s) h)
      (λ d'. init_loop-IsBuilt d' rest k)

-- A config is built into a dispatcher, with no exception and nothing undefined, where each
-- statement has a token, each one that names a location and a handler has a block, the statements
-- of that block have tokens, and each `host` statement in the block of a proxy has a URL of `http`
-- or `https`.
pub init_handlers_total :
    (handler_info : List (Bytes × Bytes)) (c : Config)
    → AllSafe c
    → (d : Dispatcher) × (init_handlers handler_info c ≡ built d)
unfolding init_handlers
init_handlers_total handler_info c h = init_loop-IsBuilt (with_root handler_info) c h
