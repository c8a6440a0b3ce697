-- ===== src/Handlers/Constructed.antt =====
-- Where the constructors of src/file_handler.cc and src/proxy_handler.cc come to their end.
use https_server.Prelude.{
  ◌≡◌, ◌≢◌, ◌⊎◌, refl, ap, subst, ◌∙◌, true, List, [], ◌∷◌, Option, none, some, Bytes, codes, equal,
  Bool-cases, inl, inr,
}
use https_server.Config.{Config, nil, cons, tokens}
use https_server.Handlers.{
  Built, built, ◌>>=◌, argument, file_root, make_file_handler, Url, parse_url, Upstream,
  check_protocol, set_host, set_port, proxy_upstream, make_proxy_handler,
}

-- Every statement of a block has a token.
abbrev pub HasTokens : Config → Type 0
HasTokens nil = Unit
HasTokens (cons s rest) = (tokens s ≢ []) × HasTokens rest

-- A `host` statement of a proxy gives a URL that `parse_url` takes apart, of the protocol `http` or
-- `https`.
abbrev pub HasHost : List Bytes → Type 0
HasHost (word ∷ value ∷ []) =
    equal word (codes "host") ≡ true
    → (u : Url) × (parse_url value ≡ built u)
      × ((equal u.protocol (codes "http") ≡ true) ⊎ (equal u.protocol (codes "https") ≡ true))
HasHost _ = Unit

abbrev pub HasHosts : Config → Type 0
HasHosts nil = Unit
HasHosts (cons s rest) = HasHost (tokens s) × HasHosts rest

abbrev pub IsBuilt : {A : Type 0} → Built A → Type 0
IsBuilt {A} r = (a : A) × (r ≡ built a)

pub IsBuilt-bind :
    {A B : Type 0} (m : Built A) (f : A → Built B)
    → IsBuilt m
    → ((a : A) → IsBuilt (f a))
    → IsBuilt (m >>= f)
IsBuilt-bind m f (a, e) h = let (b, k) = h a in (b, ap (λ m. m >>= f) e ∙ k)

IsBuilt-at :
    {A B : Type 0} (m : Built A) (f : A → Built B) (a : A)
    → m ≡ built a
    → IsBuilt (f a)
    → IsBuilt (m >>= f)
IsBuilt-at m f a e (b, k) = (b, ap (λ m. m >>= f) e ∙ k)

argument-IsBuilt : (word : Bytes) (ts : List Bytes) → ts ≢ [] → IsBuilt (argument word ts)
argument-IsBuilt word [] h = absurd (h refl)
argument-IsBuilt word (t ∷ []) h = (none, refl)
argument-IsBuilt word (t ∷ u ∷ []) h = (_, refl)
argument-IsBuilt word (t ∷ u ∷ v ∷ ts) h = (none, refl)

file_root-IsBuilt :
    (root : Bytes) (config : Config) → HasTokens config → IsBuilt (file_root root config)
unfolding file_root
file_root-IsBuilt root nil h = (root, refl)
file_root-IsBuilt root (cons s rest) (t, h) =
    IsBuilt-bind (argument (codes "root") (tokens s)) _
      (argument-IsBuilt (codes "root") (tokens s) t) (λ found. file_root-IsBuilt _ rest h)

pub make_file_handler-IsBuilt :
    (path : Bytes) (config : Config) → HasTokens config → IsBuilt (make_file_handler path config)
unfolding make_file_handler
make_file_handler-IsBuilt path config h =
    IsBuilt-bind _ _ (file_root-IsBuilt (codes "/") config h) (λ root. (_, refl))

check_protocol-IsBuilt :
    (u : Upstream) (components : Url)
    → (equal components.protocol (codes "http") ≡ true)
      ⊎ (equal components.protocol (codes "https") ≡ true)
    → IsBuilt (check_protocol u components)
check_protocol-IsBuilt u components (inl e) = rw e (_, refl)
check_protocol-IsBuilt u components (inr e) =
    elim (Bool-cases (equal components.protocol (codes "http"))) [
      | inl f ↦ rw f (_, refl)
      | inr f ↦ rw (e, f) (_, refl)
    ]

set_host-IsBuilt :
    (u : Upstream) (value : Bytes)
    → (components : Url) × (parse_url value ≡ built components)
      × ((equal components.protocol (codes "http") ≡ true)
          ⊎ (equal components.protocol (codes "https") ≡ true))
    → IsBuilt (set_host u value)
set_host-IsBuilt u value (components, e, known) =
    IsBuilt-at (parse_url value) (check_protocol u) components e
      (check_protocol-IsBuilt u components known)

-- By what `argument` finds in a statement.
found-IsBuilt :
    (u : Upstream) (ts : List Bytes) (port : Option Bytes) (found : Option Bytes)
    → HasHost ts
    → argument (codes "host") ts ≡ built found
    → IsBuilt (elim found [ none ↦ built (set_port u port) | some value ↦ set_host u value ])
found-IsBuilt u ts port none h e = (_, refl)
found-IsBuilt u [] port (some value) h e = cc
found-IsBuilt u (t ∷ []) port (some value) h e = cc
found-IsBuilt u (t ∷ v ∷ []) port (some value) h e = elim (Bool-cases (equal t (codes "host"))) [
  | inl k ↦
      let same : v ≡ value = cc (rw k at e) in
      subst (λ v. IsBuilt (set_host u v)) same (set_host-IsBuilt u v (h k))
  | inr k ↦ let absent : argument (codes "host") (t ∷ v ∷ []) ≡ built none = rw k refl in cc
]
found-IsBuilt u (t ∷ v ∷ w ∷ ts) port (some value) h e = cc

proxy_upstream-IsBuilt :
    (u : Upstream) (config : Config)
    → HasTokens config
    → HasHosts config
    → IsBuilt (proxy_upstream u config)
unfolding proxy_upstream
proxy_upstream-IsBuilt u nil t h = (u, refl)
proxy_upstream-IsBuilt u (cons s rest) (t, ts) (h, hs) =
    let (host, e) = argument-IsBuilt (codes "host") (tokens s) t in
    let (port, e') = argument-IsBuilt (codes "port") (tokens s) t in
    let (u', k) = found-IsBuilt u (tokens s) port host h e in
    IsBuilt-at (argument (codes "host") (tokens s)) _ host e (
      IsBuilt-at (argument (codes "port") (tokens s)) _ port e'
        (IsBuilt-at _ (λ u'. proxy_upstream u' rest) u' k (proxy_upstream-IsBuilt u' rest ts hs)))

pub make_proxy_handler-IsBuilt :
    (path : Bytes) (config : Config)
    → HasTokens config
    → HasHosts config
    → IsBuilt (make_proxy_handler path config)
unfolding make_proxy_handler
make_proxy_handler-IsBuilt path config t h =
    IsBuilt-bind _ _
      (proxy_upstream-IsBuilt (record { host = []; path = []; port = [] }) config t h)
      (λ u. (_, refl))
