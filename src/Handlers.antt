-- ===== src/Handlers.antt =====
-- The handlers, as what their constructors make of a `location` block: src/file_handler.cc,
-- src/proxy_handler.cc, src/echo_handler.cc, src/404_handler.cc, src/status_handler.cc,
-- src/sleep_handler.cc and src/health_handler.cc.
pub mod Kinds
pub mod Urls
pub mod Constructed
pub mod Slashes
use https_server.Prelude.{
  ℕ, zero, suc, ◌+◌, ◌-◌, true, false, not, ◌&&◌, List, [], ◌∷◌, Option, none, some, ◌==◌,
  if◌then◌else◌, Bytes, codes, equal, length,
}
use https_server.Config.{Config, nil, cons, tokens}
use https_server.StdString.{npos, find, find_from, find_at, starts_with, substr, back, pop_back}

pub data Handler : Type 0 where
  -- `prefix` and `root`
  file_handler : Bytes → Bytes → Handler
  echo_handler : Handler
  not_found_handler : Handler
  status_handler : Handler
  -- `prefix`, `host`, `path` and `port`
  proxy_handler : Bytes → Bytes → Bytes → Bytes → Handler
  sleep_handler : Handler
  health_handler : Handler

-- A computation that may throw, or be undefined.
pub data Built {ℓ} (A : Type ℓ) : Type ℓ where
  built : A → Built A
  threw : Built A
  undefined : Built A

infixl 5 ◌>>=◌
abbrev pub ◌>>=◌ {ℓ κ} : {A : Type ℓ} {B : Type κ} → Built A → (A → Built B) → Built B
built a >>= f = f a
threw >>= f = threw
undefined >>= f = undefined

abbrev pub or_threw {ℓ} : {A : Type ℓ} → Option A → Built A
or_threw none = threw
or_threw (some a) = built a

-- `statement->tokens_[0] == word && statement->tokens_.size() == 2`, and the second token then.
abbrev pub argument : Bytes → List Bytes → Built (Option Bytes)
argument word [] = undefined
argument word (t ∷ u ∷ []) = built (if equal t word then some u else none)
argument word (t ∷ _) = built none

-- The loop of `FileHandler::FileHandler`.
unfoldable pub file_root : Bytes → Config → Built Bytes
file_root root nil = built root
file_root root (cons s rest) = do
  found ← argument (codes "root") (tokens s)
  file_root (elim found [ none ↦ root | some value ↦ value ]) rest

unfoldable pub make_file_handler : Bytes → Config → Built Handler
unfolding file_root equal
make_file_handler location_path config = do
  root ← file_root (codes "/") config
  built (file_handler location_path root)

-- `remove_end_slash`; `s[s.length() - 1]` is undefined on the empty text. One call more than there
-- are bytes is enough.
pub remove_end_slash : ℕ → Bytes → Built Bytes
remove_end_slash zero s = undefined
remove_end_slash (suc fuel) s = elim (back s) [
  | none ↦ undefined
  | some c ↦ elim (c == b'/') [ true ↦ remove_end_slash fuel (pop_back s) | false ↦ built s ]
]

pub record Url : Type 0 where
  pub protocol : Bytes
  pub host : Bytes
  pub path : Bytes

abbrev pub url : Bytes → Bytes → Bytes → Url
url protocol host path = record { protocol = protocol; host = host; path = path }

-- `parse_url` behind `remove_end_slash`.
abbrev pub split_url : Bytes → Built Url
split_url modified_url =
    let host_start = find modified_url (codes "://") in
    if host_start == npos
    then built (url [] [] [])
    else (let pos_after_protocol = host_start + 3 in
        let pos_after_host = find_from modified_url (codes "/") pos_after_protocol in
        do
          protocol ← or_threw (substr modified_url 0 host_start)
          host ←
              or_threw
                (substr modified_url pos_after_protocol (pos_after_host - pos_after_protocol))
          path ←
              if not (pos_after_host == npos)
              then or_threw (substr modified_url pos_after_host npos)
              else built (codes "/")
          built (url protocol host path))

unfoldable pub parse_url : Bytes → Built Url
unfolding remove_end_slash find_at starts_with back pop_back
parse_url text = do modified_url ← remove_end_slash (suc (length text)) text; split_url modified_url

-- The members that the loop of `ProxyHandler::ProxyHandler` sets.
pub record Upstream : Type 0 where
  pub host : Bytes
  pub path : Bytes
  pub port : Bytes

-- `std::runtime_error` unless the protocol is `http` or `https`.
abbrev pub check_protocol : Upstream → Url → Built Upstream
check_protocol u components =
    if not (equal components.protocol (codes "http"))
      && not (equal components.protocol (codes "https"))
    then threw
    else built (record u { host = components.host; path = components.path })

-- A `host` statement.
abbrev pub set_host : Upstream → Bytes → Built Upstream
set_host u value = do components ← parse_url value; check_protocol u components

abbrev pub set_port : Upstream → Option Bytes → Upstream
set_port u none = u
set_port u (some value) = record u { port = value }

pub proxy_upstream : Upstream → Config → Built Upstream
proxy_upstream u nil = built u
proxy_upstream u (cons s rest) = do
  host ← argument (codes "host") (tokens s)
  port ← argument (codes "port") (tokens s)
  u' ← elim host [ none ↦ built (set_port u port) | some value ↦ set_host u value ]
  proxy_upstream u' rest

unfoldable pub make_proxy_handler : Bytes → Config → Built Handler
unfolding proxy_upstream parse_url equal
make_proxy_handler location_path config = do
  u ← proxy_upstream (record { host = []; path = []; port = [] }) config
  built (proxy_handler location_path u.host u.path u.port)
