-- ===== src/Dispatcher.antt =====
-- src/dispatcher.cc and include/dispatcher.h, with `session::get_handler_name` of src/session.cc,
-- which is the same search over `Dispatcher::handler_info`.
pub mod Paths
pub mod Search
pub mod Register
pub mod Total
pub mod Excluded
pub mod Parsed
pub mod Unblocked
pub mod Induction
pub mod Assigned
pub mod Routed
use https_server.Prelude.{
  ℕ, zero, suc, ◌+◌, Bool, true, false, not, ◌&&◌, List, [], ◌∷◌, Option, none, some, ltb,
  if◌then◌else◌, Bytes, codes, equal, length, take,
}
use https_server.Config.{Config, nil, cons, tokens, child_block}
use https_server.Handlers.{
  Handler, echo_handler, not_found_handler, status_handler, sleep_handler, health_handler, Built,
  built, undefined, ◌>>=◌, make_file_handler, make_proxy_handler,
}
use https_server.StdMap.{lookup, insert}
use https_server.StdString.{back, pop_back, is_slash}

-- while (path.length() > 1 && path.back() == '/') path.pop_back();
-- Each round takes a byte, so one round more than there are bytes is enough.
pub trim_loop : ℕ → Bytes → Bytes
trim_loop zero path = path
trim_loop (suc fuel) path =
    let shorter = trim_loop fuel (pop_back path) in
    if ltb 1 (length path) && is_slash (back path) then shorter else path

unfoldable pub trim_slashes : Bytes → Bytes
unfolding trim_loop back pop_back
trim_slashes path = trim_loop (suc (length path)) path

-- The loop over a map that keeps the longest prefix; the map's values are handlers or their names.
pub match_loop {ℓ} : {A : Type ℓ} → Bytes → Bytes → Option A → List (Bytes × A) → Option A
match_loop path prefix found [] = found
match_loop path prefix found ((key, a) ∷ m) =
    let longer = equal (take (length key) path) key && ltb (length prefix) (length key) in
    match_loop path (if longer then key else prefix) (if longer then some a else found) m

-- The members of a dispatcher, and the static map `handler_info`.
pub record Dispatcher : Type 0 where
  pub handlers : List (Bytes × Handler)
  pub regnum : ℕ
  pub handler_info : List (Bytes × Bytes)

-- `none` is the null pointer.
unfoldable pub get_request_handler : Dispatcher → Bytes → Option Handler
unfolding match_loop equal trim_slashes
get_request_handler d uri = match_loop (trim_slashes uri) [] none d.handlers

-- `session::get_handler_name`; `handler_name` is empty at first.
abbrev pub name_or_empty : Option Bytes → Bytes
name_or_empty none = []
name_or_empty (some name) = name

unfoldable pub get_handler_name : Dispatcher → Bytes → Bytes
unfolding match_loop equal trim_slashes
get_handler_name d uri = name_or_empty (match_loop (trim_slashes uri) [] none d.handler_info)

-- The ladder on `handler_type`: the handler and its name, or `none` for an unknown type.
pub make_handler : Bytes → Bytes → Config → Built (Option (Handler × Bytes))
make_handler handler_type path config =
    if equal handler_type (codes "FileHandler")
    then (do h ← make_file_handler path config; built (some (h, codes "FileHandler")))
    else if equal handler_type (codes "EchoHandler")
    then built (some (echo_handler, codes "EchoHandler"))
    else if equal handler_type (codes "404Handler")
    then built (some (not_found_handler, codes "404Handler"))
    else if equal handler_type (codes "StatusHandler")
    then built (some (status_handler, codes "StatusHandler"))
    else if equal handler_type (codes "ProxyHandler")
    then (do h ← make_proxy_handler path config; built (some (h, codes "ProxyHandler")))
    else if equal handler_type (codes "SleepHandler")
    then built (some (sleep_handler, codes "SleepHandler"))
    else if equal handler_type (codes "HealthHandler")
    then built (some (health_handler, codes "HealthHandler"))
    else built none

-- `handlers_[path] = h; handler_info[path] = name;`
abbrev pub register : Bytes → Handler → Bytes → Dispatcher → Dispatcher
register path h name d = record d {
  handlers = insert path h d.handlers;
  handler_info = insert path name d.handler_info;
}

-- The end of the ladder: an unknown type changes nothing.
abbrev pub settle : Dispatcher → Bytes → Option (Handler × Bytes) → Bool × Dispatcher
settle d path none = (false, d)
settle d path (some (h, name)) = (true, register path h name d)

-- `add_handler` on the trimmed path.
pub add_at : Dispatcher → Config → Bytes → Bytes → Built (Bool × Dispatcher)
add_at d config path handler_type = elim (lookup path d.handlers) [
  | some h ↦ built (false, d)
  | none ↦ do made ← make_handler handler_type path config; built (settle d path made)
]

unfoldable pub add_handler : Dispatcher → Config → Bytes → Bytes → Built (Bool × Dispatcher)
unfolding add_at make_handler make_file_handler make_proxy_handler lookup insert equal trim_slashes
add_handler d config path handler_type = add_at d config (trim_slashes path) handler_type

-- `if (add_handler(…)) reg_num++;`
abbrev pub count_added : Bool × Dispatcher → Dispatcher
count_added (added, d) = if added then record d { regnum = d.regnum + 1 } else d

-- The body of the loop of `init_handlers`, on the statement's tokens and its child block. Tokens
-- that are not there and a null child block are undefined behaviour. The first test lets a short
-- `listen` through, and the second stops it.
abbrev pub init_statement : Dispatcher → List Bytes → Option Config → Built Dispatcher
init_statement d [] child = undefined
init_statement d (t ∷ path ∷ handler_type ∷ ts) child =
    if not (equal t (codes "location")) then built d else elim child [
      | none ↦ undefined
      | some config ↦ do result ← add_handler d config path handler_type; built (count_added result)
    ]
init_statement d (t ∷ ts) child =
    if not (equal t (codes "listen"))
    then built d
    else if not (equal t (codes "location"))
    then built d
    else undefined

pub init_loop : Dispatcher → Config → Built Dispatcher
init_loop d nil = built d
init_loop d (cons s rest) = do d' ← init_statement d (tokens s) (child_block s); init_loop d' rest

-- The path of the handler that is always there.
abbrev pub root_path : Bytes
root_path = codes "/"

-- A new dispatcher, with the 404 handler at "/"; `handler_info` is as earlier dispatchers left it.
abbrev pub with_root : List (Bytes × Bytes) → Dispatcher
with_root handler_info = record {
  handlers = insert root_path not_found_handler [];
  regnum = 1;
  handler_info = insert root_path (codes "404Handler") handler_info;
}

-- The constructor and `init_handlers`.
unfoldable pub init_handlers : List (Bytes × Bytes) → Config → Built Dispatcher
unfolding init_loop add_handler
init_handlers handler_info config = init_loop (with_root handler_info) config
