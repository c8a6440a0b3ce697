-- ===== src/Dispatcher/Register.antt =====
-- What `init_handlers` registers.
use https_server.Prelude.{
  ◌≡◌, ◌≢◌, refl, sym, subst, true, List, [], ◌∷◌, Option, none, some, arith, Bytes, codes, length,
  equal, equal_iff,
}
use https_server.Config.{Config}
use https_server.Dispatcher.{
  Dispatcher, make_handler, register, settle, count_added, root_path, with_root, init_handlers,
  get_request_handler,
}
use https_server.Dispatcher.Induction.{init_handlers-induction, DescribesOnly-everywhere}
use https_server.Dispatcher.Search.{get_request_handler-ne-none}
use https_server.Handlers.{Handler, not_found_handler, built}
use https_server.Handlers.Kinds.{name, OnBuilt, make_file_handler-name, make_proxy_handler-name}
use https_server.StdMap.{lookup, insert}
use https_server.StdMap.Laws.{lookup-insert, length-insert}

-- Every handler is listed under its name, as many are counted as there are, and "/" has the 404
-- handler.
pub record IsValid (d : Dispatcher) : Type 0 where
  pub named :
      (key : Bytes) (h : Handler)
      → lookup key d.handlers ≡ some h
      → lookup key d.handler_info ≡ some (name h)
  pub counted : d.regnum ≡ length d.handlers
  pub root : lookup root_path d.handlers ≡ some not_found_handler

abbrev Named : Option (Handler × Bytes) → Type 0
Named none = Unit
Named (some (h, n)) = n ≡ name h

make_handler-Named :
    (handler_type path : Bytes) (config : Config)
    → OnBuilt Named (make_handler handler_type path config)
unfolding make_handler
make_handler-Named handler_type path config =
    ground (arith, make_file_handler-name path config, make_proxy_handler-name path config)

register-IsValid :
    (d : Dispatcher) (path : Bytes) (h : Handler)
    → IsValid d
    → lookup path d.handlers ≡ none
    → IsValid (count_added (true, register path h (name h) d))
register-IsValid d path h v fresh = record {
  named = λ key g e. ground (
    arith,
    lookup-insert path key h d.handlers,
    lookup-insert path key (name h) d.handler_info,
    v.named key g,
  );
  counted = omega (arith, v.counted, length-insert path h d.handlers fresh);
  root = ground (arith, lookup-insert path root_path h d.handlers, equal_iff path root_path);
}

settle-IsValid :
    (d : Dispatcher) (path : Bytes) (made : Option (Handler × Bytes))
    → IsValid d
    → lookup path d.handlers ≡ none
    → Named made
    → IsValid (count_added (settle d path made))
settle-IsValid d path none v fresh e = v
settle-IsValid d path (some (h, n)) v fresh e =
    subst (λ n. IsValid (count_added (true, register path h n d))) (sym e)
      (register-IsValid d path h v fresh)

with_root-IsValid : (handler_info : List (Bytes × Bytes)) → IsValid (with_root handler_info)
unfolding lookup insert
with_root-IsValid handler_info = record {
  named = λ key g e.
      unfold equal in
      ground (
        arith,
        lookup-insert root_path key not_found_handler [],
        lookup-insert root_path key (codes "404Handler") handler_info,
      );
  counted = refl;
  root = unfold equal in refl;
}

-- A dispatcher that is built lists every handler under its name, counts its handlers, and has the
-- 404 handler at "/", whatever the config and whatever names were listed before.
pub init_handlers-IsValid :
    (handler_info : List (Bytes × Bytes)) (config : Config) (d : Dispatcher)
    → init_handlers handler_info config ≡ built d
    → IsValid d
init_handlers-IsValid handler_info config d e =
    init_handlers-induction IsValid Named (λ _. Unit)
      (λ handler_type path config _. make_handler-Named handler_type path config) settle-IsValid
      handler_info config d (DescribesOnly-everywhere config (λ _. tt))
      (with_root-IsValid handler_info) e

-- A dispatcher that is built has a handler, and no null pointer, for every URI that begins with a
-- slash.
pub init_handlers-get_request_handler :
    (handler_info : List (Bytes × Bytes)) (config : Config) (d : Dispatcher) (rest : Bytes)
    → init_handlers handler_info config ≡ built d
    → get_request_handler d (b'/' ∷ rest) ≢ none
init_handlers-get_request_handler handler_info config d rest e =
    get_request_handler-ne-none d not_found_handler rest
      (init_handlers-IsValid handler_info config d e).root
