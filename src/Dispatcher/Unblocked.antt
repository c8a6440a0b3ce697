-- ===== src/Dispatcher/Unblocked.antt =====
-- A `location` statement without a block in `init_handlers` of src/dispatcher.cc.
use https_server.Prelude.{◌≡◌, refl, ◌∙◌, List, ◌∷◌, Bytes, codes, equal}
use https_server.Config.Back.{append_config}
use https_server.Config.{Config, line, nil, cons, tokens, child_block}
use https_server.Dispatcher.{Dispatcher, init_statement, init_loop, with_root, init_handlers}
use https_server.Handlers.{Built, built, threw, undefined, ◌>>=◌}

>>=-split :
    (m : Built Dispatcher) (f g h : Dispatcher → Built Dispatcher)
    → ((d : Dispatcher) → h d ≡ (f d >>= g))
    → (m >>= h) ≡ ((m >>= f) >>= g)
>>=-split (built d) f g h e = e d
>>=-split threw f g h e = refl
>>=-split undefined f g h e = refl

-- What the statements behind others do.
init_loop-append_config :
    (d : Dispatcher) (c e : Config)
    → init_loop d (append_config c e) ≡ (init_loop d c >>= λ d'. init_loop d' e)
unfolding init_loop append_config
init_loop-append_config d nil e = refl
init_loop-append_config d (cons s c) e =
    >>=-split (init_statement d (tokens s) (child_block s)) (λ d'. init_loop d' c)
      (λ d'. init_loop d' e) (λ d'. init_loop d' (append_config c e))
      (λ d'. init_loop-append_config d' c e)

-- A config in which a statement that names a location and a handler has no block, as
-- "location /e EchoHandler;", behind others that are built, makes `init_handlers` do what is
-- undefined, whatever handler it names.
pub init_handlers-line :
    (info : List (Bytes × Bytes)) (before after : Config) (path handler_type : Bytes)
    (ts : List Bytes) (d : Dispatcher)
    → init_handlers info before ≡ built d
    → init_handlers info
        (append_config before (cons (line (codes "location" ∷ path ∷ handler_type ∷ ts)) after))
      ≡ undefined
unfolding init_handlers equal
init_handlers-line info before after path handler_type ts d e =
    init_loop-append_config (with_root info) before _ ∙ rw e refl
