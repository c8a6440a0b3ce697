-- ===== src/Main/Defined.antt =====
-- src/server_main.cc does nothing that is undefined, on the configs it is meant for.
use https_server.Prelude.{
  ℕ, ◌≡◌, ◌≢◌, refl, sym, subst, Bool, true, false, List, [], ◌∷◌, Option, none, some, Bytes, codes,
  equal,
}
use https_server.Config.{Config, nil}
use https_server.Dispatcher.Parsed.{HasBlocks, parse-init_handlers}
use https_server.Dispatcher.{init_handlers}
use https_server.Main.Settled.{step, settings-IsSettled}
use https_server.Main.{
  Host, Run, going, stopped, is_undefined, main, settings, start_servers, ◌>>=◌, parsed_config,
  parse_file, parse_opened, http_port, key_paths, ssl_port, initialised, or_throw, new_dispatcher,
  no_paths,
}
use https_server.Parser.Loop.{parse_total}
use https_server.Parser.{returned, parse}
use https_server.Settings.Results.{get_port_number-ne-undefined}
use https_server.Settings.{
  PortResult, found, not_found, threw, undefined, KeyPaths, get_port_number, get_key_path,
}

abbrev IsDefined : {A : Type 0} → Run A → Type 0
IsDefined (going a) = Unit
IsDefined (stopped why) = why ≢ is_undefined

IsDefined-bind :
    {A B : Type 0} (m : Run A) (f : A → Run B)
    → IsDefined m
    → ((a : A) → m ≡ going a → IsDefined (f a))
    → IsDefined (m >>= f)
IsDefined-bind (going a) f h k = k a refl
IsDefined-bind (stopped why) f h k = h

returned-IsDefined : (b : Bool) (c : Config) → IsDefined (parsed_config (returned b c))
returned-IsDefined true c = tt
returned-IsDefined false c = λ e. cc

parse_opened-IsDefined : (text : Option Bytes) → IsDefined (parsed_config (parse_opened nil text))
parse_opened-IsDefined none = λ e. cc
parse_opened-IsDefined (some text) =
    let (b, out, e) = parse_total text nil in
    subst (λ r. IsDefined (parsed_config r)) (sym e) (returned-IsDefined b out)

http_port-IsDefined : (r : PortResult) → r ≢ undefined → IsDefined (http_port r)
http_port-IsDefined (found n) h = tt
http_port-IsDefined not_found h = λ e. cc
http_port-IsDefined threw h = λ e. cc
http_port-IsDefined undefined h = absurd (h refl)

key_paths-IsDefined : (o : Option (Bool × KeyPaths)) → IsDefined (key_paths o)
key_paths-IsDefined none = λ e. cc
key_paths-IsDefined (some (b, paths)) = tt

ssl_port-IsDefined :
    (config : Config) (r : PortResult) → r ≢ undefined → IsDefined (ssl_port config r)
ssl_port-IsDefined config (found n) h =
    IsDefined-bind (key_paths (get_key_path no_paths config)) _
      (key_paths-IsDefined (get_key_path no_paths config)) (λ paths e. tt)
ssl_port-IsDefined config not_found h = tt
ssl_port-IsDefined config threw h = λ e. cc
ssl_port-IsDefined config undefined h = absurd (h refl)

-- A port that was found is a variable that is set.
ssl_port-initialised :
    (config : Config) (r : PortResult) (o : Option ℕ)
    → r ≢ not_found
    → ssl_port config r ≡ going o
    → IsDefined (initialised o)
ssl_port-initialised config r (some n) h e = tt
ssl_port-initialised config (found n) none h e =
    step (key_paths (get_key_path no_paths config)) _ e (λ paths k same. cc)
ssl_port-initialised config not_found none h e = absurd (h refl)
ssl_port-initialised config threw none h e = cc
ssl_port-initialised config undefined none h e = cc

or_throw-IsDefined : (b : Bool) → IsDefined (or_throw b)
or_throw-IsDefined true = tt
or_throw-IsDefined false = λ e. cc

start_servers-IsDefined :
    (host : Host) (text : Bytes) (config : Config) (port : ℕ) (o : Option ℕ)
    → parse text nil ≡ returned true config
    → HasBlocks config
    → IsDefined (initialised o)
    → IsDefined (start_servers host config port o)
unfolding start_servers
start_servers-IsDefined host text config port o parsed blocks set =
    let made =
      λ (info : List (Bytes × Bytes)). parse-init_handlers text config info parsed blocks in
    let new_dispatcher-IsDefined : (info : List (Bytes × Bytes))
        → IsDefined (new_dispatcher (init_handlers info config)) =
      λ info. subst (λ r. IsDefined (new_dispatcher r)) (sym (made info).1) tt in
    IsDefined-bind (or_throw (host.can_bind [] port)) _ (or_throw-IsDefined _) (λ u e.
      IsDefined-bind (new_dispatcher (init_handlers [] config)) _ (new_dispatcher-IsDefined [])
        (λ d e. IsDefined-bind (initialised o) _ set (λ n e.
          IsDefined-bind (or_throw (host.can_bind (port ∷ []) n)) _ (or_throw-IsDefined _) (λ u e.
            IsDefined-bind (key_paths (get_key_path no_paths config)) _ (key_paths-IsDefined _)
              (λ paths e.
                IsDefined-bind
                  (or_throw (
                    host.loads_keys (host.filename paths.ssl_public_path)
                      (host.filename paths.ssl_private_path)))
                  _ (or_throw-IsDefined _)
                  (λ u e.
                    IsDefined-bind (new_dispatcher (init_handlers d.handler_info config)) _
                      (new_dispatcher-IsDefined d.handler_info) (λ d' e. tt)))))))

settings-IsDefined : (host : Host) (file_name : Bytes) → IsDefined (settings host (file_name ∷ []))
unfolding settings equal
settings-IsDefined host file_name =
    IsDefined-bind (parsed_config (parse_file host file_name nil)) _
      (parse_opened-IsDefined (host.read_config file_name))
      (λ c e.
        IsDefined-bind (http_port (get_port_number c (codes "HTTP"))) _
          (http_port-IsDefined _
            (get_port_number-ne-undefined c (codes "HTTP") (codes "listen") refl))
          (λ port e.
            IsDefined-bind (ssl_port c (get_port_number c (codes "HTTPS"))) _
              (ssl_port-IsDefined c _
                (get_port_number-ne-undefined c (codes "HTTPS") (codes "ssl-port") refl))
              (λ o e. tt)))

IsDefined-ne : {A : Type 0} (m : Run A) → IsDefined m → m ≢ stopped is_undefined
IsDefined-ne (going a) h = λ e. cc
IsDefined-ne (stopped why) h = λ e. h (cc)

-- `main` does nothing that is undefined, on a file that does not open or parse, or a config in
-- which each statement that names a location and a handler has a block, each `host` statement in
-- the block of a proxy has a URL of `http` or `https`, and on which `GetPortNumber` does not return
-- false for HTTPS: it comes to serve, or ends with an exit code.
pub main_defined :
    (host : Host) (file_name : Bytes)
    → ((text : Bytes) (config : Config)
        → host.read_config file_name ≡ some text
        → parse text nil ≡ returned true config
        → HasBlocks config × (get_port_number config (codes "HTTPS") ≢ not_found))
    → main host (file_name ∷ []) ≢ stopped is_undefined
unfolding main
main_defined host file_name good =
    let chain =
      IsDefined-bind (settings host (file_name ∷ [])) _ (settings-IsDefined host file_name)
        (λ settled e.
          let (text, is_read, parsed, has_http, set) =
            settings-IsSettled host file_name settled e in
          let (blocks, has_port) = good text settled.0 is_read parsed in
          IsDefined-bind (start_servers host settled.0 settled.1 settled.2) _
            (start_servers-IsDefined host text settled.0 settled.1 settled.2 parsed blocks
              (ssl_port-initialised settled.0 _ settled.2 has_port set))
            (λ made e. tt)) in
    IsDefined-ne (main host (file_name ∷ [])) chain
