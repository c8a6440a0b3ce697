-- ===== src/Main/Starts.antt =====
-- When src/server_main.cc comes to serve.
use https_server.Prelude.{
  ℕ, ◌≡◌, ◌↔◌, refl, ap, sym, subst, ◌∙◌, Bool, true, false, [], ◌∷◌, Option, none, some, Bytes,
  codes,
}
use https_server.Config.{Config, nil}
use https_server.Dispatcher.{Dispatcher, init_handlers}
use https_server.Handlers.{Built, built, threw, undefined}
use https_server.Main.Settled.{step, settings-IsSettled}
use https_server.Main.{
  settings, start_servers, http_port, key_paths, ssl_port, initialised, or_throw, new_dispatcher,
  Host, going, Program, main, no_paths,
}
use https_server.Parser.{returned, parse}
use https_server.Server.{new_server}
use https_server.Settings.{PortResult, not_found, KeyPaths, found, get_port_number, get_key_path}

-- The program that serves on two ports, as a config file and the host have it.
pub record Starts (host : Host) (file_name : Bytes) (port ssl_port : ℕ) (program : Program)
    : Type 0 where
  pub text : Bytes
  pub config : Config
  pub is_read : host.read_config file_name ≡ some text
  pub is_parsed : parse text nil ≡ returned true config
  pub has_port : get_port_number config (codes "HTTP") ≡ found port
  pub has_ssl_port : get_port_number config (codes "HTTPS") ≡ found ssl_port
  pub is_bound : host.can_bind [] port ≡ true
  pub is_ssl_bound : host.can_bind (port ∷ []) ssl_port ≡ true
  pub is_found : Bool
  pub paths : KeyPaths
  pub has_paths : get_key_path no_paths config ≡ some (is_found, paths)
  pub is_loaded :
      host.loads_keys (host.filename paths.ssl_public_path) (host.filename paths.ssl_private_path)
      ≡ true
  pub dispatcher : Dispatcher
  pub ssl_dispatcher : Dispatcher
  pub has_dispatcher : init_handlers [] config ≡ built dispatcher
  pub has_ssl_dispatcher : init_handlers dispatcher.handler_info config ≡ built ssl_dispatcher
  pub is_program : program ≡ record {
    metrics = record { request_count = 0; handled_requests = [] };
    http_server = new_server (codes "http") dispatcher;
    https_server = new_server (codes "https") ssl_dispatcher;
  }

Starts-main :
    (host : Host) (file_name : Bytes) (port ssl_port : ℕ) (program : Program)
    → Starts host file_name port ssl_port program
    → main host (file_name ∷ []) ≡ going (port, ssl_port, program)
unfolding main
Starts-main host file_name port ssl_number program s =
    rw
      (
        s.is_read, s.is_parsed, s.has_port, s.has_ssl_port, s.has_paths, s.is_bound,
        s.has_dispatcher, s.is_ssl_bound, s.has_paths, s.is_loaded, s.has_ssl_dispatcher,
      )
      (ap (λ p. going (port, ssl_number, p)) (sym s.is_program))

http_port-going : (r : PortResult) (n : ℕ) → http_port r ≡ going n → r ≡ found n
http_port-going (found m) n h = cc
http_port-going not_found n h = cc
http_port-going PortResult.threw n h = cc
http_port-going PortResult.undefined n h = cc

key_paths-going :
    (o : Option (Bool × KeyPaths)) (paths : KeyPaths)
    → key_paths o ≡ going paths
    → (is_found : Bool) × (o ≡ some (is_found, paths))
key_paths-going none paths h = cc
key_paths-going (some (b, p)) paths h = (b, let same : p ≡ paths = cc in ap (λ p. some (b, p)) same)

ssl_port-going :
    (config : Config) (r : PortResult) (o : Option ℕ) (n : ℕ)
    → ssl_port config r ≡ going o
    → initialised o ≡ going n
    → r ≡ found n
ssl_port-going config (found m) o n h k =
    step (key_paths (get_key_path no_paths config)) _ h (λ paths e same. cc)
ssl_port-going config not_found o n h k = let same : none ≡ o = cc in cc
ssl_port-going config PortResult.threw o n h k = cc
ssl_port-going config PortResult.undefined o n h k = cc

or_throw-going : (b : Bool) (u : Unit {0}) → or_throw b ≡ going u → b ≡ true
or_throw-going true u h = refl
or_throw-going false u h = cc

new_dispatcher-going :
    (r : Built Dispatcher) (d : Dispatcher) → new_dispatcher r ≡ going d → r ≡ built d
new_dispatcher-going (built d') d h = cc
new_dispatcher-going threw d h = cc
new_dispatcher-going undefined d h = cc

-- What the first half of `main` has found, with a port of HTTPS that is set.
record HasSettings (host : Host) (file_name : Bytes) (config : Config) (port ssl_port : ℕ)
    : Type 0 where
  text : Bytes
  is_read : host.read_config file_name ≡ some text
  is_parsed : parse text nil ≡ returned true config
  has_port : get_port_number config (codes "HTTP") ≡ found port
  has_ssl_port : get_port_number config (codes "HTTPS") ≡ found ssl_port

settings-HasSettings :
    (host : Host) (file_name : Bytes) (config : Config) (port : ℕ) (o : Option ℕ) (n : ℕ)
    → settings host (file_name ∷ []) ≡ going (config, port, o)
    → initialised o ≡ going n
    → HasSettings host file_name config port n
settings-HasSettings host file_name config port o n h k =
    let (text, is_read, is_parsed, e, e') = settings-IsSettled host file_name (config, port, o) h in
    record {
      text = text;
      is_read = is_read;
      is_parsed = is_parsed;
      has_port = http_port-going _ port e;
      has_ssl_port = ssl_port-going config _ o n e' k;
    }

-- The second half, where it comes to an end.
start_servers-Starts :
    (host : Host) (file_name : Bytes) (config : Config) (port : ℕ) (o : Option ℕ) (n : ℕ)
    (program : Program)
    → start_servers host config port o ≡ going (n, program)
    → ((m : ℕ) → initialised o ≡ going m → HasSettings host file_name config port m)
    → Starts host file_name port n program
unfolding start_servers
start_servers-Starts host file_name config port o n program h has =
    step (or_throw (host.can_bind [] port)) _ h (λ u1 e1 h1.
      step (new_dispatcher (init_handlers [] config)) _ h1 (λ d e2 h2.
        step (initialised o) _ h2 (λ q e3 h3.
          step (or_throw (host.can_bind (port ∷ []) q)) _ h3 (λ u4 e4 h4.
            step (key_paths (get_key_path no_paths config)) _ h4 (λ paths e5 h5.
              step
                (or_throw (
                  host.loads_keys (host.filename paths.ssl_public_path)
                    (host.filename paths.ssl_private_path)))
                _ h5
                (λ u6 e6 h6.
                  step (new_dispatcher (init_handlers d.handler_info config)) _ h6 (λ d' e7 h7.
                    let s = has q e3 in
                    let (is_found, has_paths) = key_paths-going _ paths e5 in
                    let same : q ≡ n = cc in
                    subst (λ n. Starts host file_name port n program) same
                      (record {
                        text = s.text;
                        config = config;
                        is_read = s.is_read;
                        is_parsed = s.is_parsed;
                        has_port = s.has_port;
                        has_ssl_port = s.has_ssl_port;
                        is_bound = or_throw-going _ u1 e1;
                        is_ssl_bound = or_throw-going _ u4 e4;
                        is_found = is_found;
                        paths = paths;
                        has_paths = has_paths;
                        is_loaded = or_throw-going _ u6 e6;
                        dispatcher = d;
                        ssl_dispatcher = d';
                        has_dispatcher = new_dispatcher-going _ d e2;
                        has_ssl_dispatcher = new_dispatcher-going _ d' e7;
                        is_program = cc;
                      }))))))))

-- `main` comes to run the servers, on two ports, exactly where its one argument names a file that
-- opens and parses, both ports are found in the config and can be bound, the names of the key files
-- of the config are taken by OpenSSL, and the dispatchers are built; the program is then that of
-- the two dispatchers, with no request counted.
pub main_iff :
    (host : Host) (file_name : Bytes) (port ssl_number : ℕ) (program : Program)
    → (main host (file_name ∷ []) ≡ going (port, ssl_number, program))
      ↔ Starts host file_name port ssl_number program
unfolding main
main_iff host file_name port ssl_number program = (
  (λ h. step (settings host (file_name ∷ [])) _ h (λ found e1 h1.
      step (start_servers host found.0 found.1 found.2) _ h1 (λ made e2 h2.
        let same_port : found.1 ≡ port = cc in
        let same_made : made ≡ (ssl_number, program) = cc in
        subst (λ p. Starts host file_name p ssl_number program) same_port
          (start_servers-Starts host file_name found.0 found.1 found.2 ssl_number program
            (e2 ∙ ap going same_made)
            (λ m k. settings-HasSettings host file_name found.0 found.1 found.2 m e1 k))))),
  Starts-main host file_name port ssl_number program,
)
