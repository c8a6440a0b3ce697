-- ===== src/Main/Routing.antt =====
-- Where the servers of src/server_main.cc send requests: by the config in the program's file.
use https_server.Prelude.{◌≡◌, sym, subst, true, List, [], some, Bytes, codes, ℕ}
use https_server.Config.{Config, nil}
use https_server.Dispatcher.Routed.{Routed, LeadsTo, Routed-LeadsTo, get_request_handler-Routed}
use https_server.Dispatcher.{Dispatcher, init_handlers, get_request_handler, trim_slashes}
use https_server.Handlers.{Handler, built}
use https_server.Http.{Request, Beast, Reply}
use https_server.Main.Running.{Running, launched, moved, ProgramStep, on_http, on_https}
use https_server.Main.Starts.{Starts, main_iff}
use https_server.Main.{Host, Program}
use https_server.Parser.{parse, returned}
use https_server.Server.Serving.{new_server-dispatcher, ServerStep-dispatcher}
use https_server.Session.{Metrics}

-- A dispatcher as `init_handlers` builds it from the config of the file.
pub record FromFile (host : Host) (file_name : Bytes) (d : Dispatcher) : Type 0 where
  pub text : Bytes
  pub config : Config
  pub handler_info : List (Bytes × Bytes)
  pub is_read : host.read_config file_name ≡ some text
  pub is_parsed : parse text nil ≡ returned true config
  pub is_built : init_handlers handler_info config ≡ built d

-- The dispatchers of both servers.
abbrev pub IsConfigured : Host → Bytes → Program → Type 0
IsConfigured host file_name p =
    FromFile host file_name p.http_server.dispatcher
    × FromFile host file_name p.https_server.dispatcher

-- The routes of a dispatcher are those of the config in the file.
pub record FollowsFile (host : Host) (file_name : Bytes) (d : Dispatcher) : Type 0 where
  pub text : Bytes
  pub config : Config
  pub is_read : host.read_config file_name ≡ some text
  pub is_parsed : parse text nil ≡ returned true config
  pub routes : (uri : Bytes) → Routed config (trim_slashes uri) (get_request_handler d uri)

FromFile-FollowsFile :
    (host : Host) (file_name : Bytes) (d : Dispatcher)
    → FromFile host file_name d
    → FollowsFile host file_name d
FromFile-FollowsFile host file_name d f = record {
  text = f.text;
  config = f.config;
  is_read = f.is_read;
  is_parsed = f.is_parsed;
  routes = λ uri. get_request_handler-Routed f.handler_info f.config d uri f.is_built;
}

Starts-IsConfigured :
    (host : Host) (file_name : Bytes) (port ssl_port : ℕ) (p : Program)
    → Starts host file_name port ssl_port p
    → IsConfigured host file_name p
Starts-IsConfigured host file_name port ssl_port p s =
    let first : FromFile host file_name s.dispatcher = record {
      text = s.text;
      config = s.config;
      handler_info = [];
      is_read = s.is_read;
      is_parsed = s.is_parsed;
      is_built = s.has_dispatcher;
    } in
    let second : FromFile host file_name s.ssl_dispatcher = record {
      text = s.text;
      config = s.config;
      handler_info = s.dispatcher.handler_info;
      is_read = s.is_read;
      is_parsed = s.is_parsed;
      is_built = s.has_ssl_dispatcher;
    } in
    subst (IsConfigured host file_name) (sym s.is_program) (
      subst (FromFile host file_name) (sym (new_server-dispatcher (codes "http") s.dispatcher))
          first,
      subst (FromFile host file_name) (sym (new_server-dispatcher (codes "https") s.ssl_dispatcher))
          second,
    )

module _ (beast : Beast) (handle_request : Handler → Metrics → Request → Reply) (host : Host)
    (file_name : Bytes) where
  ProgramStep-IsConfigured :
      (p p' : Program)
      → ProgramStep beast handle_request p p'
      → IsConfigured host file_name p
      → IsConfigured host file_name p'
  ProgramStep-IsConfigured p _ (on_http {m = m} {srv = srv} t) (f, g) = (
    subst (FromFile host file_name)
        (sym (ServerStep-dispatcher beast handle_request p.metrics m p.http_server srv t)) f,
    g,
  )
  ProgramStep-IsConfigured p _ (on_https {m = m} {srv = srv} t) (f, g) = (
    f,
    subst (FromFile host file_name)
        (sym (ServerStep-dispatcher beast handle_request p.metrics m p.https_server srv t)) g,
  )

  pub Running-IsConfigured :
      (p : Program) → Running beast handle_request host file_name p → IsConfigured host file_name p
  Running-IsConfigured p (launched port ssl_port _ e) =
      Starts-IsConfigured host file_name port ssl_port p
        ((main_iff host file_name port ssl_port p).0 e)
  Running-IsConfigured p' (moved {p = p} r t) =
      ProgramStep-IsConfigured p p' t (Running-IsConfigured p r)

-- In every state of the program, whatever has been answered so far, both servers route by the
-- config that its file parses to: for each URI, of all paths that the config gives a handler, "/"
-- with the 404 handler among them, and that are a prefix of the URI without its trailing slashes,
-- the handler of the longest is found, and none exactly where no path but the empty one is such a
-- prefix.
pub Running-FollowsFile :
    (beast : Beast) (handle_request : Handler → Metrics → Request → Reply) (host : Host)
    (file_name : Bytes) (p : Program)
    → Running beast handle_request host file_name p
    → FollowsFile host file_name p.http_server.dispatcher
      × FollowsFile host file_name p.https_server.dispatcher
Running-FollowsFile beast handle_request host file_name p r =
    let (f, g) = Running-IsConfigured beast handle_request host file_name p r in
    (
      FromFile-FollowsFile host file_name p.http_server.dispatcher f,
      FromFile-FollowsFile host file_name p.https_server.dispatcher g,
    )

-- The handler that the config in the file leads a target to is found by both servers.
pub Running-finds :
    (beast : Beast) (handle_request : Handler → Metrics → Request → Reply) (host : Host)
    (file_name : Bytes) (p : Program) (target : Bytes) (h : Handler)
    → Running beast handle_request host file_name p
    → ((text : Bytes) (c : Config)
        → host.read_config file_name ≡ some text
        → parse text nil ≡ returned true c
        → LeadsTo c (trim_slashes target) h)
    → (get_request_handler p.http_server.dispatcher target ≡ some h)
      × (get_request_handler p.https_server.dispatcher target ≡ some h)
Running-finds beast handle_request host file_name p target h r leads =
    let (f, g) = Running-FollowsFile beast handle_request host file_name p r in
    let finds : (d : Dispatcher)
        → FollowsFile host file_name d
        → get_request_handler d target ≡ some h =
      λ d f.
        Routed-LeadsTo f.config (trim_slashes target) h _ (f.routes target)
          (leads f.text f.config f.is_read f.is_parsed) in
    (finds p.http_server.dispatcher f, finds p.https_server.dispatcher g)
