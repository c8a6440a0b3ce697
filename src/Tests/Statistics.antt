-- ===== src/Tests/Statistics.antt =====
-- The status page of a program with a config that has a location for it.
use https_server.Prelude.{
  ◌≡◌, refl, sym, ap, ◌∙◌, subst, true, false, [], ◌∷◌, some, none, Bytes, codes, equal, equal_iff,
  Bool, Bool-cases, inl, inr, arith, if◌then◌else◌,
}
use https_server.Config.{Config, line, block, nil, cons}
use https_server.Dispatcher.Assigned.{assigned, init_handlers-assigned}
use https_server.Dispatcher.Routed.{LeadsTo}
use https_server.Dispatcher.{Dispatcher, trim_slashes, init_handlers}
use https_server.Handlers.{built, not_found_handler, status_handler}
use https_server.Http.{Request}
use https_server.Main.Running.{Running, launched, moved, on_http}
use https_server.Main.Statistics.{ShowsMetrics, Running-ShowsMetrics}
use https_server.Main.{Host, Program, going, main}
use https_server.Parser.{parse, returned}
use https_server.Requests.{World, handle_request}
use https_server.Server.{new_server, handle_accept, accepted}
use https_server.Session.Reassembly.{holding}
use https_server.Session.{Session, new_session, http, send_response}
use https_server.Settings.{get_port_number, get_key_path}
use https_server.Status.Split.{IsCell}
use https_server.StdMap.{lookup}
use https_server.StdString.{c_string}
use https_server.Tests.OneLocation.{IsOnly, IsOnly-LeadsTo}
use https_server.Tests.Programs as Programs
use https_server.Tests.Worlds.{world}

abbrev config_text : Bytes
config_text = codes "listen 80;\nssl-port 443;\nlocation /status StatusHandler {\n}\n"

abbrev config : Config
config = cons (line (codes "listen" ∷ codes "80" ∷ [])) (
    cons (line (codes "ssl-port" ∷ codes "443" ∷ []))
      (cons (block (codes "location" ∷ codes "/status" ∷ codes "StatusHandler" ∷ []) nil) nil))

config_parsed : parse config_text nil ≡ returned true config
unfolding parse
config_parsed = refl

abbrev dispatcher : Dispatcher
dispatcher = record {
  handlers = (codes "/", not_found_handler) ∷ (codes "/status", status_handler) ∷ [];
  regnum = 2;
  handler_info = (codes "/", codes "404Handler") ∷ (codes "/status", codes "StatusHandler") ∷ [];
}

config_built : init_handlers [] config ≡ built dispatcher
unfolding init_handlers
config_built = refl

abbrev host : Host
host = record Programs.host { read_config = λ name. some config_text }

abbrev program : Program
program = record {
  metrics = record { request_count = 0; handled_requests = [] };
  http_server = new_server (codes "http") dispatcher;
  https_server = new_server (codes "https") dispatcher;
}

launched_main : main host (codes "server_config" ∷ []) ≡ going (80, 443, program)
unfolding main parse get_port_number get_key_path init_handlers
launched_main = refl

-- The first connection has come.
abbrev connected : Program
connected = record program {
  http_server = handle_accept (new_server (codes "http") dispatcher) (new_session http) false;
}

abbrev asking : Request
asking = record { method = codes "GET"; target = codes "/status/"; version = 11; fields = [] }

abbrev text : Bytes
text = codes "GET /status/ HTTP/1.1\r\n\r\n"

abbrev status_world : World
unfolding equal
status_world = record world {
  beast = record world.beast { parse_request = λ s. if equal s text then some asking else none };
}

is_asking : (b : Bool) (req : Request) → (if b then some asking else none) ≡ some req → asking ≡ req
is_asking true req e = cc
is_asking false req e = cc

asking-IsCell :
    (s : Bytes) (req : Request) → status_world.beast.parse_request s ≡ some req → IsCell req.target
unfolding equal
asking-IsCell s req e =
    subst (λ r. IsCell r.target) (is_asking (equal s text) req e) ((λ e. cc), ground arith)

connected-Running :
    Running status_world.beast
      (handle_request status_world 1 dispatcher.handler_info)
      host
      (codes "server_config")
      connected
unfolding new_server
connected-Running =
    moved (launched 80 443 program launched_main) (on_http (accepted (new_session http) false refl))

status_assigned : assigned (codes "/status") config ≡ built (some status_handler)
unfolding lookup equal
status_assigned = init_handlers-assigned [] config dispatcher (codes "/status") config_built refl

status-IsOnly : IsOnly config (codes "/status")
unfolding assigned trim_slashes equal
status-IsOnly key h has = elim (Bool-cases (equal (codes "/status") key)) [
  | inl e ↦ (equal_iff (codes "/status") key).0 e
  | inr e ↦ let nothing : built none ≡ built (some h) = rw e at has in absurd (cc)
]

config_leads :
    (s : Bytes) (c : Config)
    → host.read_config (codes "server_config") ≡ some s
    → parse s nil ≡ returned true c
    → LeadsTo c (trim_slashes (codes "/status/")) status_handler
unfolding trim_slashes equal
config_leads s c is_read parsed =
    let same : config_text ≡ s = cc in
    let results : returned true config ≡ returned true c =
      sym config_parsed ∙ (ap (λ t. parse t nil) same ∙ parsed) in
    let configs : config ≡ c = cc in
    subst (λ c. LeadsTo c (codes "/status") status_handler) configs
      (IsOnly-LeadsTo config (codes "/status") (codes "/status") status_handler status_assigned
        status-IsOnly refl (omega arith) refl)

abbrev session : Session
session = holding (new_session http) text

Running-ShowsMetrics_example :
    ShowsMetrics dispatcher.handler_info connected.metrics session asking (
      send_response status_world.beast connected.http_server.dispatcher
        (handle_request status_world 1 dispatcher.handler_info)
        connected.metrics
        session)
    × ShowsMetrics dispatcher.handler_info connected.metrics session asking (
        send_response status_world.beast connected.https_server.dispatcher
          (handle_request status_world 1 dispatcher.handler_info)
          connected.metrics
          session)
unfolding equal c_string
Running-ShowsMetrics_example =
    Running-ShowsMetrics status_world 1 dispatcher.handler_info host (codes "server_config")
      connected session asking asking-IsCell connected-Running config_leads refl refl
