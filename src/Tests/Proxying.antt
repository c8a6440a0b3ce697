-- ===== src/Tests/Proxying.antt =====
-- A response of another host that the program sends, by a config with a proxy.
use https_server.Prelude.{
  ◌≡◌, refl, sym, ap, ◌∙◌, subst, true, false, [], ◌∷◌, some, none, Bytes, codes, equal, equal_iff,
  Bool-cases, inl, inr, arith, if◌then◌else◌,
}
use https_server.Config.{Config, line, block, nil, cons}
use https_server.Dispatcher.Assigned.{assigned, init_handlers-assigned}
use https_server.Dispatcher.Routed.{LeadsTo}
use https_server.Dispatcher.{Dispatcher, trim_slashes, init_handlers}
use https_server.Handlers.{Handler, built, not_found_handler, proxy_handler}
use https_server.Http.{Request, Response}
use https_server.Main.Astray.{Running-faults}
use https_server.Main.Proxying.{Running-PassesOn}
use https_server.Main.Running.{Running, launched, moved, on_http}
use https_server.Main.{Host, Program, going, main}
use https_server.Parser.{parse, returned}
use https_server.Proxy.Locations.{LeadsAstray, astray}
use https_server.Proxy.Redirects.{Leads, arrives, goes_on}
use https_server.Proxy.{Network}
use https_server.Requests.Passing.{PassesOn}
use https_server.Requests.{World, handle_request}
use https_server.Server.{new_server, handle_accept, accepted}
use https_server.Session.{new_session, http, https, end_of_request, faults, send_response}
use https_server.Session.Reassembly.{holding}
use https_server.Settings.{get_port_number, get_key_path}
use https_server.StdMap.{lookup}
use https_server.StdString.{c_string}
use https_server.Tests.OneLocation.{IsOnly, IsOnly-LeadsTo}
use https_server.Tests.Networks as Networks
use https_server.Tests.Programs as Programs
use https_server.Tests.Worlds.{has_status, world, page}

abbrev config_text : Bytes
config_text =
    codes
      "listen 80;\nssl-port 443;\nlocation /ucla ProxyHandler {\n host http://a.com;\n port 80;\n}\n"

abbrev config : Config
config = cons (line (codes "listen" ∷ codes "80" ∷ [])) (
    cons (line (codes "ssl-port" ∷ codes "443" ∷ [])) (
      cons
        (block (codes "location" ∷ codes "/ucla" ∷ codes "ProxyHandler" ∷ []) (
          cons (line (codes "host" ∷ codes "http://a.com" ∷ []))
            (cons (line (codes "port" ∷ codes "80" ∷ [])) nil)))
        nil))

config_parsed : parse config_text nil ≡ returned true config
unfolding parse
config_parsed = refl

abbrev proxy : Handler
proxy = proxy_handler (codes "/ucla") (codes "a.com") (codes "/") (codes "80")

abbrev dispatcher : Dispatcher
dispatcher = record {
  handlers = (codes "/", not_found_handler) ∷ (codes "/ucla", proxy) ∷ [];
  regnum = 2;
  handler_info = (codes "/", codes "404Handler") ∷ (codes "/ucla", codes "ProxyHandler") ∷ [];
}

config_built : init_handlers [] config ≡ built dispatcher
unfolding init_handlers
config_built = refl

abbrev host : Host
host = record Programs.host { read_config = λ name. some config_text }

abbrev program : Program
program = record {
  metrics = record { request_count = 0; handled_requests = [] };
  http_server = new_server (codes "http") dispatcher;
  https_server = new_server (codes "https") dispatcher;
}

launched_main : main host (codes "server_config" ∷ []) ≡ going (80, 443, program)
unfolding main parse get_port_number get_key_path init_handlers
launched_main = refl

-- The first connection has come.
abbrev connected : Program
connected = record program {
  http_server = handle_accept (new_server (codes "http") dispatcher) (new_session http) false;
}

-- The host of the proxy moves to one that answers.
abbrev respond : Bytes → Bytes → Bytes → Response
unfolding equal
respond upstream port target = if equal upstream (codes "b.com") then page else Networks.moved

abbrev network : Network
network = record { respond = respond; has_status = has_status }

abbrev proxied : Request
proxied = record { method = codes "GET"; target = codes "/ucla/x"; version = 11; fields = [] }

abbrev text : Bytes
text = codes "GET /ucla/x HTTP/1.1\r\n\r\n"

abbrev proxy_world : World
unfolding equal
proxy_world = record world {
  beast = record world.beast { parse_request = λ s. if equal s text then some proxied else none };
  network = network;
}

connected-Running :
    (w : World) → Running w.beast (handle_request w 2 []) host (codes "server_config") connected
unfolding new_server
connected-Running w =
    moved (launched 80 443 program launched_main) (on_http (accepted (new_session http) false refl))

network-Leads : Leads network (codes "a.com") (codes "80") (codes "/x") 1 page
unfolding equal
network-Leads =
    goes_on (codes "a.com") (codes "80") (codes "/x") Networks.next_url
      (Networks.moved-RedirectsTo respond) (arrives (codes "b.com") (codes "80") (codes "/x") refl)

ucla_assigned : assigned (codes "/ucla") config ≡ built (some proxy)
unfolding lookup equal
ucla_assigned = init_handlers-assigned [] config dispatcher (codes "/ucla") config_built refl

ucla-IsOnly : IsOnly config (codes "/ucla")
unfolding assigned trim_slashes equal
ucla-IsOnly key h has = elim (Bool-cases (equal (codes "/ucla") key)) [
  | inl e ↦ (equal_iff (codes "/ucla") key).0 e
  | inr e ↦ let nothing : built none ≡ built (some h) = rw e at has in absurd (cc)
]

config-LeadsTo : LeadsTo config (trim_slashes (codes "/ucla/x")) proxy
unfolding trim_slashes equal
config-LeadsTo =
    IsOnly-LeadsTo config (codes "/ucla") (codes "/ucla/x") proxy ucla_assigned ucla-IsOnly refl
      (omega arith) refl

config_only :
    (s : Bytes) (c : Config)
    → host.read_config (codes "server_config") ≡ some s
    → parse s nil ≡ returned true c
    → config ≡ c
config_only s c is_read parsed =
    let same : config_text ≡ s = cc in
    let equal_results : returned true config ≡ returned true c =
      sym config_parsed ∙ (ap (λ t. parse t nil) same ∙ parsed) in
    cc

config_leads :
    (s : Bytes) (c : Config)
    → host.read_config (codes "server_config") ≡ some s
    → parse s nil ≡ returned true c
    → LeadsTo c (trim_slashes (codes "/ucla/x")) proxy
config_leads s c is_read parsed =
    subst (λ c. LeadsTo c (trim_slashes (codes "/ucla/x")) proxy) (config_only s c is_read parsed)
      config-LeadsTo

text_whole : c_string text ≡ text
unfolding c_string
text_whole = refl

text_ends : end_of_request text ≡ true
unfolding end_of_request
text_ends = refl

text_waits : end_of_request (codes "GET /ucla/x HTTP/1.1\r\n\r") ≡ false
unfolding end_of_request
text_waits = refl

Running-PassesOn_example :
    PassesOn proxy_world 2 [] connected.http_server.dispatcher http connected.metrics proxied page
    × PassesOn proxy_world 2 [] connected.https_server.dispatcher https connected.metrics proxied
        page
unfolding equal lookup
Running-PassesOn_example =
    Running-PassesOn proxy_world 2 [] host (codes "server_config") connected
      (codes "GET /ucla/x HTTP/1.1\r\n\r") b'\n' (codes "GET /uc")
      (codes "la/x HTTP/1.1\r\n\r\n" ∷ []) proxied (codes "/ucla") (codes "a.com") (codes "/")
      (codes "80") (codes "/x") 1 page (connected-Running proxy_world) config_leads refl
      ((λ e. cc), tt) text_whole (omega arith) text_waits text_ends refl refl (omega arith)
      network-Leads (omega arith)

-- Every host redirects to nowhere.
abbrev lost : Response
lost = record { result = 302; fields = []; body = [] }

abbrev lost_world : World
lost_world = record proxy_world {
  network = record { respond = λ upstream port target. lost; has_status = has_status };
}

lost-LeadsAstray : LeadsAstray lost_world.network (codes "a.com") (codes "80") (codes "/x") 0
unfolding equal lookup
lost-LeadsAstray = astray (codes "a.com") (codes "80") (codes "/x") refl tt

Running-faults_example :
    (send_response lost_world.beast connected.http_server.dispatcher
        (handle_request lost_world 2 [])
        connected.metrics
        (holding (new_session http) text)
      ≡ faults)
    × (send_response lost_world.beast connected.https_server.dispatcher
          (handle_request lost_world 2 [])
          connected.metrics
          (holding (new_session http) text)
        ≡ faults)
unfolding equal c_string
Running-faults_example =
    Running-faults lost_world 2 [] host (codes "server_config") connected
      (holding (new_session http) text) proxied (codes "/ucla") (codes "a.com") (codes "/")
      (codes "80") (codes "/x") 0 (connected-Running lost_world) config_leads refl refl
      (omega arith) lost-LeadsAstray
