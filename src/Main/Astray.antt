-- ===== src/Main/Astray.antt =====
-- What a host can do to the proxy of src/proxy_handler.cc, in the program of src/server_main.cc.
use https_server.Prelude.{ℕ, ◌<◌, ◌≡◌, ap, ◌∙◌, true, List, ◌++◌, some, Bytes}
use https_server.Config.{Config, nil}
use https_server.Dispatcher.Routed.{LeadsTo}
use https_server.Dispatcher.{Dispatcher, get_request_handler, trim_slashes}
use https_server.Handlers.{proxy_handler}
use https_server.Http.{Request}
use https_server.Main.Routing.{Running-finds}
use https_server.Main.Running.{Running}
use https_server.Main.{Host, Program}
use https_server.Parser.{parse, returned}
use https_server.Proxy.Locations.{LeadsAstray, handle_proxy_request-LeadsAstray}
use https_server.Proxy.{slash_if_empty}
use https_server.Requests.{World, reply_of_issued, handle_request}
use https_server.Session.{Session, Metrics, faults, send_reply, respond, send_parsed, send_response}
use https_server.StdString.{c_string}

send_response-faults :
    (w : World) (fuel : ℕ) (handler_info : List (Bytes × Bytes)) (d : Dispatcher) (m : Metrics)
    (s : Session) (req : Request) (prefix upstream path port rest : Bytes) (n : ℕ)
    → w.beast.parse_request (c_string s.buffer_data) ≡ some req
    → get_request_handler d req.target ≡ some (proxy_handler prefix upstream path port)
    → req.target ≡ prefix ++ rest
    → n < fuel
    → LeadsAstray w.network upstream port (slash_if_empty rest) n
    → send_response w.beast d (handle_request w fuel handler_info) m s ≡ faults
unfolding send_response handle_request
send_response-faults w fuel info d m s req prefix upstream path port rest n parsed found same fits
      leads =
    let answer =
      handle_proxy_request-LeadsAstray fuel w.network prefix upstream port rest req n same fits
        leads in
    ap (send_parsed w.beast d (handle_request w fuel info) m s) parsed
    ∙ ap (respond w.beast d (handle_request w fuel info) m s req) found
    ∙ ap (λ o. send_reply m s req (reply_of_issued o)) answer

-- In every state of the program, where the config in its file leads the target of a request to a
-- proxy, whose prefix the target begins with: where a number of redirections, fewer than the calls
-- that may be nested, lead from the host and the port of the proxy and the target behind the prefix
-- to a redirection that has no "Location", or one of slashes alone, `send_response` of either
-- server does what is undefined.
pub Running-faults :
    (w : World) (fuel : ℕ) (handler_info : List (Bytes × Bytes)) (host : Host) (file_name : Bytes)
    (p : Program) (s : Session) (req : Request) (prefix upstream path port rest : Bytes) (n : ℕ)
    → Running w.beast (handle_request w fuel handler_info) host file_name p
    → ((text : Bytes) (config : Config)
        → host.read_config file_name ≡ some text
        → parse text nil ≡ returned true config
        → LeadsTo config (trim_slashes req.target) (proxy_handler prefix upstream path port))
    → w.beast.parse_request (c_string s.buffer_data) ≡ some req
    → req.target ≡ prefix ++ rest
    → n < fuel
    → LeadsAstray w.network upstream port (slash_if_empty rest) n
    → (send_response w.beast p.http_server.dispatcher
          (handle_request w fuel handler_info)
          p.metrics
          s
        ≡ faults)
      × (send_response w.beast p.https_server.dispatcher
            (handle_request w fuel handler_info)
            p.metrics
            s
          ≡ faults)
Running-faults w fuel info host file_name p s req prefix upstream path port rest n run leads parsed
      same fits lost =
    let (found, found_ssl) =
      Running-finds w.beast (handle_request w fuel info) host file_name p req.target
        (proxy_handler prefix upstream path port) run leads in
    (
      send_response-faults w fuel info p.http_server.dispatcher p.metrics s req prefix upstream path
          port rest n parsed found same fits lost,
      send_response-faults w fuel info p.https_server.dispatcher p.metrics s req prefix upstream
          path port rest n parsed found_ssl same fits lost,
    )
