-- ===== src/Main/Proxying.antt =====
-- A response of another host on its way to a peer, by the config in the file of src/server_main.cc.
use https_server.Prelude.{
  ℕ, ◌<◌, ◌≡◌, ◌≢◌, true, false, List, [], ◌∷◌, ◌++◌, some, Bytes, length, All,
}
use https_server.Config.{Config, nil}
use https_server.Dispatcher.Routed.{LeadsTo}
use https_server.Dispatcher.{trim_slashes}
use https_server.Files.{content_type}
use https_server.Handlers.{proxy_handler}
use https_server.Http.{Request, Response, get_field}
use https_server.Main.Routing.{Running-finds}
use https_server.Main.Running.{Running}
use https_server.Main.{Host, Program}
use https_server.Parser.{parse, returned}
use https_server.Proxy.Redirects.{Leads}
use https_server.Proxy.{slash_if_empty}
use https_server.Requests.Passing.{PassesOn, handle_request-PassesOn}
use https_server.Requests.{World, handle_request}
use https_server.Session.Reassembly.{concat}
use https_server.Session.{http, https, max_length, end_of_request}
use https_server.StdString.{npos, c_string}

-- In every state of the program, where the config in its file leads the target to a proxy, whose
-- prefix the target begins with: a new session of either server, whose peer sends a request for the
-- target as chunks, none of them empty, without a zero byte, shorter than the buffer and ended by
-- its last byte, has a run in which it sends a response with the status and the body of the one
-- that the other hosts give, and its content type cut off before the first ";", if it has one,
-- counts the request, and closes its socket. The one that they give is what a number of
-- redirections lead to, from the host and the port of the proxy and the target behind the prefix,
-- or "/" where nothing stands behind it; the calls may be nested one deeper than that.
pub Running-PassesOn :
    (w : World) (fuel : ℕ) (handler_info : List (Bytes × Bytes)) (host : Host) (file_name : Bytes)
    (p : Program) (u : Bytes) (c : ℕ) (b : Bytes) (chunks : List Bytes) (req : Request)
    (prefix upstream path port rest : Bytes) (n : ℕ) (r : Response)
    → Running w.beast (handle_request w fuel handler_info) host file_name p
    → ((text : Bytes) (config : Config)
        → host.read_config file_name ≡ some text
        → parse text nil ≡ returned true config
        → LeadsTo config (trim_slashes req.target) (proxy_handler prefix upstream path port))
    → b ++ concat chunks ≡ u ++ c ∷ []
    → All (λ chunk. chunk ≢ []) chunks
    → c_string (u ++ c ∷ []) ≡ u ++ c ∷ []
    → length (u ++ c ∷ []) < max_length
    → end_of_request u ≡ false
    → end_of_request (u ++ c ∷ []) ≡ true
    → w.beast.parse_request (u ++ c ∷ []) ≡ some req
    → req.target ≡ prefix ++ rest
    → n < fuel
    → Leads w.network upstream port (slash_if_empty rest) n r
    → length (get_field r content_type) < npos
    → PassesOn w fuel handler_info p.http_server.dispatcher http p.metrics req r
      × PassesOn w fuel handler_info p.https_server.dispatcher https p.metrics req r
Running-PassesOn w fuel info host file_name p u c b chunks req prefix upstream path port rest n r
      run leads parts filled whole small before ended parsed same fits given short =
    let (found, found_ssl) =
      Running-finds w.beast (handle_request w fuel info) host file_name p req.target
        (proxy_handler prefix upstream path port) run leads in
    (
      handle_request-PassesOn w fuel info p.http_server.dispatcher http p.metrics u c b chunks req
          prefix upstream path port rest n r parts filled whole small before ended parsed found same
          fits given short,
      handle_request-PassesOn w fuel info p.https_server.dispatcher https p.metrics u c b chunks req
          prefix upstream path port rest n r parts filled whole small before ended parsed found_ssl
          same fits given short,
    )
