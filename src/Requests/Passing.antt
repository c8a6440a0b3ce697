-- ===== src/Requests/Passing.antt =====
-- A request for another host, from the bytes of its peer to the closed socket.
use https_server.Prelude.{
  ℕ, ◌<◌, ◌≡◌, ◌≢◌, ap, true, false, List, [], ◌∷◌, ◌++◌, none, some, Bytes, length, All,
}
use https_server.Dispatcher.{Dispatcher, get_request_handler}
use https_server.Files.{content_type}
use https_server.Handlers.{proxy_handler}
use https_server.Http.{Request, Response, get_field}
use https_server.Proxy.Redirects.{Leads}
use https_server.Proxy.Requests.{IsCut, handle_proxy_request-Leads}
use https_server.Proxy.{slash_if_empty}
use https_server.Requests.{World, reply_of_issued, handle_request}
use https_server.StdString.{npos, c_string}
use https_server.Session.Liveness.{Runs, start-answered}
use https_server.Session.Reassembly.{concat}
use https_server.Session.{
  Version, Session, Metrics, max_length, new_session, start, count_request, end_of_request,
}

-- A new session has a run in which it sends a response with the status and the body of `r`, and a
-- content type of `r` cut off before the first ";", counts the request, and closes its socket.
abbrev pub PassesOn :
    World → ℕ → List (Bytes × Bytes) → Dispatcher → Version → Metrics → Request → Response → Type 0
PassesOn w fuel handler_info d v m req r =
    (sent : Response) × (s : Session) × Runs w.beast d (handle_request w fuel handler_info) m
      (start (new_session v)) (count_request req.target r.result m) s
    × (s.response ≡ some sent)
    × (sent.result ≡ r.result)
    × (sent.body ≡ r.body)
    × IsCut (get_field r content_type) (get_field sent content_type)
    × (s.is_open ≡ false)
    × (s.pending ≡ none)

-- A new session whose peer sends a request as chunks, none of them empty, without a zero byte,
-- shorter than the buffer and ended by its last byte, where the dispatcher finds a proxy whose
-- prefix its target begins with: where fewer redirections than there is fuel lead from the host of
-- the proxy, and the rest of the target, to a response, the session passes this one on.
pub handle_request-PassesOn :
    (w : World) (fuel : ℕ) (handler_info : List (Bytes × Bytes)) (d : Dispatcher) (v : Version)
    (m : Metrics) (u : Bytes) (c : ℕ) (b : Bytes) (chunks : List Bytes) (req : Request)
    (prefix host path port rest : Bytes) (n : ℕ) (r : Response)
    → b ++ concat chunks ≡ u ++ c ∷ []
    → All (λ chunk. chunk ≢ []) chunks
    → c_string (u ++ c ∷ []) ≡ u ++ c ∷ []
    → length (u ++ c ∷ []) < max_length
    → end_of_request u ≡ false
    → end_of_request (u ++ c ∷ []) ≡ true
    → w.beast.parse_request (u ++ c ∷ []) ≡ some req
    → get_request_handler d req.target ≡ some (proxy_handler prefix host path port)
    → req.target ≡ prefix ++ rest
    → n < fuel
    → Leads w.network host port (slash_if_empty rest) n r
    → length (get_field r content_type) < npos
    → PassesOn w fuel handler_info d v m req r
unfolding handle_request
handle_request-PassesOn w fuel info d v m u c b chunks req prefix host path port rest n r parts
      filled whole small before ended parsed found same fits leads short =
    let (sent, answer, status, body, plain) =
      handle_proxy_request-Leads fuel w.network prefix host port rest req n r same fits leads
        short in
    let (s, run, response, closed, still) =
      start-answered w.beast d (handle_request w fuel info) v m u c b chunks req
        (proxy_handler prefix host path port) sent parts filled whole small before ended parsed
        found (ap reply_of_issued answer) in
    (
      sent,
      s,
      rw (ap (λ code. count_request req.target code m) status) at run,
      response,
      status,
      body,
      plain,
      closed,
      still,
    )
