-- ===== src/Requests/Delivery.antt =====
-- A request for a file, from the bytes of its peer to the closed socket.
use https_server.Prelude.{
  ℕ, ◌<◌, ◌≡◌, ◌≢◌, refl, true, false, List, [], ◌∷◌, ◌++◌, none, some, Bytes, codes, length, All,
  ◌==◌,
}
use https_server.Dispatcher.{Dispatcher, get_request_handler}
use https_server.Files.Served.{IsServed, handle_file_request-IsServed}
use https_server.Files.{handle_file_request}
use https_server.Handlers.{file_handler}
use https_server.Http.{Request, Response}
use https_server.Requests.{World, handle_request}
use https_server.StdString.{npos, c_string}
use https_server.Session.Liveness.{Runs, start-answered}
use https_server.Session.Reassembly.{concat}
use https_server.Session.{
  Version, Session, Metrics, max_length, new_session, start, count_request, end_of_request,
}

-- A new session whose peer sends a GET request for a file as chunks, none of them empty, without a
-- zero byte, shorter than the buffer and ended by its last byte, where the dispatcher finds a file
-- handler for its target of a component, which has no slash, and a rest that is not empty, has a
-- run in which it sends the bytes of the file at the root and that rest, with the type of the first
-- known extension that stands in the target and the status 200, or the status 404 where it does not
-- open, counts the request, and closes its socket.
pub handle_request-start_answered :
    (w : World) (fuel : ℕ) (handler_info : List (Bytes × Bytes)) (d : Dispatcher) (v : Version)
    (m : Metrics) (u : Bytes) (c : ℕ) (b : Bytes) (chunks : List Bytes) (req : Request)
    (prefix root name rest : Bytes) (x : ℕ)
    → b ++ concat chunks ≡ u ++ c ∷ []
    → All (λ chunk. chunk ≢ []) chunks
    → c_string (u ++ c ∷ []) ≡ u ++ c ∷ []
    → length (u ++ c ∷ []) < max_length
    → end_of_request u ≡ false
    → end_of_request (u ++ c ∷ []) ≡ true
    → w.beast.parse_request (u ++ c ∷ []) ≡ some req
    → get_request_handler d req.target ≡ some (file_handler prefix root)
    → req.method ≡ codes "GET"
    → req.target ≡ b'/' ∷ (name ++ b'/' ∷ x ∷ rest)
    → All (λ d. (b'/' == d) ≡ false) name
    → length (b'/' ∷ (name ++ b'/' ∷ x ∷ rest)) < npos
    → (r : Response) × (s : Session) × Runs w.beast d
        (handle_request w fuel handler_info)
        m
        (start (new_session v))
        (count_request req.target r.result m)
        s
      × (s.response ≡ some r)
      × IsServed req.target (w.read_file (root ++ b'/' ∷ x ∷ rest)) r
      × (s.is_open ≡ false)
      × (s.pending ≡ none)
unfolding handle_request
handle_request-start_answered w fuel info d v m u c b chunks req prefix root name rest x parts
      filled whole small before ended parsed found get same plain short =
    let r = handle_file_request w.beast w.read_file root req in
    let (s, run, sent, closed, still) =
      start-answered w.beast d (handle_request w fuel info) v m u c b chunks req
        (file_handler prefix root) r parts filled whole small before ended parsed found refl in
    (
      r,
      s,
      run,
      sent,
      handle_file_request-IsServed w.beast w.read_file root name rest x req get same plain short,
      closed,
      still,
    )
