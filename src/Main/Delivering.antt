-- ===== src/Main/Delivering.antt =====
-- A file on its way from the disk to a peer, by the config in the file of src/server_main.cc.
use https_server.Prelude.{
  ℕ, ◌<◌, ◌≡◌, ◌≢◌, true, false, List, [], ◌∷◌, ◌++◌, some, none, Bytes, codes, length, All, ◌==◌,
}
use https_server.Config.{Config, nil}
use https_server.Dispatcher.Routed.{LeadsTo}
use https_server.Dispatcher.{Dispatcher, trim_slashes}
use https_server.Files.Served.{IsServed}
use https_server.Handlers.{file_handler}
use https_server.Http.{Request, Response}
use https_server.Main.Routing.{Running-finds}
use https_server.Main.Running.{Running}
use https_server.Main.{Host, Program}
use https_server.Parser.{parse, returned}
use https_server.Requests.Delivery.{handle_request-start_answered}
use https_server.Requests.{World, handle_request}
use https_server.Session.Liveness.{Runs}
use https_server.Session.Reassembly.{concat}
use https_server.Session.{
  Version, http, https, Session, Metrics, max_length, new_session, start, count_request,
  end_of_request,
}
use https_server.StdString.{npos, c_string}

-- A new session has a run in which it sends what the file system has under a path, counts the
-- request, and closes its socket.
abbrev pub Delivers :
    World → ℕ → List (Bytes × Bytes) → Dispatcher → Version → Metrics → Request → Bytes → Type 0
Delivers w fuel handler_info d v m req path =
    (r : Response) × (s : Session) × Runs w.beast d (handle_request w fuel handler_info) m
      (start (new_session v)) (count_request req.target r.result m) s
    × (s.response ≡ some r)
    × IsServed req.target (w.read_file path) r
    × (s.is_open ≡ false)
    × (s.pending ≡ none)

-- In every state of the program, where the config in its file leads the target to a file handler: a
-- new session of either server, whose peer sends a GET request for the target as chunks, none of
-- them empty, without a zero byte, shorter than the buffer and ended by its last byte, has a run in
-- which it sends the bytes of the file at the handler's root and the target without its first
-- component, with a content type and the status 200, or the status 404 where the file does not
-- open, counts the request, and closes its socket. The type is that of the first of ".html",
-- ".txt", ".jpg" or ".jpeg", and ".zip" that stands in the target at any place, "unsupported" where
-- none does, and empty where the target has no ".". The target is a component, which has no slash,
-- and a rest that is not empty.
pub Running-Delivers :
    (w : World) (fuel : ℕ) (handler_info : List (Bytes × Bytes)) (host : Host) (file_name : Bytes)
    (p : Program) (u : Bytes) (c : ℕ) (b : Bytes) (chunks : List Bytes) (req : Request)
    (prefix root name rest : Bytes) (x : ℕ)
    → Running w.beast (handle_request w fuel handler_info) host file_name p
    → ((text : Bytes) (config : Config)
        → host.read_config file_name ≡ some text
        → parse text nil ≡ returned true config
        → LeadsTo config (trim_slashes req.target) (file_handler prefix root))
    → b ++ concat chunks ≡ u ++ c ∷ []
    → All (λ chunk. chunk ≢ []) chunks
    → c_string (u ++ c ∷ []) ≡ u ++ c ∷ []
    → length (u ++ c ∷ []) < max_length
    → end_of_request u ≡ false
    → end_of_request (u ++ c ∷ []) ≡ true
    → w.beast.parse_request (u ++ c ∷ []) ≡ some req
    → req.method ≡ codes "GET"
    → req.target ≡ b'/' ∷ (name ++ b'/' ∷ x ∷ rest)
    → All (λ d. (b'/' == d) ≡ false) name
    → length (b'/' ∷ (name ++ b'/' ∷ x ∷ rest)) < npos
    → Delivers w fuel handler_info p.http_server.dispatcher http p.metrics req
        (root ++ b'/' ∷ x ∷ rest)
      × Delivers w fuel handler_info p.https_server.dispatcher https p.metrics req
          (root ++ b'/' ∷ x ∷ rest)
Running-Delivers w fuel info host file_name p u c b chunks req prefix root name rest x run leads
      parts filled whole small before ended parsed get same plain short =
    let (found, found_ssl) =
      Running-finds w.beast (handle_request w fuel info) host file_name p req.target
        (file_handler prefix root) run leads in
    (
      handle_request-start_answered w fuel info p.http_server.dispatcher http p.metrics u c b chunks
          req prefix root name rest x parts filled whole small before ended parsed found get same
          plain short,
      handle_request-start_answered w fuel info p.https_server.dispatcher https p.metrics u c b
          chunks req prefix root name rest x parts filled whole small before ended parsed found_ssl
          get same plain short,
    )
