-- ===== src/Main/Unrouted.antt =====
-- What the program of src/server_main.cc answers where its config has no location for a target.
use https_server.Prelude.{
  ℕ, ◌≡◌, refl, sym, ap, ◌∙◌, subst, true, false, List, ◌∷◌, some, arith, Bytes, codes, equal,
  equal_iff, length, Bool-cases, inl, inr,
}
use https_server.Config.{Config, nil}
use https_server.Dispatcher.Assigned.{assigned}
use https_server.Dispatcher.Paths.{slash_first}
use https_server.Dispatcher.Routed.{LeadsTo}
use https_server.Dispatcher.Search.{IsPrefixOf}
use https_server.Dispatcher.{Dispatcher, get_request_handler, trim_slashes, root_path}
use https_server.Handlers.{Handler, not_found_handler, built}
use https_server.Http.{Request, Response}
use https_server.Main.Routing.{Running-finds}
use https_server.Main.Running.{Running}
use https_server.Main.{Host, Program}
use https_server.Parser.{parse, returned}
use https_server.Replies.{handle_404_request}
use https_server.Requests.{World, handle_request}
use https_server.Session.{
  Session, Metrics, Outcome, continues, count_request, write_response, write_logged, send_response,
}
use https_server.StdString.{c_string}

-- No path that a config gives a handler is a prefix of the target, "/" and the empty one left out.
abbrev pub HasNoLocation : Config → Bytes → Type 0
HasNoLocation c target =
    (key : Bytes) (h : Handler)
    → assigned key c ≡ built (some h)
    → equal key root_path ≡ false
    → IsPrefixOf (trim_slashes target) key
    → length key ≡ 0

HasNoLocation-LeadsTo :
    (c : Config) (rest : Bytes)
    → HasNoLocation c (b'/' ∷ rest)
    → LeadsTo c (trim_slashes (b'/' ∷ rest)) not_found_handler
unfolding equal
HasNoLocation-LeadsTo c rest no_location = (
  root_path,
  refl,
  slash_first rest,
  omega arith,
  λ key h has p. elim (Bool-cases (equal key root_path)) [
    | inl e ↦ let same = ap (λ k. length k) ((equal_iff key root_path).0 e) in omega (arith, same)
    | inr e ↦ omega (arith, no_location key h (rw e at has) e p)
  ],
)

-- The response of the 404 handler is sent and counted.
abbrev pub Answers404 : Request → Metrics → Session → Outcome → Type 0
Answers404 req m s o =
    (r : Response) × (r.result ≡ 404)
    × (r.body ≡ codes "<h1>404 Not Found</h1>")
    × (o ≡ continues (count_request req.target 404 m) (write_response s r))

send_response-404 :
    (w : World) (fuel : ℕ) (handler_info : List (Bytes × Bytes)) (d : Dispatcher) (m : Metrics)
    (s : Session) (req : Request)
    → get_request_handler d req.target ≡ some not_found_handler
    → w.beast.parse_request (c_string s.buffer_data) ≡ some req
    → s.has_peer ≡ true
    → Answers404 req m s (send_response w.beast d (handle_request w fuel handler_info) m s)
unfolding send_response handle_request handle_404_request
send_response-404 w fuel info d m s req found parsed peer =
    let r = handle_404_request w.beast req in
    let counted = λ (code : ℕ). continues (count_request req.target code m) (write_response s r) in
    (
      r,
      w.beast.same_result _,
      w.beast.same_body _,
      rw (parsed, found)
          (ap (write_logged (count_request req.target r.result m) s r) peer
            ∙ ap counted (w.beast.same_result _)),
    )

-- In every state of the program, where no path that the config in its file gives a handler is a
-- prefix of the target, "/" and the empty one left out, a request for a target that begins with a
-- slash, from a peer that is there, is answered by either server with the page of the 404 handler,
-- and is counted with the code 404.
pub Running-Answers404 :
    (w : World) (fuel : ℕ) (handler_info : List (Bytes × Bytes)) (host : Host) (file_name : Bytes)
    (p : Program) (s : Session) (req : Request) (rest : Bytes)
    → Running w.beast (handle_request w fuel handler_info) host file_name p
    → ((text : Bytes) (c : Config)
        → host.read_config file_name ≡ some text
        → parse text nil ≡ returned true c
        → HasNoLocation c req.target)
    → w.beast.parse_request (c_string s.buffer_data) ≡ some req
    → req.target ≡ b'/' ∷ rest
    → s.has_peer ≡ true
    → Answers404 req p.metrics s (
        send_response w.beast p.http_server.dispatcher
          (handle_request w fuel handler_info)
          p.metrics
          s)
      × Answers404 req p.metrics s (
          send_response w.beast p.https_server.dispatcher
            (handle_request w fuel handler_info)
            p.metrics
            s)
Running-Answers404 w fuel info host file_name p s req rest run no_location parsed slash peer =
    let answer = handle_request w fuel info in
    let (f, g) =
      Running-finds w.beast answer host file_name p req.target not_found_handler run
        (λ text c is_read is_parsed.
          subst (λ t. LeadsTo c (trim_slashes t) not_found_handler) (sym slash)
            (HasNoLocation-LeadsTo c rest
              (subst (HasNoLocation c) slash (no_location text c is_read is_parsed)))) in
    (
      send_response-404 w fuel info p.http_server.dispatcher p.metrics s req f parsed peer,
      send_response-404 w fuel info p.https_server.dispatcher p.metrics s req g parsed peer,
    )
