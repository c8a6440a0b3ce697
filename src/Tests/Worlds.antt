-- ===== src/Tests/Worlds.antt =====
-- The handlers of src/, their constructors and their answers, in a world with one file and two
-- hosts.
use https_server.Prelude.{
  ℕ, leb, ◌&&◌, ◌||◌, ◌≡◌, refl, subst, Bool, true, false, [], ◌∷◌, none, some, Bytes, codes, equal,
  if◌then◌else◌, inl, arith,
}
use https_server.Config.{Config, line, block, nil, cons}
use https_server.Dispatcher.Total.{init_handlers_total}
use https_server.Dispatcher.{Dispatcher, init_handlers, get_request_handler}
use https_server.Handlers.Urls.{a_path, parse_url-url}
use https_server.Handlers.{Handler, built, not_found_handler, parse_url, url}
use https_server.Http.{Request, Response, Reply, new_response}
use https_server.Proxy.{Network}
use https_server.Requests.{World, handle_request}
use https_server.Session.Liveness.{Runs, start-answered}
use https_server.Session.{
  https, read, Session, Metrics, new_session, start, count_request, end_of_request,
}
use https_server.StdString.{c_string}
use https_server.Status.Split.{IsCell}
use https_server.Tests.FileRequests.{read_file, get_file}
use https_server.Tests.Sessions.{
  beast, echo, shaken, no_metrics, text_whole, text_ends, text_ends_last, request, request_text,
}
use https_server.Tests.{static, dispatcher}

-- A file handler and a proxy.
abbrev proxy_config : Config
proxy_config =
    cons
      (block (codes "location" ∷ codes "/ucla" ∷ codes "ProxyHandler" ∷ [])
        (cons (line (codes "host" ∷ codes "http://b.com/x" ∷ [])) nil))
      static

proxy_url :
    parse_url (codes "http://b.com/x") ≡ built (url (codes "http") (codes "b.com") (codes "/x"))
unfolding parse_url
proxy_url = refl

init_handlers_total_example : (d : Dispatcher) × (init_handlers [] proxy_config ≡ built d)
unfolding equal
init_handlers_total_example = init_handlers_total [] proxy_config (
  (λ e. ((λ k. ((λ h. (_, proxy_url, inl refl)), tt)), ((λ e. cc), tt))),
  (tt, ((λ e. ((λ k. absurd (cc)), ((λ e. cc), tt))), tt)),
)

parse_url-url_example :
    parse_url (codes "http://b.com/x//") ≡ built (url (codes "http") (codes "b.com") (codes "/x"))
parse_url-url_example =
    parse_url-url (codes "http") (codes "b.com") (codes "/x") (codes "http://b.com/") b'x' 2
      (refl, (refl, (refl, (refl, tt)))) (refl, (refl, (refl, (refl, (refl, tt)))))
      (a_path (codes "x")) (omega arith) refl refl

-- Two bytes have come, and the rest is read behind them.
abbrev reading_on : Session
reading_on = record shaken { buffer_data = codes "GE"; pending = some (read 2) }

start-answered_example :
    (s : Session) × Runs beast dispatcher echo no_metrics
      (start (new_session https))
      (count_request (codes "/") 200 no_metrics)
      s
    × (s.response ≡ some (record new_response { body = codes "/" }))
    × (s.is_open ≡ false)
    × (s.pending ≡ none)
unfolding get_request_handler equal
start-answered_example =
    start-answered beast dispatcher echo https no_metrics (codes "GET / HTTP/1.1\r\n\r") b'\n'
      (codes "GET / HT") (codes "TP/1.1\r\n\r" ∷ codes "\n" ∷ []) request not_found_handler
      (record new_response { body = codes "/" }) refl ((λ e. cc), ((λ e. cc), tt)) text_whole
      (omega arith) text_ends_last text_ends refl refl refl

-- A host that answers with a content type and its parameters.
abbrev pub page : Response
page = record {
  result = 200;
  fields = (codes "Content-Type", codes "text/html; charset=utf-8") ∷ [];
  body = codes "hi";
}

-- The redirections that Boost.Beast knows.
abbrev pub has_status : ℕ → Bool
has_status code = (leb 300 code && leb code 305) || (leb 307 code && leb code 308)

abbrev network : Network
network = record { respond = λ host port target. page; has_status = has_status }

abbrev pub world : World
world = record {
  beast = beast;
  field_text = λ name. name;
  behind_method = λ request. some [];
  behind_target = λ request. some [];
  read_file = λ path. none;
  network = network;
}

abbrev pub answer : Handler → Metrics → Request → Reply
answer = handle_request world 1 dispatcher.handler_info

is_request :
    (b : Bool) (req : Request) → (if b then some request else none) ≡ some req → request ≡ req
is_request true req e = cc
is_request false req e = cc

pub request_IsCell :
    (text : Bytes) (req : Request) → beast.parse_request text ≡ some req → IsCell req.target
unfolding equal
request_IsCell text req e =
    subst (λ r. IsCell r.target) (is_request (equal text request_text) req e)
      ((λ e. cc), (refl, tt))

-- A world whose parser knows one request for a file.
abbrev pub file_text : Bytes
file_text = codes "GET /static/a.txt HTTP/1.1\r\n\r\n"

abbrev pub file_world : World
unfolding equal
file_world = record world {
  beast = record beast {
    parse_request = λ text. if equal text file_text then some get_file else none;
  };
  read_file = read_file;
}

pub file_text_whole : c_string file_text ≡ file_text
unfolding c_string
file_text_whole = refl

pub file_text_ends : end_of_request file_text ≡ true
unfolding end_of_request
file_text_ends = refl

pub file_text_waits : end_of_request (codes "GET /static/a.txt HTTP/1.1\r\n\r") ≡ false
unfolding end_of_request
file_text_waits = refl
