-- ===== src/Requests/Safety.antt =====
-- The handlers answer, whatever the sessions have done before.
use https_server.Prelude.{
  ℕ, ◌≡◌, ◌⊎◌, refl, ap, List, [], ◌∷◌, ◌++◌, Option, none, some, Bytes, codes, All, Bool-cases,
  inl, inr, equal,
}
use https_server.Dispatcher.{Dispatcher}
use https_server.Files.{handle_file_request, file_path, send_path, send_file}
use https_server.Handlers.{
  Handler, file_handler, echo_handler, not_found_handler, status_handler, proxy_handler,
  sleep_handler, health_handler,
}
use https_server.Handlers.Kinds.{EchoesOrProxies}
use https_server.Http.{Request, Response, Beast, Reply, replied}
use https_server.Requests.{World, handle_request, reply_of_built}
use https_server.Session.Counting.{History, began, went_on}
use https_server.Session.Metering.{Step-OnMetrics}
use https_server.Session.{Metrics, Session, Step, continues, codes_so_far}
use https_server.Status.Split.{IsCell, status_page-built}
use https_server.StdMap.Laws.{insert-All}
use https_server.StdMap.{lookup}

-- The handlers other than the echo handler and the proxy answer with 200 or 404.
abbrev pub IsAnswered : Reply → Type 0
IsAnswered r =
    (response : Response) × ((r ≡ replied response)
      × ((response.result ≡ 200) ⊎ (response.result ≡ 404)))

-- A path of a request, as the parser of requests gives it: not empty, and without a space.
abbrev pub HasCells : Metrics → Type 0
HasCells m = All (λ e. IsCell e.0) m.handled_requests

send_file-result :
    (beast : Beast) (target : Bytes) (file : Option Bytes)
    → ((send_file beast target file).result ≡ 200) ⊎ ((send_file beast target file).result ≡ 404)
send_file-result beast target none = inr (beast.same_result _)
send_file-result beast target (some payload) = inl refl

send_path-result :
    (beast : Beast) (read_file : Bytes → Option Bytes) (target : Bytes) (path : Option Bytes)
    → ((send_path beast read_file target path).result ≡ 200)
      ⊎ ((send_path beast read_file target path).result ≡ 404)
send_path-result beast read_file target none = inr (beast.same_result _)
send_path-result beast read_file target (some path) = send_file-result beast target (read_file path)

handle_file_request-result :
    (beast : Beast) (read_file : Bytes → Option Bytes) (root : Bytes) (request : Request)
    → ((handle_file_request beast read_file root request).result ≡ 200)
      ⊎ ((handle_file_request beast read_file root request).result ≡ 404)
unfolding handle_file_request
handle_file_request-result beast read_file root request =
    elim (Bool-cases (equal request.method (codes "GET"))) [
      | inl e ↦
          rw e (send_path-result beast read_file request.target (file_path root request.target))
      | inr e ↦ rw e (inl refl)
    ]

pub handle_request-IsAnswered :
    (w : World) (fuel : ℕ) (handler_info : List (Bytes × Bytes)) (h : Handler) (m : Metrics)
    (request : Request)
    → (EchoesOrProxies h → ⊥)
    → HasCells m
    → IsAnswered (handle_request w fuel handler_info h m request)
unfolding handle_request
handle_request-IsAnswered w fuel info (file_handler prefix root) m request n cells =
    (_, (refl, handle_file_request-result w.beast w.read_file root request))
handle_request-IsAnswered w fuel info echo_handler m request n cells = absurd (n tt)
handle_request-IsAnswered w fuel info not_found_handler m request n cells =
    (_, (refl, inr (w.beast.same_result _)))
handle_request-IsAnswered w fuel info status_handler m request n cells =
    let (r, (made, ok)) = status_page-built w.beast info m cells in
    (r, (ap reply_of_built made, inl ok))
handle_request-IsAnswered w fuel info (proxy_handler prefix host path port) m request n cells =
    absurd (n tt)
handle_request-IsAnswered w fuel info sleep_handler m request n cells =
    (_, (refl, inl (w.beast.same_result _)))
handle_request-IsAnswered w fuel info health_handler m request n cells =
    (_, (refl, inl (w.beast.same_result _)))

module _ (beast : Beast) (dispatcher : Dispatcher) (answer : Handler → Metrics → Request → Reply)
    (targets : (text : Bytes) (req : Request)
      → beast.parse_request text ≡ some req
      → IsCell req.target) where
  pub Step-HasCells :
      (m m' : Metrics) (s s' : Session)
      → HasCells m
      → Step beast dispatcher answer m s (continues m' s')
      → HasCells m'
  Step-HasCells m m' s s' v t =
      Step-OnMetrics beast dispatcher answer HasCells
        (λ text req code m e v.
          insert-All (λ e. IsCell e.0) req.target
            (codes_so_far (lookup req.target m.handled_requests) ++ code ∷ []) m.handled_requests
            (targets text req e) v)
        m s (continues m' s') v t

  History-HasCells : (m : Metrics) → History beast dispatcher answer m → HasCells m
  History-HasCells _ began = tt
  History-HasCells m' (went_on {m = m} s s' h t) = Step-HasCells m m' s s' (History-HasCells m h) t

-- Whatever the sessions have done, where the parser of requests gives targets with a byte and
-- without a space, each handler but the echo handler and the proxy answers each request with a
-- response of the status 200 or 404; none throws, hangs or does what is undefined.
pub History-IsAnswered :
    (w : World) (fuel : ℕ) (handler_info : List (Bytes × Bytes)) (dispatcher : Dispatcher)
    (h : Handler) (m : Metrics) (request : Request)
    → ((text : Bytes) (req : Request) → w.beast.parse_request text ≡ some req → IsCell req.target)
    → History w.beast dispatcher (handle_request w fuel handler_info) m
    → (EchoesOrProxies h → ⊥)
    → IsAnswered (handle_request w fuel handler_info h m request)
History-IsAnswered w fuel info dispatcher h m request targets history n =
    handle_request-IsAnswered w fuel info h m request n
      (History-HasCells w.beast dispatcher (handle_request w fuel info) targets m history)
