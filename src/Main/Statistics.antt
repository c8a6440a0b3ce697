-- ===== src/Main/Statistics.antt =====
-- The page of src/status_handler.cc as the program of src/server_main.cc serves it.
use https_server.Prelude.{ℕ, ◌≡◌, ap, ◌∙◌, true, List, some, Bytes}
use https_server.Config.{Config, nil}
use https_server.Dispatcher.Routed.{LeadsTo}
use https_server.Dispatcher.{Dispatcher, get_request_handler, trim_slashes}
use https_server.Handlers.{status_handler}
use https_server.Http.{Request, Response}
use https_server.Main.Answering.{Running-HasCells}
use https_server.Main.Routing.{Running-finds}
use https_server.Main.Running.{Running, Running-IsSound}
use https_server.Main.{Host, Program}
use https_server.Parser.{parse, returned}
use https_server.Requests.Safety.{HasCells}
use https_server.Requests.{World, reply_of_built, handle_request}
use https_server.Session.Counting.{IsCounted}
use https_server.Session.{
  Session, Metrics, Outcome, continues, codes_so_far, count_request, write_response, write_logged,
  send_reply, respond, send_parsed, send_response,
}
use https_server.Status.Counts.{occurrences, response_key, lookup-condense}
use https_server.Status.Rows.{RowsOf, status_page-RowsOf}
use https_server.Status.Split.{IsCell}
use https_server.Status.Sums.{sum, count_so_far, sum-condense}
use https_server.Status.{condense, page, handler_rows}
use https_server.StdMap.{lookup}
use https_server.StdString.{c_string}

-- A response that shows the metrics: the number of requests; a row for each count, which add up to
-- it; and each count is how often the path has been answered with the code. It is sent, and counted
-- behind that.
pub record ShowsMetrics (handler_info : List (Bytes × Bytes)) (m : Metrics) (s : Session)
    (req : Request) (o : Outcome) : Type 0 where
  pub response : Response
  pub rows : Bytes
  pub goes_on : o ≡ continues (count_request req.target 200 m) (write_response s response)
  pub status : response.result ≡ 200
  pub body : response.body ≡ page m.request_count rows (handler_rows handler_info)
  pub shown : RowsOf (condense m) rows
  pub sums : sum (condense m) ≡ m.request_count
  pub counts :
      (uri : Bytes) (code : ℕ)
      → count_so_far (lookup (response_key uri code) (condense m))
        ≡ occurrences code (codes_so_far (lookup uri m.handled_requests))

send_response-ShowsMetrics :
    (w : World) (fuel : ℕ) (handler_info : List (Bytes × Bytes)) (d : Dispatcher) (m : Metrics)
    (s : Session) (req : Request)
    → w.beast.parse_request (c_string s.buffer_data) ≡ some req
    → get_request_handler d req.target ≡ some status_handler
    → s.has_peer ≡ true
    → HasCells m
    → IsCounted m
    → ShowsMetrics handler_info m s req
        (send_response w.beast d (handle_request w fuel handler_info) m s)
unfolding send_response handle_request
send_response-ShowsMetrics w fuel info d m s req parsed found peer cells counted =
    let (r, rows, made, status, body, shown) = status_page-RowsOf w.beast info m cells in
    let answer = handle_request w fuel info in
    record {
      response = r;
      rows = rows;
      goes_on =
          ap (send_parsed w.beast d answer m s) parsed
          ∙ ap (respond w.beast d answer m s req) found
          ∙ ap (λ b. send_reply m s req (reply_of_built b)) made
          ∙ ap (write_logged (count_request req.target r.result m) s r) peer
          ∙ ap (λ code. continues (count_request req.target code m) (write_response s r)) status;
      status = status;
      body = body;
      shown = shown;
      sums = sum-condense m counted.0;
      counts = λ uri code. lookup-condense m uri code counted.1;
    }

-- In every state of the program, where the config in its file leads the target of a request to the
-- status handler, where the parser of requests gives targets with a byte and without a space, and
-- where the peer is there, `send_response` of either server sends the page of the metrics, with the
-- status 200: the number of requests that both servers have answered so far; a row for each path
-- and code that they have been answered with, and how often; the rows' counts add up to that
-- number. The request is counted behind it.
pub Running-ShowsMetrics :
    (w : World) (fuel : ℕ) (handler_info : List (Bytes × Bytes)) (host : Host) (file_name : Bytes)
    (p : Program) (s : Session) (req : Request)
    → ((text : Bytes) (req : Request) → w.beast.parse_request text ≡ some req → IsCell req.target)
    → Running w.beast (handle_request w fuel handler_info) host file_name p
    → ((text : Bytes) (config : Config)
        → host.read_config file_name ≡ some text
        → parse text nil ≡ returned true config
        → LeadsTo config (trim_slashes req.target) status_handler)
    → w.beast.parse_request (c_string s.buffer_data) ≡ some req
    → s.has_peer ≡ true
    → ShowsMetrics handler_info p.metrics s req (
        send_response w.beast p.http_server.dispatcher
          (handle_request w fuel handler_info)
          p.metrics
          s)
      × ShowsMetrics handler_info p.metrics s req (
          send_response w.beast p.https_server.dispatcher
            (handle_request w fuel handler_info)
            p.metrics
            s)
Running-ShowsMetrics w fuel info host file_name p s req targets run leads parsed peer =
    let answer = handle_request w fuel info in
    let cells = Running-HasCells w fuel info targets host file_name p run in
    let counted = (Running-IsSound w.beast answer host file_name p run).counted in
    let (found, found_ssl) =
      Running-finds w.beast answer host file_name p req.target status_handler run leads in
    (
      send_response-ShowsMetrics w fuel info p.http_server.dispatcher p.metrics s req parsed found
          peer cells counted,
      send_response-ShowsMetrics w fuel info p.https_server.dispatcher p.metrics s req parsed
          found_ssl peer cells counted,
    )
