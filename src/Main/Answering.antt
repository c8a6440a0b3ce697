-- ===== src/Main/Answering.antt =====
-- What the program of src/server_main.cc answers: its handlers, in the sessions of its two servers.
use https_server.Prelude.{
  ℕ, ◌≡◌, ◌⊎◌, ◌≢◌, refl, ◌∙◌, sym, subst, true, List, ◌∷◌, none, some, Bytes, inl, inr,
}
use https_server.Config.{Config, nil}
use https_server.Dispatcher.Excluded.{
  WithoutEchoOrProxy, init_handlers-HasNeither, get_request_handler-HasNeither,
}
use https_server.Dispatcher.Register.{init_handlers-get_request_handler}
use https_server.Dispatcher.{Dispatcher, get_request_handler}
use https_server.Handlers.{Handler}
use https_server.Http.{Request, Response, Reply, replied}
use https_server.Main.Running.{Running, launched, moved, on_http, on_https}
use https_server.Main.Routing.{FromFile, Running-IsConfigured}
use https_server.Main.Starts.{main_iff}
use https_server.Main.{Host, Program}
use https_server.Parser.{parse, returned}
use https_server.Requests.Safety.{IsAnswered, HasCells, Step-HasCells, handle_request-IsAnswered}
use https_server.Requests.{World, handle_request}
use https_server.Server.{Server, ServerStep, accepted, begun, served}
use https_server.Session.Answers.{
  Answer, malformed, answered, peer_gone, failed, null_handler, Failed, threw_out, hung_up, faulted,
  send_response-Answer,
}
use https_server.Session.{
  Session, Metrics, Outcome, continues, write, send_response, write_response,
}
use https_server.StdString.{c_string}
use https_server.Status.Split.{IsCell}

-- What `send_response` comes to where a response is sent.
pub record Sends (o : Outcome) : Type 0 where
  pub metrics : Metrics
  pub session : Session
  pub response : Response
  pub goes_on : o ≡ continues metrics session
  pub is_sent : session.response ≡ some response
  pub waits : session.pending ≡ some write
  pub status : (response.result ≡ 200) ⊎ ((response.result ≡ 400) ⊎ (response.result ≡ 404))

write_response-Sends :
    (m : Metrics) (s : Session) (r : Response)
    → (r.result ≡ 200) ⊎ ((r.result ≡ 400) ⊎ (r.result ≡ 404))
    → Sends (continues m (write_response s r))
write_response-Sends m s r status = record {
  metrics = m;
  session = write_response s r;
  response = r;
  goes_on = refl;
  is_sent = refl;
  waits = refl;
  status = status;
}

one_of_three : {n : ℕ} → (n ≡ 200) ⊎ (n ≡ 404) → (n ≡ 200) ⊎ ((n ≡ 400) ⊎ (n ≡ 404))
one_of_three (inl e) = inl e
one_of_three (inr e) = inr (inr e)

Failed-ne-replied :
    (r : Reply) (o : Outcome) (response : Response) → Failed r o → r ≢ replied response
Failed-ne-replied _ _ response threw_out = λ e. cc
Failed-ne-replied _ _ response hung_up = λ e. cc
Failed-ne-replied _ _ response faulted = λ e. cc

module _ (w : World) (fuel : ℕ) (handler_info : List (Bytes × Bytes))
    (targets : (text : Bytes) (req : Request)
      → w.beast.parse_request text ≡ some req
      → IsCell req.target) where
  ServerStep-HasCells :
      (m m' : Metrics) (srv srv' : Server)
      → ServerStep w.beast (handle_request w fuel handler_info) m srv m' srv'
      → HasCells m
      → HasCells m'
  ServerStep-HasCells m _ srv _ (accepted s error e) c = c
  ServerStep-HasCells m _ srv _ (begun before after s e) c = c
  ServerStep-HasCells m m' srv _ (served before after s s' e step) c =
      Step-HasCells w.beast srv.dispatcher (handle_request w fuel handler_info) targets m m' s s' c
        step

  pub Running-HasCells :
      (host : Host) (file_name : Bytes) (p : Program)
      → Running w.beast (handle_request w fuel handler_info) host file_name p
      → HasCells p.metrics
  Running-HasCells host file_name p (launched port ssl_port _ e) =
      let s = (main_iff host file_name port ssl_port p).0 e in
      subst (λ p. HasCells p.metrics) (sym s.is_program) tt
  Running-HasCells host file_name _ (moved {p = p} r (on_http {m = m} {srv = srv} t)) =
      ServerStep-HasCells p.metrics m p.http_server srv t (Running-HasCells host file_name p r)
  Running-HasCells host file_name _ (moved {p = p} r (on_https {m = m} {srv = srv} t)) =
      ServerStep-HasCells p.metrics m p.https_server srv t (Running-HasCells host file_name p r)

  -- In one session, on a dispatcher built from the file.
  module _ (host : Host) (file_name : Bytes) (d : Dispatcher) (m : Metrics) (s : Session)
      (from : FromFile host file_name d) (cells : HasCells m) (peer : s.has_peer ≡ true)
      (plain : (text : Bytes) (config : Config)
        → host.read_config file_name ≡ some text
        → parse text nil ≡ returned true config
        → WithoutEchoOrProxy config)
      (slash : (req : Request)
        → w.beast.parse_request (c_string s.buffer_data) ≡ some req
        → (rest : Bytes) × (req.target ≡ b'/' ∷ rest)) where
    found-IsAnswered :
        (req : Request) (h : Handler)
        → get_request_handler d req.target ≡ some h
        → IsAnswered (handle_request w fuel handler_info h m req)
    found-IsAnswered req h found =
        let without =
          init_handlers-HasNeither from.handler_info from.config d
            (plain from.text from.config from.is_read from.is_parsed) from.is_built in
        handle_request-IsAnswered w fuel handler_info h m req
          (get_request_handler-HasNeither d req.target h without found) cells

    Answer-Sends :
        (o : Outcome) → Answer w.beast d (handle_request w fuel handler_info) m s o → Sends o
    Answer-Sends _ (malformed r e bad) = write_response-Sends m s r (inr (inl bad))
    Answer-Sends _ (answered req h r m' is_req found same _ recorded) =
        let (r', (replies, status)) = found-IsAnswered req h found in
        let same_response : r' ≡ r = cc in
        write_response-Sends m' s r
          (one_of_three (subst (λ r. (r.result ≡ 200) ⊎ (r.result ≡ 404)) same_response status))
    Answer-Sends _ (peer_gone req h r is_req found same gone) = cc
    Answer-Sends o (failed req h r is_req found same why) =
        let (r', (replies, status)) = found-IsAnswered req h found in
        absurd (Failed-ne-replied r o r' why (sym same ∙ replies))
    Answer-Sends _ (null_handler req is_req missing) =
        let (rest, same) = slash req is_req in
        let has_handler =
          init_handlers-get_request_handler from.handler_info from.config d rest from.is_built in
        absurd (has_handler (subst (λ target. get_request_handler d target ≡ none) same missing))

-- In every state of the program, on a config that names no echo handler and no proxy, and where the
-- parser of requests gives targets with a byte and without a space, `send_response` of either
-- server sends a response of the status 200, 400 or 404, for every text that is no request, or a
-- request whose target begins with a slash, and a peer that is there: no handler throws, hangs or
-- does what is undefined.
pub Running-Sends :
    (w : World) (fuel : ℕ) (handler_info : List (Bytes × Bytes)) (host : Host) (file_name : Bytes)
    (p : Program) (s : Session)
    → ((text : Bytes) (req : Request) → w.beast.parse_request text ≡ some req → IsCell req.target)
    → ((text : Bytes) (config : Config)
        → host.read_config file_name ≡ some text
        → parse text nil ≡ returned true config
        → WithoutEchoOrProxy config)
    → Running w.beast (handle_request w fuel handler_info) host file_name p
    → ((req : Request)
        → w.beast.parse_request (c_string s.buffer_data) ≡ some req
        → (rest : Bytes) × (req.target ≡ b'/' ∷ rest))
    → s.has_peer ≡ true
    → Sends (
        send_response w.beast p.http_server.dispatcher
          (handle_request w fuel handler_info)
          p.metrics
          s)
      × Sends (
          send_response w.beast p.https_server.dispatcher
            (handle_request w fuel handler_info)
            p.metrics
            s)
Running-Sends w fuel info host file_name p s targets plain run slash peer =
    let cells = Running-HasCells w fuel info targets host file_name p run in
    let answer = handle_request w fuel info in
    let (from_file, from_file_ssl) = Running-IsConfigured w.beast answer host file_name p run in
    (
      Answer-Sends w fuel info targets host file_name p.http_server.dispatcher p.metrics s from_file
          cells peer plain slash _
          (send_response-Answer w.beast p.http_server.dispatcher answer p.metrics s),
      Answer-Sends w fuel info targets host file_name p.https_server.dispatcher p.metrics s
          from_file_ssl cells peer plain slash _
          (send_response-Answer w.beast p.https_server.dispatcher answer p.metrics s),
    )
