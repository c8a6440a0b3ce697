-- ===== src/Main/Running.antt =====
-- The program of src/server_main.cc as it runs: the two servers step in any order, and share the
-- static metrics.
use https_server.Prelude.{ℕ, ◌≡◌, refl, sym, subst, [], ◌∷◌, Bytes, codes, equal}
use https_server.Dispatcher.Register.{init_handlers-IsValid}
use https_server.Dispatcher.Register as Register
use https_server.Handlers.{Handler}
use https_server.Http.{Request, Beast, Reply}
use https_server.Main.Starts.{Starts, main_iff}
use https_server.Main.{Host, going, Program, main}
use https_server.Server.Serving.{
  new_server-dispatcher, IsServing, new_server-IsServing, ServerStep-IsServing,
  ServerStep-dispatcher, ServerStep-IsCounted,
}
use https_server.Server.{Server, ServerStep}
use https_server.Session.Counting.{IsCounted}
use https_server.Session.{http, https, Metrics}
use https_server.StdMap.Order.{IsSorted}

module _ (beast : Beast) (handle_request : Handler → Metrics → Request → Reply) where
  pub data ProgramStep (p : Program) : Program → Type 0 where
    on_http :
        {m : Metrics} {srv : Server}
        → ServerStep beast handle_request p.metrics p.http_server m srv
        → ProgramStep p (record p { metrics = m; http_server = srv })
    on_https :
        {m : Metrics} {srv : Server}
        → ServerStep beast handle_request p.metrics p.https_server m srv
        → ProgramStep p (record p { metrics = m; https_server = srv })

  -- The states of the program that `main` starts on this host with this file.
  pub data Running (host : Host) (file_name : Bytes) : Program → Type 0 where
    launched :
        (port ssl_port : ℕ) (p : Program)
        → main host (file_name ∷ []) ≡ going (port, ssl_port, p)
        → Running host file_name p
    moved :
        {p p' : Program} → Running host file_name p → ProgramStep p p' → Running host file_name p'

  -- Both servers wait for the next connection with a new session at hand, their sessions are sound,
  -- the requests are counted, and both dispatchers are as `init_handlers` leaves them.
  pub record IsSound (p : Program) : Type 0 where
    pub serves_http : IsServing http p.http_server
    pub serves_https : IsServing https p.https_server
    pub counted : IsCounted p.metrics
    pub dispatches : Register.IsValid p.http_server.dispatcher
    pub dispatches_ssl : Register.IsValid p.https_server.dispatcher

  ProgramStep-IsSound : (p p' : Program) → ProgramStep p p' → IsSound p → IsSound p'
  ProgramStep-IsSound p _ (on_http {m = m} {srv = srv} t) h = record {
    serves_http =
        ServerStep-IsServing beast handle_request http p.metrics m p.http_server srv t
          h.serves_http;
    serves_https = h.serves_https;
    counted = ServerStep-IsCounted beast handle_request p.metrics m p.http_server srv t h.counted;
    dispatches =
        subst Register.IsValid
          (sym (ServerStep-dispatcher beast handle_request p.metrics m p.http_server srv t))
          h.dispatches;
    dispatches_ssl = h.dispatches_ssl;
  }
  ProgramStep-IsSound p _ (on_https {m = m} {srv = srv} t) h = record {
    serves_http = h.serves_http;
    serves_https =
        ServerStep-IsServing beast handle_request https p.metrics m p.https_server srv t
          h.serves_https;
    counted = ServerStep-IsCounted beast handle_request p.metrics m p.https_server srv t h.counted;
    dispatches = h.dispatches;
    dispatches_ssl =
        subst Register.IsValid
          (sym (ServerStep-dispatcher beast handle_request p.metrics m p.https_server srv t))
          h.dispatches_ssl;
  }

  Starts-IsSound :
      (host : Host) (file_name : Bytes) (port ssl_port : ℕ) (p : Program)
      → Starts host file_name port ssl_port p
      → IsSound p
  unfolding IsSorted equal
  Starts-IsSound host file_name port ssl_port p s = subst IsSound (sym s.is_program) (record {
    serves_http = new_server-IsServing http (codes "http") s.dispatcher refl;
    serves_https = new_server-IsServing https (codes "https") s.ssl_dispatcher refl;
    counted = (refl, tt);
    dispatches =
        subst Register.IsValid (sym (new_server-dispatcher (codes "http") s.dispatcher))
          (init_handlers-IsValid [] s.config s.dispatcher s.has_dispatcher);
    dispatches_ssl =
        subst Register.IsValid (sym (new_server-dispatcher (codes "https") s.ssl_dispatcher)) (
          init_handlers-IsValid s.dispatcher.handler_info s.config s.ssl_dispatcher
            s.has_ssl_dispatcher);
  })

  -- In every state of the program, whatever connections, bytes and errors come in whatever order:
  -- both servers wait for the next connection, every session that they have started is in order and
  -- within its buffer, `request_count` is the number of codes in `handled_requests`, and each
  -- dispatcher lists its handlers under their names, with the 404 handler at "/".
  pub Running-IsSound :
      (host : Host) (file_name : Bytes) (p : Program) → Running host file_name p → IsSound p
  Running-IsSound host file_name p (launched port ssl_port _ e) =
      Starts-IsSound host file_name port ssl_port p ((main_iff host file_name port ssl_port p).0 e)
  Running-IsSound host file_name p' (moved {p = p} r t) =
      ProgramStep-IsSound p p' t (Running-IsSound host file_name p r)
