-- ===== src/Session/Answers.antt =====
-- The branches of `send_response` of src/session.cc.
use https_server.Prelude.{
  ℕ, suc, ◌≡◌, ◌≢◌, refl, subst, false, List, [], ◌∷◌, ◌++◌, none, some, arith, Bytes, Option-cases,
  Bool, true, inl, inr, equal, equal_iff,
}
use https_server.Config.{Config}
use https_server.Dispatcher.Register.{init_handlers-get_request_handler}
use https_server.Dispatcher.{Dispatcher, get_request_handler, init_handlers}
use https_server.Handlers.{Handler, built}
use https_server.Http.{Request, Response, Beast, Reply, replied, threw, hung, undefined}
use https_server.Session.{
  Session, Metrics, Outcome, continues, throws, hangs, faults, send_reply, write_logged,
  codes_so_far, count_request, send_response, send_parsed, bad_request, write_response,
}
use https_server.StdString.{c_string}
use https_server.StdMap.Laws.{lookup-insert}
use https_server.StdMap.{lookup}

-- What an answer leaves in the metrics: one request more, its code behind the codes of its target,
-- and the other targets as they were.
pub record Recorded (uri : Bytes) (code : ℕ) (m m' : Metrics) : Type 0 where
  pub counted : m'.request_count ≡ suc m.request_count
  pub added :
      lookup uri m'.handled_requests
      ≡ some (codes_so_far (lookup uri m.handled_requests) ++ code ∷ [])
  pub others :
      (other : Bytes)
      → equal uri other ≡ false
      → lookup other m'.handled_requests ≡ lookup other m.handled_requests

count_request-Recorded :
    (uri : Bytes) (code : ℕ) (m : Metrics) → Recorded uri code m (count_request uri code m)
count_request-Recorded uri code m =
    let old = codes_so_far (lookup uri m.handled_requests) in
    record {
      counted = omega arith;
      added =
          ground
            (arith, equal_iff uri uri, lookup-insert uri uri (old ++ code ∷ []) m.handled_requests);
      others =
          λ other ne. ground (arith, lookup-insert uri other (old ++ code ∷ []) m.handled_requests);
    }

-- What a handler that does not return a response makes of `send_response`.
pub data Failed : Reply → Outcome → Type 0 where
  threw_out : Failed threw throws
  hung_up : Failed hung hangs
  faulted : Failed undefined faults

module _ (beast : Beast) (dispatcher : Dispatcher)
    (handle_request : Handler → Metrics → Request → Reply) where
  -- What `send_response` does with the text of `data_`.
  pub data Answer (m : Metrics) (s : Session) : Outcome → Type 0 where
    malformed :
        (r : Response)
        → beast.parse_request (c_string s.buffer_data) ≡ none
        → r.result ≡ 400
        → Answer m s (continues m (write_response s r))
    answered :
        (req : Request) (handler : Handler) (r : Response) (m' : Metrics)
        → beast.parse_request (c_string s.buffer_data) ≡ some req
        → get_request_handler dispatcher req.target ≡ some handler
        → handle_request handler m req ≡ replied r
        → s.has_peer ≡ true
        → Recorded req.target r.result m m'
        → Answer m s (continues m' (write_response s r))
    peer_gone :
        (req : Request) (handler : Handler) (r : Response)
        → beast.parse_request (c_string s.buffer_data) ≡ some req
        → get_request_handler dispatcher req.target ≡ some handler
        → handle_request handler m req ≡ replied r
        → s.has_peer ≡ false
        → Answer m s throws
    failed :
        (req : Request) (handler : Handler) (r : Reply) {o : Outcome}
        → beast.parse_request (c_string s.buffer_data) ≡ some req
        → get_request_handler dispatcher req.target ≡ some handler
        → handle_request handler m req ≡ r
        → Failed r o
        → Answer m s o
    null_handler :
        (req : Request)
        → beast.parse_request (c_string s.buffer_data) ≡ some req
        → get_request_handler dispatcher req.target ≡ none
        → Answer m s faults

  write_logged-Answer :
      (m : Metrics) (s : Session) (req : Request) (handler : Handler) (r : Response)
      (has_peer : Bool)
      → beast.parse_request (c_string s.buffer_data) ≡ some req
      → get_request_handler dispatcher req.target ≡ some handler
      → handle_request handler m req ≡ replied r
      → s.has_peer ≡ has_peer
      → Answer m s (write_logged (count_request req.target r.result m) s r has_peer)
  write_logged-Answer m s req handler r true e found same peer =
      answered req handler r _ e found same peer (count_request-Recorded req.target r.result m)
  write_logged-Answer m s req handler r false e found same gone =
      peer_gone req handler r e found same gone

  send_reply-Answer :
      (m : Metrics) (s : Session) (req : Request) (handler : Handler) (r : Reply)
      → beast.parse_request (c_string s.buffer_data) ≡ some req
      → get_request_handler dispatcher req.target ≡ some handler
      → handle_request handler m req ≡ r
      → Answer m s (send_reply m s req r)
  send_reply-Answer m s req handler (replied r) e found same =
      write_logged-Answer m s req handler r s.has_peer e found same refl
  send_reply-Answer m s req handler threw e found same =
      failed req handler threw e found same threw_out
  send_reply-Answer m s req handler hung e found same = failed req handler hung e found same hung_up
  send_reply-Answer m s req handler undefined e found same =
      failed req handler undefined e found same faulted

  -- A text that is no request is answered with the status 400 and is not counted; a request is
  -- answered by the handler that the dispatcher finds for its target: the response that it returns
  -- is sent, and the metrics count it and list its code under the target alone, but where the peer
  -- has gone the call throws in place of that; a handler that throws, never returns or does what is
  -- undefined passes this on, and where there is no handler the call is undefined.
  pub send_response-Answer :
      (m : Metrics) (s : Session) → Answer m s (send_response beast dispatcher handle_request m s)
  unfolding send_response
  send_response-Answer m s = elim (Option-cases (beast.parse_request (c_string s.buffer_data))) [
    | inl e ↦
        rw (e, send_parsed)
          (malformed (bad_request beast dispatcher handle_request) e (beast.same_result _))
    | inr (req, e) ↦ elim (Option-cases (get_request_handler dispatcher req.target)) [
      | inl n ↦ rw (e, send_parsed, n) (null_handler req e n)
      | inr (h, found) ↦
          rw (e, send_parsed, found)
            (send_reply-Answer m s req h (handle_request h m req) e found refl)
    ]
  ]

  Answer-ne-faults :
      (handler_info : List (Bytes × Bytes)) (config : Config) (m : Metrics) (s : Session)
      (o : Outcome)
      → init_handlers handler_info config ≡ built dispatcher
      → ((req : Request)
          → beast.parse_request (c_string s.buffer_data) ≡ some req
          → (rest : Bytes) × (req.target ≡ b'/' ∷ rest))
      → ((h : Handler) (req : Request) → handle_request h m req ≢ undefined)
      → Answer m s o
      → o ≢ faults
  Answer-ne-faults handler_info config m s _ e slash defined (malformed r _ _) = λ h. cc
  Answer-ne-faults handler_info config m s _ e slash defined (answered req h r m' _ _ _ _ _) =
      λ h. cc
  Answer-ne-faults handler_info config m s _ e slash defined (peer_gone req h r _ _ _ _) = λ h. cc
  Answer-ne-faults handler_info config m s _ e slash defined (failed req h _ _ _ same threw_out) =
      λ h. cc
  Answer-ne-faults handler_info config m s _ e slash defined (failed req h _ _ _ same hung_up) =
      λ h. cc
  Answer-ne-faults handler_info config m s _ e slash defined (failed req h _ _ _ same faulted) =
      absurd (defined h req same)
  Answer-ne-faults handler_info config m s _ e slash defined (null_handler req p n) =
      let (rest, same) = slash req p in
      let has_handler : get_request_handler dispatcher (b'/' ∷ rest) ≢ none =
        init_handlers-get_request_handler handler_info config dispatcher rest e in
      λ h. has_handler (subst (λ target. get_request_handler dispatcher target ≡ none) same n)

  -- On a dispatcher that is built, and with handlers that do nothing undefined, `send_response`
  -- does nothing undefined either, for every text that is no request, or a request whose target
  -- begins with a slash: it calls through no null pointer.
  pub send_response-ne-faults :
      (handler_info : List (Bytes × Bytes)) (config : Config) (m : Metrics) (s : Session)
      → init_handlers handler_info config ≡ built dispatcher
      → ((req : Request)
          → beast.parse_request (c_string s.buffer_data) ≡ some req
          → (rest : Bytes) × (req.target ≡ b'/' ∷ rest))
      → ((h : Handler) (req : Request) → handle_request h m req ≢ undefined)
      → send_response beast dispatcher handle_request m s ≢ faults
  send_response-ne-faults handler_info config m s e slash defined =
      Answer-ne-faults handler_info config m s (send_response beast dispatcher handle_request m s) e
        slash defined (send_response-Answer m s)
