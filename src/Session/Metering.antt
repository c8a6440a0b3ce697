-- ===== src/Session/Metering.antt =====
-- What the steps of src/session.cc do to the static metrics: nothing, or `count_request`.
use https_server.Prelude.{
  ℕ, ◌+◌, ◌≡◌, sym, subst, Bool, true, false, Option, none, some, ltb, Bytes, length, Bool-cases,
  Option-cases, inl, inr,
}
use https_server.Dispatcher.{Dispatcher, get_request_handler}
use https_server.Handlers.{Handler}
use https_server.Http.{Request, Beast, Reply, replied, threw, hung, undefined}
use https_server.Session.{
  Session, Metrics, Outcome, continues, throws, hangs, faults, send_reply, max_length,
  count_request, end_of_request, handle_read, send_response, send_parsed, complete_read, Step,
  handshaken, received, written, peer_left,
}
use https_server.StdString.{c_string}

abbrev pub OnMetrics : (Metrics → Type 0) → Outcome → Type 0
OnMetrics P (continues m s) = P m
OnMetrics P throws = Unit
OnMetrics P hangs = Unit
OnMetrics P faults = Unit

send_reply-OnMetrics :
    (P : Metrics → Type 0) (m : Metrics) (s : Session) (req : Request) (r : Reply)
    → ((code : ℕ) → P (count_request req.target code m))
    → P m
    → OnMetrics P (send_reply m s req r)
send_reply-OnMetrics P m s req (replied r) count v = elim (Bool-cases s.has_peer) [
  | inl e ↦ rw e (count r.result)
  | inr e ↦ rw e tt
]
send_reply-OnMetrics P m s req threw count v = tt
send_reply-OnMetrics P m s req hung count v = tt
send_reply-OnMetrics P m s req undefined count v = tt

-- A predicate that `count_request` keeps, for the requests that a text in `data_` may be.
module _ (beast : Beast) (dispatcher : Dispatcher)
    (handle_request : Handler → Metrics → Request → Reply) (P : Metrics → Type 0)
    (keep : (text : Bytes) (req : Request) (code : ℕ) (m : Metrics)
      → beast.parse_request text ≡ some req
      → P m
      → P (count_request req.target code m)) where
  send_response-OnMetrics :
      (m : Metrics) (s : Session)
      → P m
      → OnMetrics P (send_response beast dispatcher handle_request m s)
  unfolding send_response
  send_response-OnMetrics m s v =
      elim (Option-cases (beast.parse_request (c_string s.buffer_data))) [
        | inl e ↦ rw (e, send_parsed) v
        | inr (req, e) ↦ elim (Option-cases (get_request_handler dispatcher req.target)) [
          | inl n ↦ rw (e, send_parsed, n) tt
          | inr (h, found) ↦
              rw (e, send_parsed, found)
                (send_reply-OnMetrics P m s req (handle_request h m req)
                  (λ code. keep (c_string s.buffer_data) req code m e v) v)
        ]
      ]

  handle_read-OnMetrics :
      (m : Metrics) (s : Session) (error : Bool)
      → P m
      → OnMetrics P (handle_read beast dispatcher handle_request m s error)
  unfolding handle_read
  handle_read-OnMetrics m s true v = v
  handle_read-OnMetrics m s false v =
      elim (Bool-cases (ltb (length (c_string s.buffer_data)) max_length)) [
        | inl fits ↦ elim (Bool-cases (end_of_request s.buffer_data)) [
          | inl e ↦ rw (fits, e) (send_response-OnMetrics m s v)
          | inr e ↦ rw (fits, e) v
        ]
        | inr e ↦ rw (e) tt
      ]

  complete_read-OnMetrics :
      (m : Metrics) (s : Session) (offset : ℕ) (bytes : Option Bytes)
      → P m
      → OnMetrics P (complete_read beast dispatcher handle_request m s offset bytes)
  unfolding complete_read
  complete_read-OnMetrics m s offset none v = handle_read-OnMetrics m s true v
  complete_read-OnMetrics m s offset (some bytes) v =
      elim (Bool-cases (ltb max_length (offset + length bytes))) [
        | inl e ↦ rw (e) tt
        | inr e ↦ rw (e) (handle_read-OnMetrics m _ false v)
      ]

  pub Step-OnMetrics :
      (m : Metrics) (s : Session) (o : Outcome)
      → P m
      → Step beast dispatcher handle_request m s o
      → OnMetrics P o
  Step-OnMetrics m s _ v (handshaken error e) = v
  Step-OnMetrics m s o v (received offset bytes e _ same) =
      subst (OnMetrics P) (sym same) (complete_read-OnMetrics m s offset bytes v)
  Step-OnMetrics m s _ v (written error e) = v
  Step-OnMetrics m s _ v peer_left = v
