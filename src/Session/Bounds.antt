-- ===== src/Session/Bounds.antt =====
-- What the reads of src/session.cc store stays inside `data_`, unless the step is a fault.
use https_server.Prelude.{
  ℕ, zero, suc, ◌+◌, ◌-◌, ◌≤◌, ◌≡◌, sym, subst, Bool, true, false, [], ◌∷◌, ◌++◌, Option, none,
  some, ltb, arith, Bytes, length, length-append, take, drop, Bool-cases, inl, inr,
}
use https_server.Dispatcher.{Dispatcher, get_request_handler}
use https_server.Handlers.{Handler}
use https_server.Http.{Request, Beast, Reply, replied, threw, hung, undefined}
use https_server.Session.Lifecycle.{OnSession, Reachable, started, stepped}
use https_server.Session.{
  http, https, Version, Session, Metrics, Outcome, continues, max_length, start, new_session,
  handle_handshake, end_of_request, handle_read, handle_write, send_reply, send_response,
  send_parsed, respond, complete_read, store, Step, handshaken, received, written, peer_left,
}
use https_server.StdString.{c_string}

length-take : (n : ℕ) (s : Bytes) → length (take n s) ≤ n
length-take zero s = omega arith
length-take (suc n) [] = omega arith
length-take (suc n) (c ∷ s) = omega (arith, length-take n s)

length-drop : (n : ℕ) (s : Bytes) → length (drop n s) ≡ length s - n
length-drop zero s = omega arith
length-drop (suc n) [] = omega arith
length-drop (suc n) (c ∷ s) = omega (arith, length-drop n s)

-- The buffer holds at most `max_length` bytes.
abbrev pub IsBounded : Session → Type 0
IsBounded s = length s.buffer_data ≤ max_length

store-le :
    (offset : ℕ) (b old : Bytes)
    → length old ≤ max_length
    → ltb max_length (offset + length b) ≡ false
    → length (store offset b old) ≤ max_length
store-le offset b old small fits =
    let rest = drop (offset + length b) old in
    ground (
      arith,
      length-append (take offset old) (b ++ rest),
      length-append b rest,
      length-take offset old,
      length-drop (offset + length b) old,
    )

module _ (beast : Beast) (dispatcher : Dispatcher)
    (handle_request : Handler → Metrics → Request → Reply) where
  send_reply-IsBounded :
      (m : Metrics) (s : Session) (req : Request) (r : Reply)
      → IsBounded s
      → OnSession IsBounded (send_reply m s req r)
  send_reply-IsBounded m s req (replied r) b = elim (Bool-cases s.has_peer) [
    | inl e ↦ rw e b
    | inr e ↦ rw e tt
  ]
  send_reply-IsBounded m s req threw b = tt
  send_reply-IsBounded m s req hung b = tt
  send_reply-IsBounded m s req undefined b = tt

  respond-IsBounded :
      (m : Metrics) (s : Session) (req : Request) (h : Option Handler)
      → IsBounded s
      → OnSession IsBounded (respond beast dispatcher handle_request m s req h)
  respond-IsBounded m s req none b = tt
  respond-IsBounded m s req (some h) b = send_reply-IsBounded m s req (handle_request h m req) b

  send_parsed-IsBounded :
      (m : Metrics) (s : Session) (parsed : Option Request)
      → IsBounded s
      → OnSession IsBounded (send_parsed beast dispatcher handle_request m s parsed)
  send_parsed-IsBounded m s none b = b
  send_parsed-IsBounded m s (some req) b =
      respond-IsBounded m s req (get_request_handler dispatcher req.target) b

  handle_read-IsBounded :
      (m : Metrics) (s : Session) (error : Bool)
      → IsBounded s
      → OnSession IsBounded (handle_read beast dispatcher handle_request m s error)
  unfolding handle_read send_response
  handle_read-IsBounded m s true b = b
  handle_read-IsBounded m s false b =
      elim (Bool-cases (ltb (length (c_string s.buffer_data)) max_length)) [
        | inl fits ↦ elim (Bool-cases (end_of_request s.buffer_data)) [
          | inl e ↦
              rw (fits, e)
                (send_parsed-IsBounded m s (beast.parse_request (c_string s.buffer_data)) b)
          | inr e ↦ rw (fits, e) b
        ]
        | inr e ↦ rw (e) tt
      ]

  complete_read-IsBounded :
      (m : Metrics) (s : Session) (offset : ℕ) (bytes : Option Bytes)
      → IsBounded s
      → OnSession IsBounded (complete_read beast dispatcher handle_request m s offset bytes)
  unfolding complete_read
  complete_read-IsBounded m s offset none b = handle_read-IsBounded m s true b
  complete_read-IsBounded m s offset (some bytes) b =
      elim (Bool-cases (ltb max_length (offset + length bytes))) [
        | inl e ↦ rw (e) tt
        | inr e ↦ rw (e) (handle_read-IsBounded m _ false (store-le offset bytes s.buffer_data b e))
      ]

  pub Step-IsBounded :
      (m : Metrics) (s : Session) (o : Outcome)
      → IsBounded s
      → Step beast dispatcher handle_request m s o
      → OnSession IsBounded o
  unfolding handle_handshake handle_write
  Step-IsBounded m s _ b (handshaken true e) = b
  Step-IsBounded m s _ b (handshaken false e) = omega arith
  Step-IsBounded m s o b (received offset bytes e _ same) =
      subst (OnSession IsBounded) (sym same) (complete_read-IsBounded m s offset bytes b)
  Step-IsBounded m s _ b (written true e) = b
  Step-IsBounded m s _ b (written false e) = omega arith
  Step-IsBounded m s _ b peer_left = b

  pub start-IsBounded : (v : Version) → IsBounded (start (new_session v))
  unfolding start
  start-IsBounded http = omega arith
  start-IsBounded https = omega arith

  -- The buffer of a session holds at most `max_length` bytes, in every state that a new session
  -- comes to: a read that would store more is a fault.
  pub Reachable-IsBounded :
      (s : Session) → Reachable beast dispatcher handle_request s → IsBounded s
  Reachable-IsBounded _ (started v) = start-IsBounded v
  Reachable-IsBounded s' (stepped {s = s} m m' r t) =
      Step-IsBounded m s (continues m' s') (Reachable-IsBounded s r) t
