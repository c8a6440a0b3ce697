-- ===== src/Session/Lifecycle.antt =====
-- What a session of src/session.cc waits for, and what becomes of it.
use https_server.Prelude.{
  ℕ, ◌+◌, ◌<◌, ◌≡◌, ◌≢◌, refl, sym, subst, Bool, true, false, Option, none, some, ltb, ltb→lt,
  arith, Bytes, length, Bool-cases, Option-cases, inl, inr,
}
use https_server.Dispatcher.{Dispatcher, get_request_handler}
use https_server.Handlers.{Handler}
use https_server.Http.{Request, Response, Beast, Reply, replied, threw, hung, undefined}
use https_server.Session.{
  Version, http, https, Operation, handshake, read, write, Session, Metrics, Outcome, continues,
  throws, hangs, faults, write_logged, count_request, send_reply, max_length, new_session, start,
  handle_handshake, end_of_request, handle_read, handle_write, send_response, send_parsed, respond,
  complete_read, Step, handshaken, received, written, peer_left, write_response,
}
use https_server.StdString.{c_string}

-- What holds while an operation is pending: only a session on `https` shakes hands; a read goes
-- behind the text of `data_` and starts inside the buffer; a write has a response to send.
abbrev pub Fits : Session → Operation → Type 0
Fits s handshake = s.version ≡ https
Fits s (read offset) = (offset ≡ length (c_string s.buffer_data)) × (offset < max_length)
Fits s write = s.response ≢ none

-- A session waits for one operation, or is deleted, or has answered and closed its socket; nothing
-- is pending for the last two.
pub data IsValid (s : Session) : Type 0 where
  waiting :
      (o : Operation)
      → s.pending ≡ some o
      → Fits s o
      → s.is_open ≡ true
      → s.is_deleted ≡ false
      → IsValid s
  deleted : s.pending ≡ none → s.is_deleted ≡ true → IsValid s
  closed :
      s.pending ≡ none → s.is_open ≡ false → s.is_deleted ≡ false → s.response ≢ none → IsValid s

-- A predicate on the session where the handler returns.
abbrev pub OnSession : (Session → Type 0) → Outcome → Type 0
OnSession P (continues m s) = P s
OnSession P throws = Unit
OnSession P hangs = Unit
OnSession P faults = Unit

-- A session that its pending operation has woken is neither closed nor deleted.
abbrev IsAwake : Session → Type 0
IsAwake s = (s.is_open ≡ true) × (s.is_deleted ≡ false)

IsValid-IsAwake :
    (s : Session) (o : Operation) → s.pending ≡ some o → IsValid s → IsAwake s × Fits s o
IsValid-IsAwake s o e (waiting o' e' f opened live) =
    ((opened, live), subst (Fits s) (let same : o' ≡ o = cc in same) f)
IsValid-IsAwake s o e (deleted e' _) = cc
IsValid-IsAwake s o e (closed e' _ _ _) = cc

Fits-peer : (s : Session) (o : Operation) → Fits s o → Fits (record s { has_peer = false }) o
Fits-peer s handshake f = f
Fits-peer s (read offset) f = f
Fits-peer s write f = f

IsValid-peer : (s : Session) → IsValid s → IsValid (record s { has_peer = false })
IsValid-peer s (waiting o e f opened live) = waiting o e (Fits-peer s o f) opened live
IsValid-peer s (deleted e gone) = deleted e gone
IsValid-peer s (closed e shut live sent) = closed e shut live sent

pub start-IsValid : (v : Version) → IsValid (start (new_session v))
unfolding start c_string
start-IsValid http = waiting (read 0) refl (refl, omega arith) refl refl
start-IsValid https = waiting handshake refl refl refl refl

module _ (beast : Beast) (dispatcher : Dispatcher)
    (handle_request : Handler → Metrics → Request → Reply) where
  write_response-IsValid : (s : Session) (r : Response) → IsAwake s → IsValid (write_response s r)
  write_response-IsValid s r (opened, live) = waiting write refl (λ e. cc) opened live

  write_logged-IsValid :
      (m : Metrics) (s : Session) (r : Response) (has_peer : Bool)
      → IsAwake s
      → OnSession IsValid (write_logged m s r has_peer)
  write_logged-IsValid m s r true a = write_response-IsValid s r a
  write_logged-IsValid m s r false a = tt

  send_reply-IsValid :
      (m : Metrics) (s : Session) (req : Request) (r : Reply)
      → IsAwake s
      → OnSession IsValid (send_reply m s req r)
  send_reply-IsValid m s req (replied r) a =
      write_logged-IsValid (count_request req.target r.result m) s r s.has_peer a
  send_reply-IsValid m s req threw a = tt
  send_reply-IsValid m s req hung a = tt
  send_reply-IsValid m s req undefined a = tt

  respond-IsValid :
      (m : Metrics) (s : Session) (req : Request) (h : Option Handler)
      → IsAwake s
      → OnSession IsValid (respond beast dispatcher handle_request m s req h)
  respond-IsValid m s req none a = tt
  respond-IsValid m s req (some h) a = send_reply-IsValid m s req (handle_request h m req) a

  send_response-IsValid :
      (m : Metrics) (s : Session)
      → IsAwake s
      → OnSession IsValid (send_response beast dispatcher handle_request m s)
  unfolding send_response
  send_response-IsValid m s a = elim (Option-cases (beast.parse_request (c_string s.buffer_data))) [
    | inl e ↦ rw (e, send_parsed) (write_response-IsValid s _ a)
    | inr (req, e) ↦
        rw (e, send_parsed) (respond-IsValid m s req (get_request_handler dispatcher req.target) a)
  ]

  handle_read-IsValid :
      (m : Metrics) (s : Session) (error : Bool)
      → IsAwake s
      → OnSession IsValid (handle_read beast dispatcher handle_request m s error)
  unfolding handle_read
  handle_read-IsValid m s true a = deleted refl refl
  handle_read-IsValid m s false a =
      elim (Bool-cases (ltb (length (c_string s.buffer_data)) max_length)) [
        | inl fits ↦ elim (Bool-cases (end_of_request s.buffer_data)) [
          | inl e ↦ rw (fits, e) (send_response-IsValid m s a)
          | inr e ↦
              rw (fits, e)
                (waiting (read (length (c_string s.buffer_data))) refl (refl, ltb→lt _ _ fits) a.0
                  a.1)
        ]
        | inr e ↦ rw (e) tt
      ]

  complete_read-IsValid :
      (m : Metrics) (s : Session) (offset : ℕ) (bytes : Option Bytes)
      → IsAwake s
      → OnSession IsValid (complete_read beast dispatcher handle_request m s offset bytes)
  unfolding complete_read
  complete_read-IsValid m s offset none a = handle_read-IsValid m s true a
  complete_read-IsValid m s offset (some bytes) a =
      elim (Bool-cases (ltb max_length (offset + length bytes))) [
        | inl e ↦ rw (e) tt
        | inr e ↦ rw (e) (handle_read-IsValid m _ false a)
      ]

  -- The sessions that a new one becomes; other sessions may change the metrics between two steps.
  pub data Reachable : Session → Type 0 where
    started : (v : Version) → Reachable (start (new_session v))
    stepped :
        {s s' : Session} (m m' : Metrics)
        → Reachable s
        → Step beast dispatcher handle_request m s (continues m' s')
        → Reachable s'

  pub Step-IsValid :
      (m : Metrics) (s : Session) (o : Outcome)
      → IsValid s
      → Step beast dispatcher handle_request m s o
      → OnSession IsValid o
  unfolding handle_handshake handle_write c_string
  Step-IsValid m s _ v (handshaken true e) = deleted refl refl
  Step-IsValid m s _ v (handshaken false e) =
      let (a, _) = IsValid-IsAwake s handshake e v in
      waiting (read 0) refl (refl, omega arith) a.0 a.1
  Step-IsValid m s o v (received offset bytes e _ same) =
      subst (OnSession IsValid) (sym same)
        (complete_read-IsValid m s offset bytes (IsValid-IsAwake s (read offset) e v).0)
  Step-IsValid m s _ v (written true e) = deleted refl refl
  Step-IsValid m s _ v (written false e) =
      let (a, sent) = IsValid-IsAwake s write e v in closed refl refl a.1 sent
  Step-IsValid m s _ v peer_left = IsValid-peer s v

  -- Every session that a new one becomes waits for one operation that fits it, or is deleted, or
  -- has answered and closed its socket; nothing is pending for the last two, so no handler runs on
  -- a deleted session.
  pub Reachable-IsValid : (s : Session) → Reachable s → IsValid s
  Reachable-IsValid _ (started v) = start-IsValid v
  Reachable-IsValid s' (stepped {s = s} m m' r t) =
      Step-IsValid m s (continues m' s') (Reachable-IsValid s r) t
