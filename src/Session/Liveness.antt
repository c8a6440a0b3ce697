-- ===== src/Session/Liveness.antt =====
-- A request whose bytes arrive is answered, and its socket is closed, by the steps of
-- src/session.cc.
use https_server.Prelude.{
  ℕ, ◌<◌, ◌≡◌, ◌≢◌, refl, ◌∙◌, ap, sym, subst, true, false, List, [], ◌∷◌, ◌++◌, none, some, arith,
  Bytes, length, length-append, append-nil, append_assoc, All,
}
use https_server.Dispatcher.{Dispatcher, get_request_handler}
use https_server.Handlers.{Handler}
use https_server.Http.{Request, Response, Beast, Reply, replied}
use https_server.Session.Reassembly.{
  concat, filled-concat, holding, reading, take_chunk-false, take_chunk-true,
}
use https_server.Session.Text.{c_string-prefix, still_open}
use https_server.Session.{
  Version, http, https, new_session, start, handle_handshake, handshaken, Session, Metrics,
  continues, max_length, read_first, count_request, write_response, close_socket, end_of_request,
  send_response, send_parsed, handle_write, Step, received, written,
}
use https_server.StdString.{c_string}

module _ (beast : Beast) (dispatcher : Dispatcher)
    (handle_request : Handler → Metrics → Request → Reply) where
  -- Some steps of one session, with no step of another between them.
  pub data Runs : Metrics → Session → Metrics → Session → Type 0 where
    stays : (m : Metrics) (s : Session) → Runs m s m s
    steps :
        (m : Metrics) (s : Session) {m₁ m₂ : Metrics} {s₁ s₂ : Session}
        → Step beast dispatcher handle_request m s (continues m₁ s₁)
        → Runs m₁ s₁ m₂ s₂
        → Runs m s m₂ s₂

  -- What `send_response` makes of a whole request that a handler answers.
  send_response-replied :
      (m : Metrics) (s : Session) (req : Request) (h : Handler) (r : Response)
      → beast.parse_request (c_string s.buffer_data) ≡ some req
      → get_request_handler dispatcher req.target ≡ some h
      → handle_request h m req ≡ replied r
      → s.has_peer ≡ true
      → send_response beast dispatcher handle_request m s
        ≡ continues (count_request req.target r.result m) (write_response s r)
  unfolding send_response
  send_response-replied m s req h r e found same peer = rw (e, send_parsed, found, same, peer) refl

  -- The response is written, and the socket is closed.
  written_out :
      (m : Metrics) (s : Session) (r : Response)
      → Runs m (write_response s r) m (close_socket (write_response s r))
  unfolding handle_write
  written_out m s r = steps m (write_response s r) (written false refl) (stays m _)

  -- From the text `t` on, where a request's chunks come behind it.
  reading-answered :
      (m m' : Metrics) (s : Session) (r : Response) (t u : Bytes) (c : ℕ) (b : Bytes)
      (chunks : List Bytes)
      → t ++ (b ++ concat chunks) ≡ u ++ c ∷ []
      → All (λ chunk. chunk ≢ []) chunks
      → c_string (u ++ c ∷ []) ≡ u ++ c ∷ []
      → length (u ++ c ∷ []) < max_length
      → end_of_request u ≡ false
      → end_of_request (u ++ c ∷ []) ≡ true
      → send_response beast dispatcher handle_request m (holding s (u ++ c ∷ []))
        ≡ continues m' (write_response (holding s (u ++ c ∷ [])) r)
      → Runs m (reading s t) m' (close_socket (write_response (holding s (u ++ c ∷ [])) r))
  reading-answered m m' s r t u c b [] parts filled whole small before ended sent =
      let all : t ++ b ≡ u ++ c ∷ [] = subst (λ x. t ++ x ≡ u ++ c ∷ []) (append-nil b) parts in
      let done =
        take_chunk-true beast dispatcher handle_request m s t b (rw all whole) (rw all small)
          (rw all ended) in
      let reply =
        done
        ∙ (ap (λ x. send_response beast dispatcher handle_request m (holding s x)) all ∙ sent) in
      steps m (reading s t)
        (received (length t) (some b) refl (omega (arith, length-append t b, ap length all, small))
          (sym reply))
        (written_out m' (holding s (u ++ c ∷ [])) r)
  reading-answered m m' s r t u c b (b' ∷ chunks) parts (first, filled) whole small before ended
        sent =
      let q = concat (b' ∷ chunks) in
      let all : (t ++ b) ++ q ≡ u ++ c ∷ [] = append_assoc t b q ∙ parts in
      let waits =
        still_open (t ++ b) q u c all (filled-concat b' chunks first) whole small before in
      let text = c_string-prefix (t ++ b) q (rw all whole) in
      let fits : length (t ++ b) < max_length =
        omega (arith, length-append (t ++ b) q, ap length all, small) in
      let next = take_chunk-false beast dispatcher handle_request m s t b text fits waits in
      steps m (reading s t)
        (received (length t) (some b) refl (omega (arith, length-append t b, fits)) (sym next))
        (reading-answered m m' s r (t ++ b) u c b' chunks all filled whole small before ended sent)

  -- The first read of a new session, behind the handshake of `https`.
  start-Runs :
      (v : Version) (m m' : Metrics) (s : Session)
      → Runs m (read_first (new_session v)) m' s
      → Runs m (start (new_session v)) m' s
  unfolding start handle_handshake
  start-Runs http m m' s run = run
  start-Runs https m m' s run = steps m _ (handshaken false refl) run

  -- A new session whose peer sends a request as chunks, none of them empty, without a zero byte,
  -- shorter than the buffer and ended by its last byte, has a run in which it sends the response of
  -- the handler that the dispatcher finds, counts the request, and closes its socket.
  pub start-answered :
      (v : Version) (m : Metrics) (u : Bytes) (c : ℕ) (b : Bytes) (chunks : List Bytes)
      (req : Request) (h : Handler) (r : Response)
      → b ++ concat chunks ≡ u ++ c ∷ []
      → All (λ chunk. chunk ≢ []) chunks
      → c_string (u ++ c ∷ []) ≡ u ++ c ∷ []
      → length (u ++ c ∷ []) < max_length
      → end_of_request u ≡ false
      → end_of_request (u ++ c ∷ []) ≡ true
      → beast.parse_request (u ++ c ∷ []) ≡ some req
      → get_request_handler dispatcher req.target ≡ some h
      → handle_request h m req ≡ replied r
      → (s : Session) × Runs m (start (new_session v)) (count_request req.target r.result m) s
        × (s.response ≡ some r)
        × (s.is_open ≡ false)
        × (s.pending ≡ none)
  start-answered v m u c b chunks req h r parts filled whole small before ended parsed found same =
      let s = new_session v in
      let text = ap beast.parse_request whole ∙ parsed in
      let sent = send_response-replied m (holding s (u ++ c ∷ [])) req h r text found same refl in
      (
        close_socket (write_response (holding s (u ++ c ∷ [])) r),
        start-Runs v m _ _
            (reading-answered m _ s r [] u c b chunks parts filled whole small before ended sent),
        refl,
        refl,
        refl,
      )
