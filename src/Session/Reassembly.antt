-- ===== src/Session/Reassembly.antt =====
-- How the reads of src/session.cc put a request together.
use https_server.Prelude.{
  ℕ, ◌<◌, ◌≡◌, ◌≢◌, refl, ◌∙◌, ap, subst, true, false, List, [], ◌∷◌, ◌++◌, Option, none, some,
  arith, Bytes, length, length-append, append-nil, append_assoc, All,
}
use https_server.Dispatcher.{Dispatcher}
use https_server.Handlers.{Handler}
use https_server.Http.{Request, Beast, Reply}
use https_server.Session.{
  Operation, read, Session, Metrics, Outcome, continues, throws, hangs, faults, max_length,
  read_first, end_of_request, handle_read, send_response, complete_read,
}
use https_server.StdString.{c_string}
use https_server.Session.Text.{c_string-prefix, still_open, store-append, within, inside}

abbrev pub concat : List Bytes → Bytes
concat [] = []
concat (b ∷ bs) = b ++ concat bs

-- What follows where a handler returns.
abbrev pub resume : (Metrics → Session → Outcome) → Outcome → Outcome
resume k (continues m s) = k m s
resume k throws = throws
resume k hangs = hangs
resume k faults = faults

resume-continues : (o : Outcome) → resume (λ m s. continues m s) o ≡ o
resume-continues (continues m s) = refl
resume-continues throws = refl
resume-continues hangs = refl
resume-continues faults = refl

pub filled-concat : (b : Bytes) (bs : List Bytes) → b ≢ [] → b ++ concat bs ≢ []
filled-concat [] bs ne = absurd (ne refl)
filled-concat (x ∷ b) bs ne = λ h. cc

-- The session that has read a text and waits for no operation, and one that reads on behind it.
abbrev pub holding : Session → Bytes → Session
holding s text = record s { buffer_data = text; pending = none }

abbrev pub reading : Session → Bytes → Session
reading s text = record s { buffer_data = text; pending = some (read (length text)) }

module _ (beast : Beast) (dispatcher : Dispatcher)
    (handle_request : Handler → Metrics → Request → Reply) where
  -- The completion of a pending read with some bytes; no other operation takes them.
  abbrev pub take_chunk : Metrics → Session → Option Operation → Bytes → Outcome
  take_chunk m s (some (read offset)) b =
      complete_read beast dispatcher handle_request m s offset (some b)
  take_chunk m s _ b = continues m s

  -- The session where its reads complete with these bytes, one list after the other.
  unfoldable pub deliver : Metrics → Session → List Bytes → Outcome
  unfolding complete_read handle_read send_response
  deliver m s [] = continues m s
  deliver m s (b ∷ bs) = resume (λ m' s'. deliver m' s' bs) (take_chunk m s s.pending b)

  pub take_chunk-false :
      (m : Metrics) (s : Session) (t b : Bytes)
      → c_string (t ++ b) ≡ t ++ b
      → length (t ++ b) < max_length
      → end_of_request (t ++ b) ≡ false
      → take_chunk m (reading s t) (some (read (length t))) b ≡ continues m (reading s (t ++ b))
  unfolding complete_read handle_read
  take_chunk-false m s t b whole small e =
      rw (within t b small, store-append t b, whole, inside (t ++ b) small, e) refl

  pub take_chunk-true :
      (m : Metrics) (s : Session) (t b : Bytes)
      → c_string (t ++ b) ≡ t ++ b
      → length (t ++ b) < max_length
      → end_of_request (t ++ b) ≡ true
      → take_chunk m (reading s t) (some (read (length t))) b
        ≡ send_response beast dispatcher handle_request m (holding s (t ++ b))
  unfolding complete_read handle_read
  take_chunk-true m s t b whole small e =
      rw (within t b small, store-append t b, whole, inside (t ++ b) small, e) refl

  -- The chunks that come behind the text `t`, of which the request's last byte is `c`.
  deliver-behind :
      (m : Metrics) (s : Session) (t u : Bytes) (c : ℕ) (b : Bytes) (chunks : List Bytes)
      → t ++ (b ++ concat chunks) ≡ u ++ c ∷ []
      → All (λ chunk. chunk ≢ []) chunks
      → c_string (u ++ c ∷ []) ≡ u ++ c ∷ []
      → length (u ++ c ∷ []) < max_length
      → end_of_request u ≡ false
      → end_of_request (u ++ c ∷ []) ≡ true
      → deliver m (reading s t) (b ∷ chunks)
        ≡ send_response beast dispatcher handle_request m (holding s (u ++ c ∷ []))
  unfolding deliver
  deliver-behind m s t u c b [] parts filled whole small open_before ended =
      let all : t ++ b ≡ u ++ c ∷ [] = subst (λ x. t ++ x ≡ u ++ c ∷ []) (append-nil b) parts in
      ap (resume (λ m' s'. continues m' s'))
        (take_chunk-true m s t b (rw (all) whole) (rw (all) small) (rw (all) ended))
      ∙ (resume-continues _
          ∙ ap (λ x. send_response beast dispatcher handle_request m (holding s x)) all)
  deliver-behind m s t u c b (b' ∷ chunks) parts (first, filled) whole small open_before ended =
      let q = concat (b' ∷ chunks) in
      let all : (t ++ b) ++ q ≡ u ++ c ∷ [] = append_assoc t b q ∙ parts in
      let before =
        still_open (t ++ b) q u c all (filled-concat b' chunks first) whole small open_before in
      let text = c_string-prefix (t ++ b) q (rw (all) whole) in
      let fits : length (t ++ b) < max_length =
        omega (arith, length-append (t ++ b) q, ap length all, small) in
      ap (resume (λ m' s'. deliver m' s' (b' ∷ chunks))) (take_chunk-false m s t b text fits before)
      ∙ deliver-behind m s (t ++ b) u c b' chunks all filled whole small open_before ended

  -- A request, in which no byte is zero, shorter than the buffer, and which its last byte ends, is
  -- answered as a whole, however it is cut into chunks.
  pub deliver-send_response :
      (m : Metrics) (s : Session) (u : Bytes) (c : ℕ) (b : Bytes) (chunks : List Bytes)
      → b ++ concat chunks ≡ u ++ c ∷ []
      → All (λ chunk. chunk ≢ []) chunks
      → c_string (u ++ c ∷ []) ≡ u ++ c ∷ []
      → length (u ++ c ∷ []) < max_length
      → end_of_request u ≡ false
      → end_of_request (u ++ c ∷ []) ≡ true
      → deliver m (read_first s) (b ∷ chunks)
        ≡ send_response beast dispatcher handle_request m (holding s (u ++ c ∷ []))
  deliver-send_response m s u c b chunks = deliver-behind m s [] u c b chunks
