-- ===== src/Session/Overrun.antt =====
-- Reads of src/session.cc that fill `data_`, or are stored beyond its end.
use https_server.Prelude.{
  ◌+◌, ◌<◌, ◌≡◌, ◌⊎◌, inl, inr, refl, sym, ◌∙◌, ap, true, false, List, [], ◌∷◌, ◌++◌, some, ltb,
  arith, Bytes, length, length-append, append-nil, append_assoc,
}
use https_server.Dispatcher.{Dispatcher}
use https_server.Handlers.{Handler}
use https_server.Http.{Request, Beast, Reply}
use https_server.Session.{
  read, Session, Metrics, faults, max_length, read_first, end_of_request, handle_read,
  complete_read,
}
use https_server.StdString.{c_string}
use https_server.Session.Reassembly.{concat, resume, reading, take_chunk, deliver, take_chunk-false}
use https_server.Session.Text.{c_string-prefix, prefix_open, store-append}

module _ (beast : Beast) (dispatcher : Dispatcher)
    (handle_request : Handler → Metrics → Request → Reply) where
  -- Chunks that end no request are stored, one behind the other.
  deliver-waits :
      (m : Metrics) (s : Session) (t : Bytes) (chunks rest : List Bytes)
      → c_string (t ++ concat chunks) ≡ t ++ concat chunks
      → length (t ++ concat chunks) < max_length
      → end_of_request (t ++ concat chunks) ≡ false
      → deliver beast dispatcher handle_request m (reading s t) (chunks ++ rest)
        ≡ deliver beast dispatcher handle_request m (reading s (t ++ concat chunks)) rest
  unfolding deliver
  deliver-waits m s t [] rest whole small waits =
      ap (λ x. deliver beast dispatcher handle_request m (reading s x) rest) (sym (append-nil t))
  deliver-waits m s t (b ∷ chunks) rest whole small waits =
      let all = append_assoc t b (concat chunks) in
      let q = concat chunks in
      let whole' : c_string ((t ++ b) ++ q) ≡ (t ++ b) ++ q = rw all whole in
      let small' : length ((t ++ b) ++ q) < max_length = rw all small in
      let waits' : end_of_request ((t ++ b) ++ q) ≡ false = rw all waits in
      let before = prefix_open (t ++ b) q whole' small' waits' in
      let fits : length (t ++ b) < max_length = omega (arith, length-append (t ++ b) q, small') in
      ap (resume (λ m' s'. deliver beast dispatcher handle_request m' s' (chunks ++ rest))) (
        take_chunk-false beast dispatcher handle_request m s t b (c_string-prefix (t ++ b) q whole')
          fits before)
      ∙ (deliver-waits m s (t ++ b) chunks rest whole' small' waits'
          ∙ ap (λ x. deliver beast dispatcher handle_request m (reading s x) rest) all)

  -- A chunk that is stored beyond the end of the buffer, or fills it to its last byte.
  take_chunk-faults :
      (m : Metrics) (s : Session) (t b : Bytes)
      → (max_length < length t + length b)
        ⊎ ((length t + length b ≡ max_length) × (c_string (t ++ b) ≡ t ++ b))
      → take_chunk beast dispatcher handle_request m (reading s t) (some (read (length t))) b
        ≡ faults
  unfolding complete_read handle_read
  take_chunk-faults m s t b (inl large) =
      let over : ltb max_length (length t + length b) ≡ true = ground arith in rw (over) refl
  take_chunk-faults m s t b (inr (exact, whole)) =
      let over : ltb max_length (length t + length b) ≡ false = ground arith in
      let full : ltb (length (t ++ b)) max_length ≡ false = ground (arith, length-append t b) in
      rw (over, store-append t b, whole, full) refl

  -- Where the chunks that come first hold no zero byte, fit into the buffer, with a byte left, and
  -- end no request, a next chunk that is stored beyond the end of the buffer is a fault, and one
  -- without a zero byte that fills the buffer to its last byte is one too, whatever comes behind
  -- it.
  pub deliver-faults :
      (m : Metrics) (s : Session) (chunks : List Bytes) (b : Bytes) (rest : List Bytes)
      → c_string (concat chunks) ≡ concat chunks
      → length (concat chunks) < max_length
      → end_of_request (concat chunks) ≡ false
      → (max_length < length (concat chunks) + length b)
        ⊎ ((length (concat chunks) + length b ≡ max_length)
            × (c_string (concat chunks ++ b) ≡ concat chunks ++ b))
      → deliver beast dispatcher handle_request m (read_first s) (chunks ++ b ∷ rest) ≡ faults
  unfolding deliver
  deliver-faults m s chunks b rest whole small waits over =
      deliver-waits m s [] chunks (b ∷ rest) whole small waits
      ∙ ap (resume (λ m' s'. deliver beast dispatcher handle_request m' s' rest))
          (take_chunk-faults m s (concat chunks) b over)
