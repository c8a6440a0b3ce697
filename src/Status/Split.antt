-- ===== src/Status/Split.antt =====
-- `split` of src/status_handler.cc finds the three cells that each row of the page reads.
use https_server.Prelude.{
  ℕ, zero, suc, ◌+◌, ◌%◌, ◌/◌, ◌≡◌, ◌≢◌, refl, sym, ap, ◌∙◌, false, not, List, [], ◌∷◌, ◌++◌,
  append-nil, append_assoc, ltb, ◌==◌, if◌then◌else◌, arith, Bytes, codes, All, All-append,
  Bool-cases, Option-cases, inl, inr,
}
use https_server.Handlers.{built, ◌>>=◌}
use https_server.Http.{Response, Beast, new_response}
use https_server.Session.{Metrics}
use https_server.Status.{
  digits, to_string, split_loop, split, request_row, request_cells, request_info, push_unless_empty,
  count_response, condense_codes, condense_loop, condense, status_page, page, handler_rows,
}
use https_server.StdMap.Laws.{insert-All}
use https_server.StdMap.{lookup}

-- A text with a byte, and without a space.
abbrev pub IsCell : Bytes → Type 0
IsCell s = (s ≢ []) × All (λ n. (n == b' ') ≡ false) s

digits-All : (fuel n : ℕ) → All (λ d. (d == b' ') ≡ false) (digits fuel n)
unfolding digits
digits-All zero n = tt
digits-All (suc fuel) n = elim (Bool-cases (ltb n 10)) [
  | inl e ↦ rw (e) (ground arith, tt)
  | inr e ↦ rw (e) (
      All-append (λ d. (d == b' ') ≡ false) (digits fuel (n / 10)) ((b'0' + n % 10) ∷ [])
        (digits-All fuel (n / 10)) (ground arith, tt))
]

append-ne-nil : (s : Bytes) (x : ℕ) → s ++ x ∷ [] ≢ []
append-ne-nil [] x = λ h. cc
append-ne-nil (y ∷ s) x = λ h. cc

pub to_string-IsCell : (n : ℕ) → IsCell (to_string n)
unfolding to_string digits
to_string-IsCell n = (
  (elim (Bool-cases (ltb n 10)) [
    | inl e ↦ rw (e) (λ h. cc)
    | inr e ↦ rw (e) (append-ne-nil (digits n (n / 10)) (b'0' + n % 10))
  ]),
  digits-All (suc n) n,
)

split_loop-other :
    (buff : Bytes) (v : List Bytes) (n : ℕ) (s : Bytes)
    → (n == b' ') ≡ false
    → split_loop b' ' buff v (n ∷ s) ≡ split_loop b' ' (buff ++ n ∷ []) v s
unfolding split_loop
split_loop-other buff v n s e =
    ap
      (λ same.
        split_loop b' ' (if not same then buff ++ n ∷ [] else [])
          (if not same then v else push_unless_empty v buff) s)
      e

split_loop-append :
    (buff : Bytes) (v : List Bytes) (s rest : Bytes)
    → All (λ n. (n == b' ') ≡ false) s
    → split_loop b' ' buff v (s ++ rest) ≡ split_loop b' ' (buff ++ s) v rest
unfolding split_loop
split_loop-append buff v [] rest h = rw (append-nil buff) refl
split_loop-append buff v (n ∷ s) rest (e, h) =
    split_loop-other buff v n (s ++ rest) e
    ∙ (split_loop-append (buff ++ n ∷ []) v s rest h
        ∙ ap (λ b. split_loop b' ' b v rest) (append_assoc buff (n ∷ []) s))

push_cell : (v : List Bytes) (s : Bytes) → s ≢ [] → push_unless_empty v s ≡ v ++ s ∷ []
push_cell v [] h = absurd (h refl)
push_cell v (n ∷ s) h = refl

split_cell :
    (v : List Bytes) (s rest : Bytes)
    → IsCell s
    → split_loop b' ' [] v (s ++ b' ' ∷ rest) ≡ split_loop b' ' [] (v ++ s ∷ []) rest
unfolding split_loop
split_cell v s rest (filled, h) =
    split_loop-append [] v s (b' ' ∷ rest) h
    ∙ ap (λ v'. split_loop b' ' [] v' rest) (push_cell v s filled)

last_cell : (v : List Bytes) (s : Bytes) → IsCell s → split_loop b' ' [] v s ≡ v ++ s ∷ []
unfolding split_loop
last_cell v s (filled, h) =
    ap (split_loop b' ' [] v) (sym (append-nil s))
    ∙ (split_loop-append [] v s [] h ∙ push_cell v s filled)

-- A row is split into the path, the code and the count it was made of, where the path is not empty
-- and has no space.
pub split-request_row :
    (path : Bytes) (code count : ℕ)
    → IsCell path
    → split (request_row (path ++ (codes " " ++ to_string code), count)) b' '
      ≡ path ∷ to_string code ∷ to_string count ∷ []
split-request_row path code count h =
    ap (split_loop b' ' [] []) (append_assoc path (b' ' ∷ to_string code) (b' ' ∷ to_string count))
    ∙ (split_cell [] path (to_string code ++ b' ' ∷ to_string count) h
        ∙ (split_cell (path ∷ []) (to_string code) (to_string count) (to_string-IsCell code)
            ∙ last_cell (path ∷ to_string code ∷ []) (to_string count) (to_string-IsCell count)))

-- A key that `condense` makes of such a path.
abbrev pub IsEntry : Bytes × ℕ → Type 0
IsEntry (response, count) =
    (path : Bytes) × (code : ℕ) × (IsCell path × (response ≡ path ++ (codes " " ++ to_string code)))

count_response-All :
    (k : Bytes) (m : List (Bytes × ℕ))
    → ((n : ℕ) → IsEntry (k, n))
    → All IsEntry m
    → All IsEntry (count_response k m (lookup k m))
count_response-All k m e h = elim (Option-cases (lookup k m)) [
  | inl o ↦ rw (o) (insert-All IsEntry k 1 m (e 1) h)
  | inr (c, o) ↦ rw (o) (insert-All IsEntry k (c + 1) m (e (c + 1)) h)
]

condense_codes-All :
    (uri : Bytes) (answers : List ℕ) (m : List (Bytes × ℕ))
    → IsCell uri
    → All IsEntry m
    → All IsEntry (condense_codes uri answers m)
unfolding condense_codes
condense_codes-All uri [] m cell h = h
condense_codes-All uri (code ∷ answers) m cell h =
    let response = uri ++ (codes " " ++ to_string code) in
    condense_codes-All uri answers (count_response response m (lookup response m)) cell
      (count_response-All response m (λ n. (uri, code, (cell, refl))) h)

pub condense_loop-All :
    (handled : List (Bytes × List ℕ)) (m : List (Bytes × ℕ))
    → All (λ e. IsCell e.0) handled
    → All IsEntry m
    → All IsEntry (condense_loop handled m)
unfolding condense_loop
condense_loop-All [] m cells h = h
condense_loop-All ((uri, answers) ∷ handled) m (cell, cells) h =
    condense_loop-All handled (condense_codes uri answers m) cells
      (condense_codes-All uri answers m cell h)

request_cells-built :
    (e : Bytes × ℕ)
    → IsEntry e
    → (row : Bytes) × (request_cells (split (request_row e) b' ') ≡ built row)
request_cells-built (response, count) (path, code, (cell, same)) =
    let cells : split (request_row (response, count)) b' '
        ≡ path ∷ to_string code ∷ to_string count ∷ [] =
      ap (λ r. split (request_row (r, count)) b' ') same ∙ split-request_row path code count cell in
    (_, ap request_cells cells)

request_info-built :
    (m : List (Bytes × ℕ)) → All IsEntry m → (rows : Bytes) × (request_info m ≡ built rows)
unfolding request_info
request_info-built [] h = ([], refl)
request_info-built (e ∷ m) (entry, h) =
    let (row, first) = request_cells-built e entry in
    let (rows, rest) = request_info-built m h in (row ++ rows, rw (first, rest) refl)

-- Where every path that was counted has a byte and no space, the status page is made, with the
-- status 200: no row reads a token that is not there.
pub status_page-built :
    (beast : Beast) (handler_info : List (Bytes × Bytes)) (m : Metrics)
    → All (λ e. IsCell e.0) m.handled_requests
    → (r : Response) × ((status_page beast handler_info m ≡ built r) × (r.result ≡ 200))
unfolding status_page
status_page-built beast handler_info m cells =
    let (rows, made) =
      request_info-built (condense m) (condense_loop-All m.handled_requests [] cells tt) in
    let page_of : Bytes → Response = λ requests.
      beast.prepare_payload (record new_response {
        body = page m.request_count requests (handler_rows handler_info);
      }) in
    (page_of rows, (ap (λ b. b >>= λ requests. built (page_of requests)) made, beast.same_result _))
