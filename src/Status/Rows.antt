-- ===== src/Status/Rows.antt =====
-- The rows of the page of src/status_handler.cc.
use https_server.Prelude.{ℕ, ◌≡◌, refl, sym, ap, subst, ◌∙◌, List, [], ◌∷◌, ◌++◌, Bytes, codes, All}
use https_server.Handlers.{built, ◌>>=◌}
use https_server.Http.{Response, Beast, new_response}
use https_server.Session.{Metrics}
use https_server.Status.Counts.{response_key}
use https_server.Status.Split.{IsCell, IsEntry, condense_loop-All, split-request_row}
use https_server.Status.{
  to_string, split, request_row, request_cells, request_info, condense, status_page, page,
  handler_rows,
}

-- A row with a path, a code and a count.
abbrev pub row_text : Bytes → ℕ → ℕ → Bytes
row_text path code count =
    codes "<tr><td>"
    ++ (path
        ++ (codes "</td><td>"
            ++ (to_string code ++ (codes "</td><td>" ++ (to_string count ++ codes "</td></tr>")))))

-- One row for each count, in the order of the keys.
pub data RowsOf : List (Bytes × ℕ) → Bytes → Type 0 where
  no_rows : RowsOf [] []
  a_row :
      {m : List (Bytes × ℕ)} {rows : Bytes} (path : Bytes) (code count : ℕ)
      → RowsOf m rows
      → RowsOf ((response_key path code, count) ∷ m) (row_text path code count ++ rows)

request_cells-row :
    (path : Bytes) (code count : ℕ)
    → IsCell path
    → request_cells (split (request_row (response_key path code, count)) b' ')
      ≡ built (row_text path code count)
request_cells-row path code count cell = ap request_cells (split-request_row path code count cell)

request_info-RowsOf :
    (m : List (Bytes × ℕ))
    → All IsEntry m
    → (rows : Bytes) × (request_info m ≡ built rows) × RowsOf m rows
unfolding request_info
request_info-RowsOf [] h = ([], refl, no_rows)
request_info-RowsOf ((key, count) ∷ m) ((path, code, (cell, same)), h) =
    let (rows, rest, shown) = request_info-RowsOf m h in
    let first : request_cells (split (request_row (key, count)) b' ')
        ≡ built (row_text path code count) =
      ap (λ k. request_cells (split (request_row (k, count)) b' ')) same
      ∙ request_cells-row path code count cell in
    (
      row_text path code count ++ rows,
      rw (first, rest) refl,
      subst (λ k. RowsOf ((k, count) ∷ m) (row_text path code count ++ rows)) (sym same)
          (a_row path code count shown),
    )

-- Where every path that was counted has a byte and no space, the page has a row for each path and
-- code that `condense` counts, and stands below the counter.
pub status_page-RowsOf :
    (beast : Beast) (handler_info : List (Bytes × Bytes)) (m : Metrics)
    → All (λ e. IsCell e.0) m.handled_requests
    → (r : Response) × (rows : Bytes) × (status_page beast handler_info m ≡ built r)
      × (r.result ≡ 200)
      × (r.body ≡ page m.request_count rows (handler_rows handler_info))
      × RowsOf (condense m) rows
unfolding status_page condense
status_page-RowsOf beast handler_info m cells =
    let (rows, made, shown) =
      request_info-RowsOf (condense m) (condense_loop-All m.handled_requests [] cells tt) in
    let page_of : Bytes → Response = λ requests.
      beast.prepare_payload (record new_response {
        body = page m.request_count requests (handler_rows handler_info);
      }) in
    (
      page_of rows,
      rows,
      ap (λ b. b >>= λ requests. built (page_of requests)) made,
      beast.same_result _,
      beast.same_body _,
      shown,
    )
