-- ===== src/Status.antt =====
-- src/status_handler.cc: the page that shows the metrics of the sessions and the handlers' names.
pub mod Sums
pub mod Split
pub mod Counts
pub mod Views
pub mod Rows
use https_server.Prelude.{
  ℕ, zero, suc, ◌+◌, ◌/◌, ◌%◌, not, List, [], ◌∷◌, ◌++◌, Option, none, some, ltb, ◌==◌,
  if◌then◌else◌, Bytes, codes,
}
use https_server.Handlers.{Built, built, undefined, ◌>>=◌}
use https_server.Http.{Response, Beast, new_response}
use https_server.Session.{Metrics}
use https_server.StdMap.{lookup, insert}

-- `std::to_string`. A digit is taken off in each round, so one round more than the number is
-- enough.
pub digits : ℕ → ℕ → Bytes
digits zero n = []
digits (suc fuel) n =
    let front = digits fuel (n / 10) in
    if ltb n 10 then (b'0' + n) ∷ [] else front ++ (b'0' + n % 10) ∷ []

unfoldable pub to_string : ℕ → Bytes
unfolding digits
to_string n = digits (suc n) n

-- `condense_codes[response]++`, or `= 1` where `count` finds no such key.
abbrev pub count_response : Bytes → List (Bytes × ℕ) → Option ℕ → List (Bytes × ℕ)
count_response response m none = insert response 1 m
count_response response m (some n) = insert response (n + 1) m

-- The loop over the codes of one path.
unfoldable pub condense_codes : Bytes → List ℕ → List (Bytes × ℕ) → List (Bytes × ℕ)
condense_codes uri [] m = m
condense_codes uri (code ∷ rest) m =
    let response = uri ++ (codes " " ++ to_string code) in
    condense_codes uri rest (count_response response m (lookup response m))

unfoldable pub condense_loop : List (Bytes × List ℕ) → List (Bytes × ℕ) → List (Bytes × ℕ)
condense_loop [] m = m
condense_loop ((uri, answers) ∷ rest) m = condense_loop rest (condense_codes uri answers m)

unfoldable pub condense : Metrics → List (Bytes × ℕ)
unfolding condense_loop condense_codes to_string
condense m = condense_loop m.handled_requests []

-- `v.push_back(buff)` unless `buff` is empty.
abbrev pub push_unless_empty : List Bytes → Bytes → List Bytes
push_unless_empty v [] = v
push_unless_empty v (n ∷ buff) = v ++ (n ∷ buff) ∷ []

-- The loop of `split`, over the bytes that are left.
unfoldable pub split_loop : ℕ → Bytes → List Bytes → Bytes → List Bytes
split_loop c buff v [] = push_unless_empty v buff
split_loop c buff v (n ∷ s) =
    let other = not (n == c) in
    split_loop c (if other then buff ++ n ∷ [] else [])
      (if other then v else push_unless_empty v buff) s

abbrev pub split : Bytes → ℕ → List Bytes
split s c = split_loop c [] [] s

-- A row of the table of requests; `tokens[i]` is undefined behind the end.
abbrev pub request_cells : List Bytes → Built Bytes
request_cells (path ∷ code ∷ count ∷ tokens) = built (
    codes "<tr><td>"
    ++ (path
        ++ (codes "</td><td>" ++ (code ++ (codes "</td><td>" ++ (count ++ codes "</td></tr>"))))))
request_cells _ = undefined

abbrev pub request_row : Bytes × ℕ → Bytes
request_row (response, count) = response ++ (codes " " ++ to_string count)

unfoldable pub request_info : List (Bytes × ℕ) → Built Bytes
unfolding split_loop to_string
request_info [] = built []
request_info (entry ∷ m) = do
  row ← request_cells (split (request_row entry) b' ')
  rows ← request_info m
  built (row ++ rows)

unfoldable pub handler_rows : List (Bytes × Bytes) → Bytes
handler_rows [] = []
handler_rows ((prefix, name) ∷ m) =
    codes "<tr><td>"
    ++ (prefix ++ (codes "</td><td>" ++ (name ++ (codes "</td></tr>" ++ handler_rows m))))

abbrev pub page : ℕ → Bytes → Bytes → Bytes
page request_count requests handlers =
    codes "<h1>Total number of requests: "
    ++ (to_string request_count
        ++ (codes
              "</h1><h2>Detail Request Status</h2><table><tr><th>URL Requested</th><th>Return Code</th><th>Count</th></tr>"
            ++ (requests
                ++ (codes
                      "</table><h2>Request Handlers</h2><table><tr><th>URL Prefix</th><th>Handler</th></tr>"
                    ++ (handlers ++ codes "</table>")))))

-- `StatusHandler::handle_request`.
unfoldable pub status_page : Beast → List (Bytes × Bytes) → Metrics → Built Response
unfolding condense request_info handler_rows to_string
status_page beast handler_info m = do
  requests ← request_info (condense m)
  built (
      beast.prepare_payload
        (record new_response { body = page m.request_count requests (handler_rows handler_info) }))
