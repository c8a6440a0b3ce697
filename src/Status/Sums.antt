-- ===== src/Status/Sums.antt =====
-- The counts of `condense` of src/status_handler.cc add up.
use https_server.Prelude.{
  ℕ, suc, ◌+◌, ◌≡◌, refl, subst, List, [], ◌∷◌, ◌++◌, Option, none, some, arith, Bytes, codes,
  length, equal, Bool-cases, Option-cases, inl, inr,
}
use https_server.Session.Counting.{History, History-IsCounted, total}
use https_server.Session.{Metrics}
use https_server.Dispatcher.{Dispatcher}
use https_server.Handlers.{Handler}
use https_server.Http.{Request, Beast, Reply}
use https_server.Status.{count_response, condense_codes, condense_loop, condense, to_string}
use https_server.StdMap.Order.{IsSorted, insert-IsSorted, lookup-Below, Below-trans}
use https_server.StdMap.{lookup, insert}
use https_server.StdString.{less}

abbrev pub sum : List (Bytes × ℕ) → ℕ
sum [] = 0
sum ((k, n) ∷ m) = n + sum m

abbrev pub count_so_far : Option ℕ → ℕ
count_so_far none = 0
count_so_far (some n) = n

sum-insert :
    (k : Bytes) (v : ℕ) (m : List (Bytes × ℕ))
    → IsSorted m
    → sum (insert k v m) + count_so_far (lookup k m) ≡ sum m + v
unfolding lookup insert IsSorted
sum-insert k v [] h = omega arith
sum-insert k v ((j, w) ∷ m) (b, h) = elim (Bool-cases (equal j k)) [
  | inl e ↦ rw (e) (omega arith)
  | inr e ↦ elim (Bool-cases (less k j)) [
    | inl f ↦ rw (e, f, lookup-Below k m (Below-trans k j m f b)) (omega arith)
    | inr f ↦ rw (e, f) (omega (arith, sum-insert k v m h))
  ]
]

-- The counts of a map with its keys in order add up to `n`.
abbrev pub Adds : ℕ → List (Bytes × ℕ) → Type 0
Adds n m = (sum m ≡ n) × IsSorted m

count_response-Adds :
    (k : Bytes) (n : ℕ) (m : List (Bytes × ℕ))
    → Adds n m
    → Adds (suc n) (count_response k m (lookup k m))
count_response-Adds k n m (e, h) = elim (Option-cases (lookup k m)) [
  | inl o ↦
      let equation : sum (insert k 1 m) + 0 ≡ sum m + 1 =
        subst (λ o. sum (insert k 1 m) + count_so_far o ≡ sum m + 1) o (sum-insert k 1 m h) in
      rw (o) (omega (arith, e, equation), insert-IsSorted k 1 m h)
  | inr (c, o) ↦
      let equation : sum (insert k (c + 1) m) + c ≡ sum m + (c + 1) =
        subst (λ o. sum (insert k (c + 1) m) + count_so_far o ≡ sum m + (c + 1)) o
          (sum-insert k (c + 1) m h) in
      rw (o) (omega (arith, e, equation), insert-IsSorted k (c + 1) m h)
]

condense_codes-Adds :
    (uri : Bytes) (answers : List ℕ) (n : ℕ) (m : List (Bytes × ℕ))
    → Adds n m
    → Adds (n + length answers) (condense_codes uri answers m)
unfolding condense_codes
condense_codes-Adds uri [] n m h = (omega (arith, h.0), h.1)
condense_codes-Adds uri (code ∷ answers) n m h =
    let response = uri ++ (codes " " ++ to_string code) in
    let later =
      condense_codes-Adds uri answers (suc n) (count_response response m (lookup response m))
        (count_response-Adds response n m h) in
    (omega (arith, later.0), later.1)

pub condense_loop-Adds :
    (handled : List (Bytes × List ℕ)) (n : ℕ) (m : List (Bytes × ℕ))
    → Adds n m
    → Adds (n + total handled) (condense_loop handled m)
unfolding condense_loop
condense_loop-Adds [] n m h = (omega (arith, h.0), h.1)
condense_loop-Adds ((uri, answers) ∷ handled) n m h =
    let later =
      condense_loop-Adds handled (n + length answers) (condense_codes uri answers m)
        (condense_codes-Adds uri answers n m h) in
    (omega (arith, later.0), later.1)

pub sum-condense :
    (m : Metrics) → m.request_count ≡ total m.handled_requests → sum (condense m) ≡ m.request_count
unfolding condense IsSorted
sum-condense m counted =
    let (adds, _) = condense_loop-Adds m.handled_requests 0 [] (refl, tt) in
    omega (arith, counted, adds)

-- The counts of the status page add up to the number of requests that stands above them, whatever
-- steps the sessions have taken.
pub condense-request_count :
    (beast : Beast) (dispatcher : Dispatcher) (handle_request : Handler → Metrics → Request → Reply)
    (m : Metrics)
    → History beast dispatcher handle_request m
    → sum (condense m) ≡ m.request_count
condense-request_count beast dispatcher handle_request m h =
    sum-condense m (History-IsCounted beast dispatcher handle_request m h).0
