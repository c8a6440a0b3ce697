-- ===== src/Session/Counting.antt =====
-- The static members of src/session.cc over the steps of all sessions.
use https_server.Prelude.{
  ℕ, ◌+◌, ◌≡◌, refl, List, [], ◌∷◌, ◌++◌, arith, Bytes, length, length-append, Bool-cases, inl, inr,
  equal,
}
use https_server.Dispatcher.{Dispatcher}
use https_server.Handlers.{Handler}
use https_server.Http.{Request, Beast, Reply}
use https_server.Session.{Session, Metrics, continues, codes_so_far, count_request, Step}
use https_server.Session.Metering.{Step-OnMetrics}
use https_server.StdMap.Order.{IsSorted, insert-IsSorted, lookup-Below, Below-trans}
use https_server.StdMap.{lookup, insert}
use https_server.StdString.{less}

-- How many codes the map holds.
abbrev pub total : List (Bytes × List ℕ) → ℕ
total [] = 0
total ((uri, answers) ∷ m) = length answers + total m

total-insert :
    (k : Bytes) (v : List ℕ) (m : List (Bytes × List ℕ))
    → IsSorted m
    → total (insert k v m) + length (codes_so_far (lookup k m)) ≡ total m + length v
unfolding lookup insert IsSorted
total-insert k v [] h = omega arith
total-insert k v ((j, w) ∷ m) (b, h) = elim (Bool-cases (equal j k)) [
  | inl e ↦ rw (e) (omega arith)
  | inr e ↦ elim (Bool-cases (less k j)) [
    | inl f ↦ rw (e, f, lookup-Below k m (Below-trans k j m f b)) (omega arith)
    | inr f ↦ rw (e, f) (omega (arith, total-insert k v m h))
  ]
]

-- The counter is the number of codes that `handled_requests` holds.
abbrev pub IsCounted : Metrics → Type 0
IsCounted m = (m.request_count ≡ total m.handled_requests) × IsSorted m.handled_requests

count_request-IsCounted :
    (uri : Bytes) (code : ℕ) (m : Metrics) → IsCounted m → IsCounted (count_request uri code m)
count_request-IsCounted uri code m (e, h) =
    let old = codes_so_far (lookup uri m.handled_requests) in
    (
      omega (
        arith,
        e,
        length-append old (code ∷ []),
        total-insert uri (old ++ code ∷ []) m.handled_requests h,
      ),
      insert-IsSorted uri (old ++ code ∷ []) m.handled_requests h,
    )

module _ (beast : Beast) (dispatcher : Dispatcher)
    (handle_request : Handler → Metrics → Request → Reply) where
  pub Step-IsCounted :
      (m m' : Metrics) (s s' : Session)
      → IsCounted m
      → Step beast dispatcher handle_request m s (continues m' s')
      → IsCounted m'
  Step-IsCounted m m' s s' v t =
      Step-OnMetrics beast dispatcher handle_request IsCounted
        (λ text req code m _ v. count_request-IsCounted req.target code m v) m s (continues m' s') v
        t

  -- The metrics that the steps of any sessions, in any order, leave.
  pub data History : Metrics → Type 0 where
    began : History (record { request_count = 0; handled_requests = [] })
    went_on :
        {m m' : Metrics} (s s' : Session)
        → History m
        → Step beast dispatcher handle_request m s (continues m' s')
        → History m'

  -- Whatever steps sessions take, in whatever order, `request_count` is the number of all codes in
  -- `handled_requests`, whose keys are in order.
  pub History-IsCounted : (m : Metrics) → History m → IsCounted m
  unfolding IsSorted
  History-IsCounted _ began = (refl, tt)
  History-IsCounted m' (went_on {m = m} s s' h t) =
      Step-IsCounted m m' s s' (History-IsCounted m h) t
