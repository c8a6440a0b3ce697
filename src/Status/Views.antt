-- ===== src/Status/Views.antt =====
-- What the page of src/status_handler.cc shows of the metrics: how many answers of each code each
-- path has had, and not the order in which they came.
use https_server.Prelude.{
  ℕ, ◌+◌, ◌<◌, ◌≡◌, ◌↔◌, refl, sym, ap, ◌∙◌, subst, List, [], ◌∷◌, Option, none, some, arith, Bytes,
  All, Option-cases, inl, inr,
}
use https_server.Dispatcher.{Dispatcher}
use https_server.Handlers.{Handler}
use https_server.Http.{Request, Beast, Reply}
use https_server.Session.Counting.{History}
use https_server.Session.{Metrics, codes_so_far}
use https_server.Status.Counts.{occurrences, response_key, condense-occurrences}
use https_server.Status.Sums.{count_so_far, condense_loop-Adds, condense-request_count, sum}
use https_server.Status.{count_response, condense_codes, condense_loop, condense, status_page}
use https_server.StdMap.Extensional.{lookup-All, lookup_ext}
use https_server.StdMap.Laws.{insert-All}
use https_server.StdMap.Order.{IsSorted}
use https_server.StdMap.{lookup}

-- Two states of the metrics hold each code for each path equally often.
abbrev pub SameAnswers : Metrics → Metrics → Type 0
SameAnswers m m' =
    (uri : Bytes) (code : ℕ)
    → occurrences code (codes_so_far (lookup uri m.handled_requests))
      ≡ occurrences code (codes_so_far (lookup uri m'.handled_requests))

-- A count of `condense` is above zero, and stands under the key of a path and a code.
abbrev IsCount : Bytes × ℕ → Type 0
IsCount (key, n) = (0 < n) × (uri : Bytes) × (code : ℕ) × (key ≡ response_key uri code)

count_response-IsCount :
    (uri : Bytes) (code : ℕ) (m : List (Bytes × ℕ)) (o : Option ℕ)
    → All IsCount m
    → All IsCount (count_response (response_key uri code) m o)
count_response-IsCount uri code m none h =
    insert-All IsCount (response_key uri code) 1 m (omega arith, uri, code, refl) h
count_response-IsCount uri code m (some n) h =
    insert-All IsCount (response_key uri code) (n + 1) m (omega arith, uri, code, refl) h

condense_codes-IsCount :
    (uri : Bytes) (answers : List ℕ) (m : List (Bytes × ℕ))
    → All IsCount m
    → All IsCount (condense_codes uri answers m)
unfolding condense_codes
condense_codes-IsCount uri [] m h = h
condense_codes-IsCount uri (code ∷ answers) m h =
    let k = response_key uri code in
    condense_codes-IsCount uri answers (count_response k m (lookup k m))
      (count_response-IsCount uri code m (lookup k m) h)

condense_loop-IsCount :
    (handled : List (Bytes × List ℕ)) (m : List (Bytes × ℕ))
    → All IsCount m
    → All IsCount (condense_loop handled m)
unfolding condense_loop
condense_loop-IsCount [] m h = h
condense_loop-IsCount ((uri, answers) ∷ handled) m h =
    condense_loop-IsCount handled (condense_codes uri answers m)
      (condense_codes-IsCount uri answers m h)

condense-IsCount : (m : Metrics) → All IsCount (condense m)
unfolding condense
condense-IsCount m = condense_loop-IsCount m.handled_requests [] tt

condense-IsSorted : (m : Metrics) → IsSorted (condense m)
unfolding condense IsSorted
condense-IsSorted m = (condense_loop-Adds m.handled_requests 0 [] (refl, tt)).1

-- Where the counts under the keys of paths and codes agree, each count stands in the other map.
same_count :
    (c c' : List (Bytes × ℕ)) (key : Bytes) (n : ℕ)
    → All IsCount c
    → ((uri : Bytes) (code : ℕ)
        → count_so_far (lookup (response_key uri code) c)
          ≡ count_so_far (lookup (response_key uri code) c'))
    → lookup key c ≡ some n
    → lookup key c' ≡ some n
same_count c c' key n entries same found =
    let (positive, uri, code, is_key) = lookup-All IsCount key n c found entries in
    let counts : count_so_far (lookup key c) ≡ count_so_far (lookup key c') =
      subst (λ k. count_so_far (lookup k c) ≡ count_so_far (lookup k c')) (sym is_key)
        (same uri code) in
    let count : n ≡ count_so_far (lookup key c') = sym (ap count_so_far found) ∙ counts in
    elim (Option-cases (lookup key c')) [
      | inl e ↦ let nothing : n ≡ 0 = count ∙ ap count_so_far e in absurd (omega arith)
      | inr (k, e) ↦ e ∙ ap some (sym (count ∙ ap count_so_far e))
    ]

same_lookup :
    (c c' : List (Bytes × ℕ)) (key : Bytes)
    → All IsCount c
    → All IsCount c'
    → ((uri : Bytes) (code : ℕ)
        → count_so_far (lookup (response_key uri code) c)
          ≡ count_so_far (lookup (response_key uri code) c'))
    → lookup key c ≡ lookup key c'
same_lookup c c' key h h' same = elim (Option-cases (lookup key c)) [
  | inr (n, e) ↦ e ∙ sym (same_count c c' key n h same e)
  | inl e ↦ elim (Option-cases (lookup key c')) [
    | inl e' ↦ e ∙ sym e'
    | inr (n, e') ↦ same_count c' c key n h' (λ uri code. sym (same uri code)) e' ∙ sym e'
  ]
]

module _ (beast : Beast) (dispatcher : Dispatcher)
    (handle_request : Handler → Metrics → Request → Reply) where
  SameAnswers-condense :
      (m m' : Metrics)
      → History beast dispatcher handle_request m
      → History beast dispatcher handle_request m'
      → SameAnswers m m'
      → condense m ≡ condense m'
  SameAnswers-condense m m' h h' same =
      let counts = condense-occurrences beast dispatcher handle_request in
      lookup_ext (condense m) (condense m') (condense-IsSorted m) (condense-IsSorted m') (λ key.
        same_lookup (condense m) (condense m') key (condense-IsCount m) (condense-IsCount m')
          (λ uri code. counts m uri code h ∙ (same uri code ∙ sym (counts m' uri code h'))))

  condense-SameAnswers :
      (m m' : Metrics)
      → History beast dispatcher handle_request m
      → History beast dispatcher handle_request m'
      → condense m ≡ condense m'
      → SameAnswers m m'
  condense-SameAnswers m m' h h' same uri code =
      let counts = condense-occurrences beast dispatcher handle_request in
      sym (counts m uri code h)
      ∙ (ap (λ c. count_so_far (lookup (response_key uri code) c)) same ∙ counts m' uri code h')

  condense-status_page :
      (handler_info : List (Bytes × Bytes)) (m m' : Metrics)
      → History beast dispatcher handle_request m
      → History beast dispatcher handle_request m'
      → condense m ≡ condense m'
      → status_page beast handler_info m ≡ status_page beast handler_info m'
  unfolding status_page
  condense-status_page handler_info m m' h h' same =
      let sums = condense-request_count beast dispatcher handle_request in
      let totals : m.request_count ≡ m'.request_count =
        sym (sums m h) ∙ (ap sum same ∙ sums m' h') in
      rw (same, totals) refl

  -- Whatever steps sessions have taken up to each of two states of the metrics: the counts that
  -- `condense` makes of them are equal, and with them the status pages, exactly where the two
  -- states hold each code for each path equally often, in whatever order the answers came.
  pub status_page_iff :
      (handler_info : List (Bytes × Bytes)) (m m' : Metrics)
      → History beast dispatcher handle_request m
      → History beast dispatcher handle_request m'
      → SameAnswers m m' ↔ (
          (condense m ≡ condense m')
          × (status_page beast handler_info m ≡ status_page beast handler_info m'))
  status_page_iff handler_info m m' h h' = (
    λ same.
        let counts = SameAnswers-condense m m' h h' same in
        (counts, condense-status_page handler_info m m' h h' counts),
    λ pages. condense-SameAnswers m m' h h' pages.0,
  )
