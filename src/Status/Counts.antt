-- ===== src/Status/Counts.antt =====
-- What `condense` of src/status_handler.cc counts under a key.
use https_server.Prelude.{
  ℕ, zero, suc, ◌+◌, ◌*◌, ◌-◌, ◌/◌, ◌%◌, ◌<◌, ◌≡◌, refl, sym, ap, ◌∙◌, subst, false, ◌&&◌, List, [],
  ◌∷◌, ◌++◌, none, ltb, ◌==◌, if◌then◌else◌, arith, Bytes, codes, All, equal, equal_iff, Bool-cases,
  Option-cases, inl, inr,
}
use https_server.Dispatcher.{Dispatcher}
use https_server.Handlers.{Handler}
use https_server.Http.{Request, Beast, Reply}
use https_server.Session.Counting.{History, History-IsCounted}
use https_server.Session.{Metrics, codes_so_far}
use https_server.Settings.{decimal}
use https_server.Status.Split.{to_string-IsCell}
use https_server.Status.Sums.{count_so_far}
use https_server.Status.{digits, to_string, count_response, condense_codes, condense_loop, condense}
use https_server.StdMap.Laws.{lookup-insert}
use https_server.StdMap.Order.{IsSorted, lookup-Below}
use https_server.StdMap.{lookup}

-- How often a code is in a list.
abbrev pub occurrences : ℕ → List ℕ → ℕ
occurrences code [] = 0
occurrences code (c ∷ answers) = (if c == code then 1 else 0) + occurrences code answers

-- The key of a path and a code.
abbrev pub response_key : Bytes → ℕ → Bytes
response_key uri code = uri ++ (codes " " ++ to_string code)

decimal-append :
    (n : ℕ) (s : Bytes) (d : ℕ) → decimal n (s ++ d ∷ []) ≡ decimal n s * 10 + (d - b'0')
unfolding decimal
decimal-append n [] d = refl
decimal-append n (c ∷ s) d = decimal-append (n * 10 + (c - b'0')) s d

decimal-digits : (fuel n : ℕ) → n < fuel → decimal 0 (digits fuel n) ≡ n
unfolding digits decimal
decimal-digits zero n lt = elim lt [ ]
decimal-digits (suc fuel) n lt = elim (Bool-cases (ltb n 10)) [
  | inl e ↦ rw e (omega arith)
  | inr e ↦
      let wide : 9 < n = ground arith in
      let front = decimal-digits fuel (n / 10) (omega arith) in
      rw e (decimal-append 0 (digits fuel (n / 10)) (b'0' + n % 10) ∙ omega (arith, front, wide))
]

-- `stoi` reads back what `to_string` writes.
decimal-to_string : (n : ℕ) → decimal 0 (to_string n) ≡ n
unfolding to_string
decimal-to_string n = decimal-digits (suc n) n (omega arith)

no_space : (ys t : Bytes) → All (λ n. (n == b' ') ≡ false) (ys ++ b' ' ∷ t) → ⊥
no_space [] t (h, _) = cc
no_space (y ∷ ys) t (_, h) = no_space ys t h

-- A text is cut at its last space.
last_space :
    (xs ys s t : Bytes)
    → All (λ n. (n == b' ') ≡ false) s
    → All (λ n. (n == b' ') ≡ false) t
    → xs ++ b' ' ∷ s ≡ ys ++ b' ' ∷ t
    → (xs ≡ ys) × (s ≡ t)
last_space [] [] s t h k e = (refl, cc)
last_space [] (y ∷ ys) s t h k e =
    let tails : s ≡ ys ++ b' ' ∷ t = cc in absurd (no_space ys t (subst (All _) tails h))
last_space (x ∷ xs) [] s t h k e =
    let tails : t ≡ xs ++ b' ' ∷ s = cc in absurd (no_space xs s (subst (All _) tails k))
last_space (x ∷ xs) (y ∷ ys) s t h k e =
    let tails : xs ++ b' ' ∷ s ≡ ys ++ b' ' ∷ t = cc in
    let heads : x ≡ y = cc in let (fronts, ends) = last_space xs ys s t h k tails in (cc, ends)

response_key-injective :
    (u v : Bytes) (c d : ℕ) → response_key u c ≡ response_key v d → (u ≡ v) × (c ≡ d)
response_key-injective u v c d e =
    let (same, numbers) =
      last_space u v (to_string c) (to_string d) (to_string-IsCell c).1 (to_string-IsCell d).1 e in
    (same, sym (decimal-to_string c) ∙ ap (decimal 0) numbers ∙ decimal-to_string d)

equal-response_key :
    (u v : Bytes) (c d : ℕ) → equal (response_key u c) (response_key v d) ≡ (equal u v && c == d)
equal-response_key u v c d = elim (Bool-cases (equal (response_key u c) (response_key v d))) [
  | inl e ↦
      let (same, number) =
        response_key-injective u v c d ((equal_iff (response_key u c) (response_key v d)).0 e) in
      ground (arith, equal_iff u v)
  | inr e ↦ elim (Bool-cases (equal u v && c == d)) [
    | inl f ↦
        let same : u ≡ v = ground (arith, equal_iff u v) in
        let number : c ≡ d = ground arith in
        let keys : response_key u c ≡ response_key v d = cc in
        ground (arith, equal_iff (response_key u c) (response_key v d))
    | inr f ↦ e ∙ sym f
  ]
]

-- What is counted under a key when a response is counted.
count_response-lookup :
    (key k : Bytes) (m : List (Bytes × ℕ))
    → count_so_far (lookup key (count_response k m (lookup k m)))
      ≡ count_so_far (lookup key m) + (if equal k key then 1 else 0)
count_response-lookup key k m = elim (Bool-cases (equal k key)) [
  | inr other ↦ elim (Option-cases (lookup k m)) [
    | inl o ↦ rw o (rw (lookup-insert k key 1 m, other) (omega arith))
    | inr (n, o) ↦ rw o (rw (lookup-insert k key (n + 1) m, other) (omega arith))
  ]
  | inl e ↦
      let found = ap (λ j. lookup j m) ((equal_iff k key).0 e) in
      elim (Option-cases (lookup k m)) [
        | inl o ↦ rw (o, sym found) (rw (lookup-insert k key 1 m, e, o) refl)
        | inr (n, o) ↦ rw (o, sym found) (rw (lookup-insert k key (n + 1) m, e, o) refl)
      ]
]

condense_codes-lookup :
    (u uri : Bytes) (code : ℕ) (answers : List ℕ) (m : List (Bytes × ℕ))
    → count_so_far (lookup (response_key uri code) (condense_codes u answers m))
      ≡ count_so_far (lookup (response_key uri code) m)
        + (if equal u uri then occurrences code answers else 0)
unfolding condense_codes
condense_codes-lookup u uri code [] m = ground arith
condense_codes-lookup u uri code (c ∷ answers) m =
    let k = response_key u c in
    let later = condense_codes-lookup u uri code answers (count_response k m (lookup k m)) in
    let first = count_response-lookup (response_key uri code) k m in
    let key = equal-response_key u uri c code in ground (arith, later, first, key)

condense_loop-lookup :
    (uri : Bytes) (code : ℕ) (handled : List (Bytes × List ℕ)) (m : List (Bytes × ℕ))
    → IsSorted handled
    → count_so_far (lookup (response_key uri code) (condense_loop handled m))
      ≡ count_so_far (lookup (response_key uri code) m)
        + occurrences code (codes_so_far (lookup uri handled))
unfolding condense_loop lookup IsSorted
condense_loop-lookup uri code [] m h = omega arith
condense_loop-lookup uri code ((u, answers) ∷ rest) m (below, h) =
    let later = condense_loop-lookup uri code rest (condense_codes u answers m) h in
    let first = condense_codes-lookup u uri code answers m in
    elim (Bool-cases (equal u uri)) [
      | inl e ↦
          let gone =
            subst (λ x. lookup x rest ≡ none) ((equal_iff u uri).0 e) (lookup-Below u rest below) in
          let none_left : occurrences code (codes_so_far (lookup uri rest)) ≡ 0 = rw gone refl in
          rw e (ground (arith, later, first, none_left))
      | inr e ↦ rw e (later ∙ ground (arith, first))
    ]

pub lookup-condense :
    (m : Metrics) (uri : Bytes) (code : ℕ)
    → IsSorted m.handled_requests
    → count_so_far (lookup (response_key uri code) (condense m))
      ≡ occurrences code (codes_so_far (lookup uri m.handled_requests))
unfolding condense lookup
lookup-condense m uri code sorted =
    condense_loop-lookup uri code m.handled_requests [] sorted ∙ omega arith

-- Whatever steps the sessions have taken, and whatever bytes the paths hold, what the status page
-- counts for a path and a code is how often `handled_requests` has the code for the path, where no
-- entry stands for zero.
pub condense-occurrences :
    (beast : Beast) (dispatcher : Dispatcher) (handle_request : Handler → Metrics → Request → Reply)
    (m : Metrics) (uri : Bytes) (code : ℕ)
    → History beast dispatcher handle_request m
    → count_so_far (lookup (response_key uri code) (condense m))
      ≡ occurrences code (codes_so_far (lookup uri m.handled_requests))
condense-occurrences beast dispatcher handle_request m uri code h =
    lookup-condense m uri code (History-IsCounted beast dispatcher handle_request m h).1
