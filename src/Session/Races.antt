-- ===== src/Session/Races.antt =====
-- `request_count++` of src/session.cc where handlers run at once: the threads that `start_session`
-- of src/server.cc runs share the static counter and no lock. The increment is taken as a load and
-- a store, each of which is done at once; the language leaves such a race undefined.
use https_server.Prelude.{
  ℕ, zero, suc, ◌+◌, ◌<◌, ◌≤◌, ◌≡◌, ◌↔◌, refl, sym, ap, ◌∙◌, subst, ◌-◌, List, [], ◌∷◌, ◌++◌, arith,
  All, All-map, length, length-append,
}

-- The counter, and the requests that are answered at once: how many have not come to the increment,
-- what those in it have loaded, and how many are behind it.
pub record Race : Type 0 where
  pub request_count : ℕ
  pub coming : ℕ
  pub loaded : List ℕ
  pub counted : ℕ

pub data RaceStep (r : Race) : Race → Type 0 where
  loads :
      (n : ℕ)
      → r.coming ≡ suc n
      → RaceStep r (record r { coming = n; loaded = r.request_count ∷ r.loaded })
  stores :
      (before after : List ℕ) (n : ℕ)
      → r.loaded ≡ before ++ n ∷ after
      → RaceStep r
          (record r { request_count = n + 1; loaded = before ++ after; counted = r.counted + 1 })

pub data Races : Race → Race → Type 0 where
  done : {r : Race} → Races r r
  then_on : {r s t : Race} → RaceStep r s → Races s t → Races r t

-- `k` requests come to a counter that stands at `n`; and all are behind the increment.
abbrev pub race_of : ℕ → ℕ → Race
race_of n k = record { request_count = n; coming = k; loaded = []; counted = 0 }

abbrev pub race_over : ℕ → ℕ → Race
race_over c k = record { request_count = c; coming = 0; loaded = []; counted = k }

-- No value is below the counter's first, or further above it than there are increments behind.
record IsWithin (n k : ℕ) (r : Race) : Type 0 where
  values : All (λ v. (n ≤ v) × (v ≤ n + r.counted)) r.loaded
  above : n ≤ r.request_count
  moved : 0 < r.counted → n < r.request_count
  below : r.request_count ≤ n + r.counted
  all_there : r.coming + (length r.loaded + r.counted) ≡ k

race_of-IsWithin : (n k : ℕ) → IsWithin n k (race_of n k)
race_of-IsWithin n k = record {
  values = tt;
  above = omega arith;
  moved = λ moves. omega (arith, moves);
  below = omega arith;
  all_there = omega arith;
}

All-split {ℓ κ} :
    {A : Type ℓ} (P : A → Type κ) (before after : List A) (x : A)
    → All P (before ++ x ∷ after)
    → P x × All P (before ++ after)
All-split P [] after x (p, h) = (p, h)
All-split P (y ∷ before) after x (q, h) = let (p, h') = All-split P before after x h in (p, (q, h'))

RaceStep-IsWithin : (n k : ℕ) (r s : Race) → IsWithin n k r → RaceStep r s → IsWithin n k s
RaceStep-IsWithin n k r _ h (loads m e) = record {
  values = ((h.above, h.below), h.values);
  above = h.above;
  moved = h.moved;
  below = h.below;
  all_there = omega (arith, e, h.all_there);
}
RaceStep-IsWithin n k r _ h (stores before after v e) =
    let (own, others) = All-split _ before after v (subst (All _) e h.values) in
    let sizes : length r.loaded ≡ suc (length before + length after) =
      ap length e ∙ omega (arith, length-append before (v ∷ after)) in
    record {
      values = All-map _ _ (before ++ after) (λ x p. (p.0, omega (arith, p.1))) others;
      above = omega (arith, own.0);
      moved = λ _. omega (arith, own.0);
      below = omega (arith, own.1);
      all_there = omega (arith, h.all_there, sizes, length-append before after);
    }

Races-IsWithin : (n k : ℕ) (r s : Race) → IsWithin n k r → Races r s → IsWithin n k s
Races-IsWithin n k r _ h done = h
Races-IsWithin n k r s h (then_on {s = q} step rest) =
    Races-IsWithin n k q s (RaceStep-IsWithin n k r q h step) rest

Races-trans : {r s t : Race} → Races r s → Races s t → Races r t
Races-trans done later = later
Races-trans (then_on step rest) later = then_on step (Races-trans rest later)

abbrev race : ℕ → ℕ → List ℕ → ℕ → Race
race c coming loaded counted = record {
  request_count = c;
  coming = coming;
  loaded = loaded;
  counted = counted;
}

abbrev copies : ℕ → ℕ → List ℕ
copies zero c = []
copies (suc m) c = c ∷ copies m c

-- Two ways to write a state.
same_race :
    (c c' k k' f f' : ℕ) (l l' : List ℕ)
    → c ≡ c'
    → k ≡ k'
    → l ≡ l'
    → f ≡ f'
    → Races (race c k l f) (race c' k' l' f')
same_race c c' k k' f f' l l' e1 e2 e3 e4 =
    let same : race c k l f ≡ race c' k' l' f' = cc in subst (λ r. Races (race c k l f) r) same done

-- Requests that are counted one behind the other.
one_by_one :
    (j c w f k c' f' : ℕ)
    → k ≡ j + w
    → c' ≡ c + j
    → f' ≡ f + j
    → Races (race c k [] f) (race c' w [] f')
one_by_one zero c w f k c' f' e1 e2 e3 =
    same_race c c' k w f f' [] [] (omega arith) (omega arith) refl (omega arith)
one_by_one (suc j) c w f k c' f' e1 e2 e3 = then_on (loads (j + w) (omega arith)) (
    then_on (stores [] [] c refl)
      (one_by_one j (c + 1) w (f + 1) (j + w) c' f' refl (omega arith) (omega arith)))

all_load : (w m c f k : ℕ) → k ≡ w + m → Races (race c w (copies m c) f) (race c 0 (copies k c) f)
all_load zero m c f k e =
    let sizes : m ≡ k = omega arith in
    same_race c c 0 0 f f (copies m c) (copies k c) refl refl (ap (λ n. copies n c) sizes) refl
all_load (suc w) m c f k e = then_on (loads w refl) (all_load w (suc m) c f k (omega arith))

-- Those that have loaded the same value store the same value.
all_store :
    (m c f f' : ℕ) → f' ≡ f + m → Races (race (c + 1) 0 (copies m c) f) (race (c + 1) 0 [] f')
all_store zero c f f' e = same_race (c + 1) (c + 1) 0 0 f f' [] [] refl refl refl (omega arith)
all_store (suc m) c f f' e =
    then_on (stores [] (copies m c) c refl) (all_store m c (f + 1) f' (omega arith))

-- `j` requests are counted one behind the other, and `w + 1` others at once.
some_at_once :
    (j w n k c d : ℕ) → k ≡ j + suc w → d ≡ n + j → c ≡ d + 1 → Races (race_of n k) (race_over c k)
some_at_once j w n k c d e1 e2 e3 =
    Races-trans (one_by_one j n (suc w) 0 k d j e1 e2 (omega arith)) (
      Races-trans (all_load (suc w) 0 d j (suc w) (omega arith)) (
        then_on (stores [] (copies w d) d refl) (
          Races-trans (all_store w d (j + 1) k (omega arith))
            (same_race (d + 1) c 0 0 k k [] [] (sym e3) refl refl refl))))

-- Where `k` requests, at least one, come to the increment of a counter at `n`, the counts that may
-- stand behind them all are those from `n + 1` to `n + k`: increments may be lost, all but one of
-- them, and none is counted twice.
pub race_iff : (n k c : ℕ) → 0 < k → Races (race_of n k) (race_over c k) ↔ ((n < c) × (c ≤ n + k))
race_iff n k c some_come = (bounded, reached)
  where
    bounded : Races (race_of n k) (race_over c k) → (n < c) × (c ≤ n + k)
    bounded run =
        let h = Races-IsWithin n k (race_of n k) (race_over c k) (race_of-IsWithin n k) run in
        (h.moved some_come, h.below)

    reached : (n < c) × (c ≤ n + k) → Races (race_of n k) (race_over c k)
    reached (above, below) =
        some_at_once (c - n - 1) (n + k - c) n k c (c - 1) (omega (arith, above, below))
          (omega (arith, above)) (omega (arith, above))
