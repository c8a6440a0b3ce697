-- ===== src/StdString/Holds.antt =====
-- What `std::string::find` finds: whether a text stands in another.
use https_server.Prelude.{
  ℕ, ◌+◌, ◌<◌, ◌≡◌, ◌↔◌, refl, ap, sym, ◌∙◌, true, false, [], ◌∷◌, ◌++◌, arith, Bytes, length,
  Bool-cases, inl, inr, ==_iff, ◌==◌,
}
use https_server.StdString.{npos, find, find_at, starts_with}

-- The first text stands in the second one.
abbrev pub Holds : Bytes → Bytes → Type 0
Holds needle text = (before behind : Bytes) × (text ≡ before ++ (needle ++ behind))

starts_with_lem :
    (needle s : Bytes) → starts_with needle s ≡ true → (behind : Bytes) × (s ≡ needle ++ behind)
unfolding starts_with
starts_with_lem [] s h = (s, refl)
starts_with_lem (x ∷ needle) [] h = cc
starts_with_lem (x ∷ needle) (c ∷ s) h = elim (Bool-cases (x == c)) [
  | inl e ↦
      let (behind, same) = starts_with_lem needle s (rw e at h) in
      (behind, ap (λ d. d ∷ s) (sym ((==_iff x c).0 e)) ∙ ap (λ t. x ∷ t) same)
  | inr e ↦ let never : false ≡ true = rw e at h in cc
]

pub starts_with-append : (needle s : Bytes) → starts_with needle (needle ++ s) ≡ true
unfolding starts_with
starts_with-append [] s = refl
starts_with-append (x ∷ needle) s =
    let same : (x == x) ≡ true = ground arith in rw same (starts_with-append needle s)

found-Holds :
    (i x : ℕ) (needle s : Bytes) → (find_at i (x ∷ needle) s == npos) ≡ false → Holds (x ∷ needle) s
unfolding find_at
found-Holds i x needle [] h = absurd (ground arith)
found-Holds i x needle (c ∷ s) h = elim (Bool-cases (starts_with (x ∷ needle) (c ∷ s))) [
  | inl e ↦ let (behind, same) = starts_with_lem (x ∷ needle) (c ∷ s) e in ([], behind, same)
  | inr e ↦
      let (before, behind, same) = found-Holds (i + 1) x needle s (rw e at h) in
      (c ∷ before, behind, ap (λ t. c ∷ t) same)
]

held-found :
    (i x : ℕ) (needle before behind : Bytes)
    → i + length (before ++ ((x ∷ needle) ++ behind)) < npos
    → (find_at i (x ∷ needle) (before ++ ((x ∷ needle) ++ behind)) == npos) ≡ false
unfolding find_at
held-found i x needle [] behind small =
    let front = starts_with-append (x ∷ needle) behind in
    let inside : (i == npos) ≡ false = ground arith in rw front inside
held-found i x needle (c ∷ before) behind small =
    let s = before ++ ((x ∷ needle) ++ behind) in
    elim (Bool-cases (starts_with (x ∷ needle) (c ∷ s))) [
      | inl e ↦ let inside : (i == npos) ≡ false = ground arith in rw e inside
      | inr e ↦ rw e (held-found (i + 1) x needle before behind (omega (arith, small)))
    ]

-- `find` gives a position, and not `npos`, where a text that is not empty stands in the other.
pub find_iff :
    (x : ℕ) (needle s : Bytes)
    → length s < npos
    → ((find s (x ∷ needle) == npos) ≡ false) ↔ Holds (x ∷ needle) s
find_iff x needle s small = (
  found-Holds 0 x needle s,
  λ h.
      let (before, behind, same) = h in
      ap (λ t. find t (x ∷ needle) == npos) same
      ∙ held-found 0 x needle before behind (omega (arith, small, ap length same)),
)
