-- ===== src/Dispatcher/Paths.antt =====
-- What `trim_slashes` takes off a path.
use https_server.Prelude.{
  ℕ, zero, suc, ◌<◌, ◌≡◌, inl, inr, refl, ap, sym, ◌∙◌, Bool, true, false, ◌&&◌, [], ◌∷◌, ◌++◌,
  append-nil, append_assoc, ltb, arith, Bytes, Bool-cases, length, take,
}
use https_server.Dispatcher.{trim_loop, trim_slashes}
use https_server.StdString.{back, pop_back, is_slash}

-- Slashes alone.
pub data IsSlashes : Bytes → Type 0 where
  nil : IsSlashes []
  cons : {s : Bytes} → IsSlashes s → IsSlashes (b'/' ∷ s)

-- The test of the loop.
abbrev pub ends_in_slash : Bytes → Bool
ends_in_slash path = ltb 1 (length path) && is_slash (back path)

pop_back-slash : (path : Bytes) → is_slash (back path) ≡ true → path ≡ pop_back path ++ b'/' ∷ []
unfolding back pop_back
pop_back-slash [] h = cc
pop_back-slash (c ∷ []) h = let same : c ≡ b'/' = ground arith in rw same refl
pop_back-slash (c ∷ d ∷ s) h = ap (◌∷◌ c) (pop_back-slash (d ∷ s) h)

length-pop_back : (c : ℕ) (s : Bytes) → length (pop_back (c ∷ s)) ≡ length s
unfolding pop_back
length-pop_back c [] = refl
length-pop_back c (d ∷ s) = ap suc (length-pop_back d s)

pop_back-lt : (path : Bytes) → ends_in_slash path ≡ true → length (pop_back path) < length path
pop_back-lt [] h = cc
pop_back-lt (c ∷ s) h = omega (arith, length-pop_back c s)

pop_back_pos : (path : Bytes) → ends_in_slash path ≡ true → 0 < length (pop_back path)
pop_back_pos [] h = cc
pop_back_pos (c ∷ []) h = unfold back in ground arith
pop_back_pos (c ∷ d ∷ s) h = omega (arith, length-pop_back c (d ∷ s))

IsSlashes-concat : {s : Bytes} → IsSlashes s → IsSlashes (s ++ b'/' ∷ [])
IsSlashes-concat nil = cons nil
IsSlashes-concat (cons h) = cons (IsSlashes-concat h)

-- The path is the result and slashes; the result does not end in a slash, unless it is one byte or
-- none; and it is empty only if the path is.
pub record IsTrimmed (path result : Bytes) : Type 0 where
  pub slashes : Bytes
  pub all_slashes : IsSlashes slashes
  pub splits : path ≡ result ++ slashes
  pub stops : ends_in_slash result ≡ false
  pub keeps : (0 < length path) → 0 < length result

trim_loop-IsTrimmed :
    (fuel : ℕ) (path : Bytes) → length path < fuel → IsTrimmed path (trim_loop fuel path)
unfolding trim_loop
trim_loop-IsTrimmed zero path h = elim h [ ]
trim_loop-IsTrimmed (suc fuel) path h = elim (Bool-cases (ends_in_slash path)) [
  | inr e ↦ rw e (record {
    slashes = [];
    all_slashes = nil;
    splits = sym (append-nil path);
    stops = e;
    keeps = λ p. p;
  })
  | inl e ↦ rw e (
      let ih = trim_loop-IsTrimmed fuel (pop_back path) (omega (arith, pop_back-lt path e)) in
      record {
        slashes = ih.slashes ++ b'/' ∷ [];
        all_slashes = IsSlashes-concat ih.all_slashes;
        splits =
            pop_back-slash path (ground arith)
            ∙ ap (λ s. s ++ b'/' ∷ []) ih.splits
            ∙ append_assoc (trim_loop fuel (pop_back path)) ih.slashes (b'/' ∷ []);
        stops = ih.stops;
        keeps = λ p. ih.keeps (pop_back_pos path e);
      })
]

-- `trim_slashes` takes off all trailing slashes, and nothing else, but never the only byte.
trim_slashes-IsTrimmed : (path : Bytes) → IsTrimmed path (trim_slashes path)
unfolding trim_slashes
trim_slashes-IsTrimmed path = trim_loop-IsTrimmed (suc (length path)) path (omega arith)

first_kept :
    (c : ℕ) (rest result slashes : Bytes)
    → c ∷ rest ≡ result ++ slashes
    → 0 < length result
    → take 1 result ≡ c ∷ []
first_kept c rest [] slashes e h = elim h [ ]
first_kept c rest (d ∷ result) slashes e h = cc

-- A path that begins with a slash still does when it is trimmed.
pub slash_first : (rest : Bytes) → take 1 (trim_slashes (b'/' ∷ rest)) ≡ b'/' ∷ []
slash_first rest =
    let t = trim_slashes-IsTrimmed (b'/' ∷ rest) in
    first_kept b'/' rest (trim_slashes (b'/' ∷ rest)) t.slashes t.splits (t.keeps (omega arith))
