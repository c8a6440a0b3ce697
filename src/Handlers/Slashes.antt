-- ===== src/Handlers/Slashes.antt =====
-- `parse_url` of src/proxy_handler.cc on texts without another byte than slashes.
use https_server.Prelude.{
  ℕ, zero, suc, ◌+◌, ◌-◌, ◌≡◌, ◌≢◌, ◌<◌, ◌↔◌, ◌⊎◌, refl, sym, ap, ◌∙◌, Bool, true, false, not, [],
  ◌∷◌, Option, none, some, ◌==◌, if◌then◌else◌, arith, Bytes, codes, length, All, Bool-cases,
  Option-cases, inl, inr,
}
use https_server.Handlers.{
  Built, built, threw, undefined, ◌>>=◌, or_threw, remove_end_slash, split_url, url, parse_url,
}
use https_server.StdString.{npos, find, find_from, substr, back, pop_back}

abbrev pub IsSlash : ℕ → Type 0
IsSlash c = c ≡ b'/'

All-pop_back : (s : Bytes) → All IsSlash s → All IsSlash (pop_back s)
unfolding pop_back
All-pop_back [] h = tt
All-pop_back (c ∷ []) h = tt
All-pop_back (c ∷ d ∷ s) h = (h.0, All-pop_back (d ∷ s) h.1)

back-IsSlash : (s : Bytes) (c : ℕ) → All IsSlash s → back s ≡ some c → c ≡ b'/'
unfolding back
back-IsSlash [] c h e = absurd (cc)
back-IsSlash (d ∷ []) c h e = let same : d ≡ c = cc in sym same ∙ h.0
back-IsSlash (d ∷ x ∷ s) c h e = back-IsSlash (x ∷ s) c h.1 e

pop_back-All :
    (s : Bytes) (c : ℕ) → back s ≡ some c → c ≡ b'/' → All IsSlash (pop_back s) → All IsSlash s
unfolding back pop_back
pop_back-All [] c e h k = tt
pop_back-All (d ∷ []) c e h k = let same : d ≡ c = cc in (same ∙ h, tt)
pop_back-All (d ∷ x ∷ s) c e h k = (k.0, pop_back-All (x ∷ s) c e h k.1)

back-none : (s : Bytes) → back s ≡ none → s ≡ []
unfolding back
back-none [] e = refl
back-none (c ∷ []) e = cc
back-none (c ∷ d ∷ s) e = let gone : d ∷ s ≡ [] = back-none (d ∷ s) e in absurd (cc)

length-pop_back : (s : Bytes) (c : ℕ) → back s ≡ some c → suc (length (pop_back s)) ≡ length s
unfolding back pop_back
length-pop_back [] c e = cc
length-pop_back (d ∷ []) c e = omega arith
length-pop_back (d ∷ x ∷ s) c e = omega (arith, length-pop_back (x ∷ s) c e)

remove_end_slash_undefined :
    (fuel : ℕ) (s : Bytes) → All IsSlash s → remove_end_slash fuel s ≡ undefined
unfolding remove_end_slash
remove_end_slash_undefined zero s h = refl
remove_end_slash_undefined (suc fuel) s h = elim (Option-cases (back s)) [
  | inl e ↦ rw (e, remove_end_slash) refl
  | inr (c, e) ↦
      let slash : (c == b'/') ≡ true = ground (arith, back-IsSlash s c h e) in
      rw (e, slash, remove_end_slash)
        (remove_end_slash_undefined fuel (pop_back s) (All-pop_back s h))
]

remove_end_slash-All :
    (fuel : ℕ) (s : Bytes)
    → length s < fuel
    → All IsSlash s ⊎ ((t : Bytes) × (remove_end_slash fuel s ≡ built t))
unfolding remove_end_slash
remove_end_slash-All zero s h = absurd (omega (arith, h))
remove_end_slash-All (suc fuel) s h = elim (Option-cases (back s)) [
  | inl e ↦ inl (rw (back-none s e) tt)
  | inr (c, e) ↦ elim (Bool-cases (c == b'/')) [
    | inr other ↦ inr (s, rw (e, other, remove_end_slash) refl)
    | inl slash ↦
        elim (remove_end_slash-All fuel (pop_back s) (omega (arith, length-pop_back s c e, h))) [
          | inl all ↦ inl (pop_back-All s c e (ground arith) all)
          | inr (t, found) ↦ inr (t, rw (e, slash, remove_end_slash) found)
        ]
  ]
]

bind-ne-undefined :
    {A B : Type 0} (m : Built A) (f : A → Built B)
    → m ≢ undefined
    → ((a : A) → f a ≢ undefined)
    → (m >>= f) ≢ undefined
bind-ne-undefined (built a) f h k = k a
bind-ne-undefined threw f h k = λ e. cc
bind-ne-undefined undefined f h k = absurd (h refl)

built-ne-undefined : {A : Type 0} (a : A) → built a ≢ undefined
built-ne-undefined a = λ e. cc

or_threw-ne-undefined : {A : Type 0} (o : Option A) → or_threw o ≢ undefined
or_threw-ne-undefined none = λ e. cc
or_threw-ne-undefined (some a) = λ e. cc

path-ne-undefined :
    (b : Bool) (o : Option Bytes) → (if b then or_threw o else built (codes "/")) ≢ undefined
path-ne-undefined true o = or_threw-ne-undefined o
path-ne-undefined false o = λ e. cc

-- The shape of `split_url`, for any of its tests and parts.
split-ne-undefined :
    (b c : Bool) (p q r : Option Bytes)
    → (if b then built (url [] [] []) else do
      protocol ← or_threw p
      host ← or_threw q
      path ← if c then or_threw r else built (codes "/")
      built (url protocol host path))
      ≢ undefined
split-ne-undefined true c p q r = built-ne-undefined _
split-ne-undefined false c p q r =
    bind-ne-undefined (or_threw p) _ (or_threw-ne-undefined p) (λ protocol.
      bind-ne-undefined (or_threw q) _ (or_threw-ne-undefined q) (λ host.
        bind-ne-undefined (if c then or_threw r else built (codes "/")) _ (path-ne-undefined c r)
          (λ path. built-ne-undefined _)))

split_url-ne-undefined : (s : Bytes) → split_url s ≢ undefined
split_url-ne-undefined s =
    let host_start = find s (codes "://") in
    let behind = host_start + 3 in
    let host_end = find_from s (codes "/") behind in
    split-ne-undefined (host_start == npos) (not (host_end == npos)) (substr s 0 host_start)
      (substr s behind (host_end - behind)) (substr s host_end npos)

-- `parse_url` reads in front of the beginning of a text, which is undefined, exactly where it has
-- no byte but slashes.
pub parse_url_undefined_iff : (text : Bytes) → (parse_url text ≡ undefined) ↔ All IsSlash text
unfolding parse_url
parse_url_undefined_iff text =
    (only, λ h. ap (λ b. b >>= split_url) (remove_end_slash_undefined (suc (length text)) text h))
  where
    only : parse_url text ≡ undefined → All IsSlash text
    only e = elim (remove_end_slash-All (suc (length text)) text (omega arith)) [
      | inl all ↦ all
      | inr (t, found) ↦
          absurd (split_url-ne-undefined t (sym (ap (λ b. b >>= split_url) found) ∙ e))
    ]
