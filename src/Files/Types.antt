-- ===== src/Files/Types.antt =====
-- `mime_type` of src/file_handler.cc: the content type by the extensions that stand in a target.
use https_server.Prelude.{
  ℕ, ◌<◌, ◌≡◌, ◌⊎◌, inl, inr, true, false, [], ◌∷◌, ◌==◌, Bytes, codes, length, Bool-cases,
}
use https_server.Files.{mime_type}
use https_server.StdString.Holds.{Holds, find_iff}
use https_server.StdString.{npos, find}

-- The type of a target is that of the first extension, in this order, that stands in it at any
-- place; a target without a "." has the empty one.
pub data HasType (target : Bytes) : Bytes → Type 0 where
  no_extension : (Holds (codes ".") target → ⊥) → HasType target []
  html : Holds (codes ".html") target → HasType target (codes "text/html")
  text :
      (Holds (codes ".html") target → ⊥)
      → Holds (codes ".txt") target
      → HasType target (codes "text/plain")
  jpeg :
      (Holds (codes ".html") target → ⊥)
      → (Holds (codes ".txt") target → ⊥)
      → Holds (codes ".jpg") target ⊎ Holds (codes ".jpeg") target
      → HasType target (codes "image/jpeg")
  zip :
      (Holds (codes ".html") target → ⊥)
      → (Holds (codes ".txt") target → ⊥)
      → (Holds (codes ".jpg") target ⊎ Holds (codes ".jpeg") target → ⊥)
      → Holds (codes ".zip") target
      → HasType target (codes "application/zip")
  unsupported :
      Holds (codes ".") target
      → (Holds (codes ".html") target → ⊥)
      → (Holds (codes ".txt") target → ⊥)
      → (Holds (codes ".jpg") target ⊎ Holds (codes ".jpeg") target → ⊥)
      → (Holds (codes ".zip") target → ⊥)
      → HasType target (codes "unsupported")

-- The test of the code, and what it decides.
Tested : Bytes → Bytes → Type 0
Tested needle target =
    ((find target needle == npos) ≡ true) × (Holds needle target → ⊥)
    ⊎ (((find target needle == npos) ≡ false) × Holds needle target)

tested : (x : ℕ) (needle target : Bytes) → length target < npos → Tested (x ∷ needle) target
unfolding Tested
tested x needle target small = elim (Bool-cases (find target (x ∷ needle) == npos)) [
  | inl e ↦ inl (e, λ h. let found = (find_iff x needle target small).1 h in cc)
  | inr e ↦ inr (e, (find_iff x needle target small).0 e)
]

neither : {A B : Type 0} → (A → ⊥) → (B → ⊥) → A ⊎ B → ⊥
neither p q (inl a) = p a
neither p q (inr b) = q b

pub mime_type-HasType : (target : Bytes) → length target < npos → HasType target (mime_type target)
unfolding mime_type Tested
mime_type-HasType target small = elim (tested b'.' [] target small) [
  | inl (e, n) ↦ rw e (no_extension n)
  | inr (e, dot) ↦ elim (tested b'.' (codes "html") target small) [
    | inr (f, h) ↦ rw (e, f) (html h)
    | inl (f, n) ↦ elim (tested b'.' (codes "txt") target small) [
      | inr (g, h) ↦ rw (e, f, g) (text n h)
      | inl (g, o) ↦ elim (tested b'.' (codes "jpg") target small) [
        | inr (j, h) ↦ rw (e, f, g, j) (jpeg n o (inl h))
        | inl (j, p) ↦ elim (tested b'.' (codes "jpeg") target small) [
          | inr (k, h) ↦ rw (e, f, g, j, k) (jpeg n o (inr h))
          | inl (k, q) ↦
              let no_jpeg : Holds (codes ".jpg") target ⊎ Holds (codes ".jpeg") target → ⊥ =
                neither p q in
              elim (tested b'.' (codes "zip") target small) [
                | inr (l, h) ↦ rw (e, f, g, j, k, l) (zip n o no_jpeg h)
                | inl (l, r) ↦ rw (e, f, g, j, k, l) (unsupported dot n o no_jpeg r)
              ]
        ]
      ]
    ]
  ]
]
