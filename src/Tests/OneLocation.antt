-- ===== src/Tests/OneLocation.antt =====
-- Where a config leads a URI, if it has one location alone.
use https_server.Prelude.{
  ◌≡◌, ◌<◌, ap, false, some, Bytes, equal, equal_iff, length, Bool-cases, inl, inr, arith,
}
use https_server.Config.{Config}
use https_server.Dispatcher.Assigned.{assigned}
use https_server.Dispatcher.Routed.{LeadsTo}
use https_server.Dispatcher.Search.{IsPrefixOf}
use https_server.Dispatcher.{root_path}
use https_server.Handlers.{Handler, built}

-- No other path has a handler.
abbrev pub IsOnly : Config → Bytes → Type 0
IsOnly c path = (key : Bytes) (h : Handler) → assigned key c ≡ built (some h) → path ≡ key

pub IsOnly-LeadsTo :
    (c : Config) (path uri : Bytes) (h : Handler)
    → assigned path c ≡ built (some h)
    → IsOnly c path
    → equal path root_path ≡ false
    → 0 < length path
    → IsPrefixOf uri path
    → LeadsTo c uri h
IsOnly-LeadsTo c path uri h has only other filled prefix = (
  path,
  rw other has,
  prefix,
  filled,
  λ key h' has' p. elim (Bool-cases (equal key root_path)) [
    | inl e ↦
        let same = ap (λ k. length k) ((equal_iff key root_path).0 e) in omega (arith, same, filled)
    | inr e ↦ let same = ap (λ k. length k) (only key h' (rw e at has')) in omega (arith, same)
  ],
)
