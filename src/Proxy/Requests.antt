-- ===== src/Proxy/Requests.antt =====
-- What `ProxyHandler::handle_request` of src/proxy_handler.cc asks for, and what it returns.
use https_server.Prelude.{
  ℕ, ◌+◌, ◌<◌, ◌≡◌, refl, subst, sym, ap, ◌∙◌, true, false, [], ◌∷◌, ◌++◌, some, ltb, ◌==◌,
  if◌then◌else◌, arith, Bytes, codes, length, length-append, take, drop-append, All, Bool-cases,
  inl, inr, equal, equal_iff, ==_iff, take-append,
}
use https_server.Files.{content_type}
use https_server.Handlers.{built}
use https_server.Http.{Request, Response, get_field, field_value, set_field}
use https_server.Proxy.Redirects.{Leads, issue_outside_request-Leads}
use https_server.Proxy.{
  Network, cut_type, cut_content_type, slash_if_empty, cut_response, issue_behind,
  issue_outside_request, handle_proxy_request,
}
use https_server.StdMap.Laws.{lookup-insert}
use https_server.StdMap.{lookup}
use https_server.StdString.{npos, find, find_at, starts_with, substr_from}

-- No byte of the text is a ";".
abbrev NoParameters : Bytes → Type 0
NoParameters = All (λ c. (b';' == c) ≡ false)

-- A content type, and what stands in it before the first ";", which is all of it where it has none.
pub data IsCut : Bytes → Bytes → Type 0 where
  uncut : (kind : Bytes) → NoParameters kind → IsCut kind kind
  cut : (front rest : Bytes) → NoParameters front → IsCut (front ++ b';' ∷ rest) front

-- What `find` makes of a text: it finds nothing, or the position behind bytes that are no ";".
find_at-NoParameters :
    (i : ℕ) (s : Bytes)
    → (find_at i (codes ";") s == npos) ≡ true
    → i + length s < npos
    → NoParameters s
unfolding find_at starts_with
find_at-NoParameters i [] h small = tt
find_at-NoParameters i (c ∷ s) h small = elim (Bool-cases (b';' == c)) [
  | inl e ↦ ground arith
  | inr e ↦ (e, find_at-NoParameters (i + 1) s (ground arith) (omega arith))
]

find_at-front :
    (i : ℕ) (s : Bytes)
    → (find_at i (codes ";") s == npos) ≡ false
    → (front rest : Bytes) × (s ≡ front ++ b';' ∷ rest)
      × (find_at i (codes ";") s ≡ i + length front)
      × NoParameters front
unfolding find_at starts_with
find_at-front i [] h = absurd (ground arith)
find_at-front i (c ∷ s) h = elim (Bool-cases (b';' == c)) [
  | inl e ↦ ([], s, ap (λ d. d ∷ s) (sym ((==_iff b';' c).0 e)), ground arith, tt)
  | inr e ↦
      let (front, rest, same, found, plain) = find_at-front (i + 1) s (ground arith) in
      (c ∷ front, rest, ap (λ t. c ∷ t) same, ground (arith, found), (e, plain))
]

get_field-set_field :
    (name value : Bytes) (r : Response) → get_field (set_field name value r) name ≡ value
get_field-set_field name value r =
    let self : equal name name ≡ true = (equal_iff name name).1 refl in
    ap field_value (
      lookup-insert name name value r.fields
      ∙ ap (λ b. if b then some value else lookup name r.fields) self)

cut_type-IsCut :
    (kind : Bytes) (r : Response)
    → get_field r content_type ≡ kind
    → length kind < npos
    → IsCut kind (get_field (cut_type kind (find kind (codes ";")) r) content_type)
cut_type-IsCut kind r same small = elim (Bool-cases (find kind (codes ";") == npos)) [
  | inl e ↦ rw (e, same) (uncut kind (find_at-NoParameters 0 kind e (omega (arith, small))))
  | inr e ↦
      let (front, rest, parts, found, plain) = find_at-front 0 kind e in
      let at_end : find kind (codes ";") ≡ length front = found ∙ omega arith in
      let taken : take (find kind (codes ";")) kind ≡ front =
        ap (λ k. take k kind) at_end
        ∙ (ap (take (length front)) parts ∙ take-append front (b';' ∷ rest)) in
      let sent : get_field (set_field content_type (take (find kind (codes ";")) kind) r)
            content_type
          ≡ front =
        get_field-set_field content_type (take (find kind (codes ";")) kind) r ∙ taken in
      rw e (
        subst (IsCut kind) (sym sent)
          (subst (λ k. IsCut k front) (sym parts) (cut front rest plain)))
]

cut_type_lem :
    (kind : Bytes) (pos : ℕ) (r : Response)
    → ((cut_type kind pos r).result ≡ r.result) × ((cut_type kind pos r).body ≡ r.body)
cut_type_lem kind pos r = elim (Bool-cases (pos == npos)) [
  | inl e ↦ rw e (refl, refl)
  | inr e ↦ rw e (refl, refl)
]

pub substr_from-append :
    (prefix rest : Bytes) → substr_from (prefix ++ rest) (length prefix) ≡ some rest
substr_from-append prefix rest =
    let inside : ltb (length (prefix ++ rest)) (length prefix) ≡ false =
      ground (arith, length-append prefix rest) in
    rw inside (ap some (drop-append prefix rest))

-- A request whose target is the prefix of the handler and a rest is passed on with the rest as its
-- target, or "/" where the rest is empty; the response that the redirections lead to is returned
-- with its status and body, and with its content type cut off before the first ";".
pub handle_proxy_request-Leads :
    (fuel : ℕ) (network : Network) (prefix host port rest : Bytes) (request : Request) (n : ℕ)
    (r : Response)
    → request.target ≡ prefix ++ rest
    → n < fuel
    → Leads network host port (slash_if_empty rest) n r
    → length (get_field r content_type) < npos
    → (r' : Response) × (handle_proxy_request fuel network prefix host port request
        ≡ some (built r'))
      × (r'.result ≡ r.result)
      × (r'.body ≡ r.body)
      × IsCut (get_field r content_type) (get_field r' content_type)
unfolding handle_proxy_request cut_content_type
handle_proxy_request-Leads fuel network prefix host port rest request n r same fits leads small =
    let kind = get_field r content_type in
    let issue = issue_outside_request fuel network host port in
    let target : substr_from request.target (length prefix) ≡ some rest =
      ap (λ t. substr_from t (length prefix)) same ∙ substr_from-append prefix rest in
    let answer =
      issue_outside_request-Leads network fuel host port (slash_if_empty rest) n r fits leads in
    (
      cut_content_type r,
      ap (issue_behind issue) target ∙ ap cut_response answer,
      (cut_type_lem kind (find kind (codes ";")) r).0,
      (cut_type_lem kind (find kind (codes ";")) r).1,
      cut_type-IsCut (get_field r content_type) r refl small,
    )
