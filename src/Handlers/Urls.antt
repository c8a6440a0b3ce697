-- ===== src/Handlers/Urls.antt =====
-- `parse_url` of src/proxy_handler.cc takes a URL apart.
use https_server.Prelude.{
  ℕ, zero, suc, ◌+◌, ◌-◌, ◌<◌, ◌≤◌, ◌≡◌, refl, sym, subst, ap, ◌∙◌, false, not, [], ◌∷◌, ◌++◌, some,
  ltb, ◌==◌, if◌then◌else◌, arith, Bytes, codes, length, length-append, take, drop, take-append,
  drop-append, append_assoc, append-nil, All,
}
use https_server.Handlers.{url, built, ◌>>=◌, or_threw, remove_end_slash, split_url, parse_url}
use https_server.StdString.Laws.{
  find_at-byte, find_at-byte_npos, back-append, pop_back-append, take_all,
}
use https_server.StdString.{npos, find, find_from, find_at, starts_with, substr}

-- A text with so many slashes behind it.
abbrev pub with_slashes : ℕ → Bytes → Bytes
with_slashes zero s = s
with_slashes (suc n) s = with_slashes n s ++ b'/' ∷ []

remove_end_slash-with_slashes :
    (n fuel : ℕ) (s : Bytes) (c : ℕ)
    → (c == b'/') ≡ false
    → n < fuel
    → remove_end_slash fuel (with_slashes n (s ++ c ∷ [])) ≡ built (s ++ c ∷ [])
unfolding remove_end_slash
remove_end_slash-with_slashes n zero s c e h = absurd (omega arith)
remove_end_slash-with_slashes zero (suc fuel) s c e h =
    rw (back-append s c, e, remove_end_slash) refl
remove_end_slash-with_slashes (suc n) (suc fuel) s c e h =
    let shorter = with_slashes n (s ++ c ∷ []) in
    rw (back-append shorter b'/', remove_end_slash)
      (ap (remove_end_slash fuel) (pop_back-append shorter b'/')
        ∙ remove_end_slash-with_slashes n fuel s c e (omega arith))

length-with_slashes : (n : ℕ) (s : Bytes) → length (with_slashes n s) ≡ length s + n
length-with_slashes zero s = omega arith
length-with_slashes (suc n) s =
    omega (arith, length-append (with_slashes n s) (b'/' ∷ []), length-with_slashes n s)

-- "://" is found behind bytes that are no colon.
find_at-protocol :
    (i : ℕ) (protocol rest : Bytes)
    → All (λ c. (b':' == c) ≡ false) protocol
    → find_at i (codes "://") (protocol ++ (codes "://" ++ rest)) ≡ i + length protocol
unfolding find_at starts_with
find_at-protocol i [] rest h = omega arith
find_at-protocol i (c ∷ protocol) rest (e, h) =
    rw e (omega (arith, find_at-protocol (i + 1) protocol rest h))

-- The path of a URL: none, or one that begins with a slash.
pub data UrlPath : Bytes → Type 0 where
  no_path : UrlPath []
  a_path : (p : Bytes) → UrlPath (b'/' ∷ p)

abbrev pub path_or_slash : Bytes → Bytes
path_or_slash [] = codes "/"
path_or_slash (c ∷ p) = c ∷ p

abbrev pub url_text : Bytes → Bytes → Bytes → Bytes
url_text protocol host path = protocol ++ (codes "://" ++ (host ++ path))

-- The parts of a text that is a protocol, "://", a host and a path.
module _ (protocol host path : Bytes) (no_colon : All (λ c. (b':' == c) ≡ false) protocol)
    (no_slash : All (λ c. (b'/' == c) ≡ false) host)
    (small : length (url_text protocol host path) < npos) where
  long : length (url_text protocol host path) ≡ length protocol + (3 + (length host + length path))
  long =
      omega (arith, length-append protocol (codes "://" ++ (host ++ path)), length-append host path)

  drop-protocol : drop (length protocol + 3) (url_text protocol host path) ≡ host ++ path
  drop-protocol =
      let front : length (protocol ++ codes "://") ≡ length protocol + 3 =
        omega (arith, length-append protocol (codes "://")) in
      subst (λ k. drop k (url_text protocol host path) ≡ host ++ path) front
        (ap (drop (length (protocol ++ codes "://")))
            (sym (append_assoc protocol (codes "://") (host ++ path)))
          ∙ drop-append (protocol ++ codes "://") (host ++ path))

  take-host : (n : ℕ) → n ≡ length host → take n (host ++ path) ≡ host
  take-host n e = rw e (take-append host path)

  substr-inside :
      (pos count : ℕ)
      → pos ≤ length (url_text protocol host path)
      → substr (url_text protocol host path) pos count
        ≡ some (take count (drop pos (url_text protocol host path)))
  substr-inside pos count h =
      let fits : ltb (length (url_text protocol host path)) pos ≡ false = ground arith in
      rw fits refl

  has_protocol : find (url_text protocol host path) (codes "://") ≡ length protocol
  has_protocol = find_at-protocol 0 protocol (host ++ path) no_colon ∙ omega arith

  protocol_text : substr (url_text protocol host path) 0 (length protocol) ≡ some protocol
  protocol_text =
      substr-inside 0 (length protocol) (omega arith)
      ∙ ap some (take-append protocol (codes "://" ++ (host ++ path)))

  host_text :
      (n : ℕ)
      → take n (host ++ path) ≡ host
      → substr (url_text protocol host path) (length protocol + 3) n ≡ some host
  host_text n e =
      substr-inside (length protocol + 3) n (omega (arith, long))
      ∙ ap some (ap (take n) drop-protocol ∙ e)

  protocol_inside : (length protocol == npos) ≡ false
  protocol_inside = ground (arith, long, small)

  -- Behind the search for the host's end.
  split_url-parts :
      (after : ℕ)
      → find_from (url_text protocol host path) (codes "/") (length protocol + 3) ≡ after
      → take (after - (length protocol + 3)) (host ++ path) ≡ host
      → (if not (after == npos)
          then or_threw (substr (url_text protocol host path) after npos)
          else built (codes "/"))
        ≡ built (path_or_slash path)
      → split_url (url_text protocol host path) ≡ built (url protocol host (path_or_slash path))
  split_url-parts after e cut rest =
      rw
        (
          has_protocol,
          protocol_inside,
          protocol_text,
          e,
          host_text (after - (length protocol + 3)) cut,
          rest,
        )
        refl

  drop-path : drop (length protocol + 3 + length host) (url_text protocol host path) ≡ path
  drop-path =
      let front : length (protocol ++ (codes "://" ++ host)) ≡ length protocol + 3 + length host =
        omega (arith, length-append protocol (codes "://" ++ host)) in
      let whole : (protocol ++ (codes "://" ++ host)) ++ path ≡ url_text protocol host path =
        append_assoc protocol (codes "://" ++ host) path in
      subst (λ k. drop k (url_text protocol host path) ≡ path) front
        (ap (drop (length (protocol ++ (codes "://" ++ host)))) (sym whole)
          ∙ drop-append (protocol ++ (codes "://" ++ host)) path)

  path_text :
      substr (url_text protocol host path) (length protocol + 3 + length host) npos ≡ some path
  path_text =
      substr-inside (length protocol + 3 + length host) npos (omega (arith, long))
      ∙ ap some (ap (take npos) drop-path ∙ take_all npos path (omega (arith, long, small)))

  host_fits : length host ≤ npos - (length protocol + 3)
  host_fits = omega (arith, long, small)

split_url-text :
    (protocol host path : Bytes)
    → All (λ c. (b':' == c) ≡ false) protocol
    → All (λ c. (b'/' == c) ≡ false) host
    → UrlPath path
    → length (url_text protocol host path) < npos
    → split_url (url_text protocol host path) ≡ built (url protocol host (path_or_slash path))
split_url-text protocol host _ no_colon no_slash no_path small =
    split_url-parts protocol host [] no_colon no_slash small npos
      (ap (find_at (length protocol + 3) (codes "/"))
          (drop-protocol protocol host [] no_colon no_slash small ∙ append-nil host)
        ∙ find_at-byte_npos (length protocol + 3) b'/' host no_slash)
      (rw (append-nil host) (
        take_all (npos - (length protocol + 3)) host
          (host_fits protocol host [] no_colon no_slash small)))
      refl
split_url-text protocol host _ no_colon no_slash (a_path p) small =
    split_url-parts protocol host (b'/' ∷ p) no_colon no_slash small
      (length protocol + 3 + length host)
      (ap (find_at (length protocol + 3) (codes "/"))
          (drop-protocol protocol host (b'/' ∷ p) no_colon no_slash small)
        ∙ find_at-byte (length protocol + 3) b'/' host p no_slash)
      (take-host protocol host (b'/' ∷ p) no_colon no_slash small _ (omega arith))
      (let inside : (length protocol + 3 + length host == npos) ≡ false =
          ground (arith, long protocol host (b'/' ∷ p) no_colon no_slash small, small) in
        rw (inside, path_text protocol host (b'/' ∷ p) no_colon no_slash small) refl)

-- `parse_url` of a protocol without a colon, "://", a host without a slash, and a path that is
-- empty or begins with a slash, with any number of slashes behind it: the three parts, with "/" for
-- the empty path; the text in front of those slashes ends in another byte.
pub parse_url-url :
    (protocol host path front : Bytes) (last n : ℕ)
    → All (λ c. (b':' == c) ≡ false) protocol
    → All (λ c. (b'/' == c) ≡ false) host
    → UrlPath path
    → length (url_text protocol host path) < npos
    → url_text protocol host path ≡ front ++ last ∷ []
    → (last == b'/') ≡ false
    → parse_url (with_slashes n (url_text protocol host path))
      ≡ built (url protocol host (path_or_slash path))
unfolding parse_url
parse_url-url protocol host path front last n no_colon no_slash is_path small ends e =
    let whole = url_text protocol host path in
    let removed : remove_end_slash (suc (length (with_slashes n whole))) (with_slashes n whole)
        ≡ built whole =
      subst
        (λ t. remove_end_slash (suc (length (with_slashes n whole))) (with_slashes n t) ≡ built t)
        (sym ends)
        (remove_end_slash-with_slashes n (suc (length (with_slashes n whole))) front last e
          (omega (arith, length-with_slashes n whole))) in
    ap (λ b. b >>= split_url) removed
    ∙ split_url-text protocol host path no_colon no_slash is_path small
