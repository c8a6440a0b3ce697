-- ===== src/Files/Served.antt =====
-- Which file `FileHandler::handle_request` of src/file_handler.cc serves.
use https_server.Prelude.{
  ℕ, suc, ◌+◌, ◌<◌, ◌≡◌, refl, subst, equal_iff, sym, ap, ◌∙◌, true, false, ◌∷◌, ◌++◌, Option, none,
  some, arith, Bytes, codes, length, length-append, drop-append, All, ◌==◌, equal,
}
use https_server.Files.{
  file_path, path_at, file_start_pos, last_pos, handle_file_request, content_type, send_path,
  send_file,
}
use https_server.Files.Types.{HasType, mime_type-HasType}
use https_server.Http.{Request, Response, Beast, get_field}
use https_server.StdMap.{lookup, insert}
use https_server.StdString.Laws.{find_at-byte}
use https_server.StdString.{npos}

last_pos_lem : (target : Bytes) (n : ℕ) → length target ≡ n + 1 → n < npos → last_pos target ≡ n
last_pos_lem target n e small = omega (arith, e)

-- The path of the file is the root and what stands behind the first component of the target.
pub file_path_lem :
    (root name rest : Bytes) (c : ℕ)
    → All (λ d. (b'/' == d) ≡ false) name
    → length (b'/' ∷ (name ++ b'/' ∷ c ∷ rest)) < npos
    → file_path root (b'/' ∷ (name ++ b'/' ∷ c ∷ rest)) ≡ some (root ++ b'/' ∷ c ∷ rest)
unfolding file_path
file_path_lem root name rest c h small =
    let target = b'/' ∷ (name ++ b'/' ∷ c ∷ rest) in
    let slash : file_start_pos target ≡ suc (length name) =
      find_at-byte 1 b'/' name (c ∷ rest) h ∙ omega arith in
    let long : length target ≡ (length name + (length rest + 2)) + 1 =
      omega (arith, length-append name (b'/' ∷ c ∷ rest)) in
    let end : last_pos target ≡ length name + (length rest + 2) =
      last_pos_lem target (length name + (length rest + 2)) long (omega (arith, small, long)) in
    let not_last : (suc (length name) == length name + (length rest + 2)) ≡ false = ground arith in
    let inside : (suc (length name) == npos) ≡ false = ground (arith, long, small) in
    ap (λ pos. path_at root target pos (last_pos target)) slash
    ∙ (ap (path_at root target (suc (length name))) end
        ∙ rw (not_last, inside)
            (ap (λ file. some (root ++ file)) (drop-append name (b'/' ∷ c ∷ rest))))

-- What a response to a request for a file of the file system is.
abbrev pub IsServed : Bytes → Option Bytes → Response → Type 0
IsServed target none r = r.result ≡ 404
IsServed target (some payload) r =
    (r.result ≡ 200) × ((r.body ≡ payload) × HasType target (get_field r content_type))

send_file-IsServed :
    (beast : Beast) (target : Bytes) (file : Option Bytes)
    → length target < npos
    → IsServed target file (send_file beast target file)
unfolding insert lookup
send_file-IsServed beast target none small = beast.same_result _
send_file-IsServed beast target (some payload) small =
    (refl, (refl, mime_type-HasType target small))

-- A GET request for a target of a component, which has no slash, and a rest that is not empty is
-- answered with the file at the root and that rest, with its bytes, the type of the first known
-- extension that stands in the target at any place, and the status 200, or with the status 404
-- where it does not open; the component takes no part in it, whatever the location of the handler
-- is.
pub handle_file_request-IsServed :
    (beast : Beast) (read_file : Bytes → Option Bytes) (root name rest : Bytes) (c : ℕ)
    (request : Request)
    → request.method ≡ codes "GET"
    → request.target ≡ b'/' ∷ (name ++ b'/' ∷ c ∷ rest)
    → All (λ d. (b'/' == d) ≡ false) name
    → length (b'/' ∷ (name ++ b'/' ∷ c ∷ rest)) < npos
    → IsServed request.target
        (read_file (root ++ b'/' ∷ c ∷ rest))
        (handle_file_request beast read_file root request)
unfolding handle_file_request
handle_file_request-IsServed beast read_file root name rest c request get same h small =
    let path : file_path root request.target ≡ some (root ++ b'/' ∷ c ∷ rest) =
      ap (file_path root) same ∙ file_path_lem root name rest c h small in
    let is_get : equal request.method (codes "GET") ≡ true = (equal_iff _ _).1 get in
    let file = read_file (root ++ b'/' ∷ c ∷ rest) in
    let sent : handle_file_request beast read_file root request
        ≡ send_file beast request.target file =
      rw (is_get) (ap (send_path beast read_file request.target) path) in
    subst (IsServed request.target file) (sym sent)
      (send_file-IsServed beast request.target file (subst (λ t. length t < npos) (sym same) small))
