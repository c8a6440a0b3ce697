-- ===== src/Files.antt =====
-- src/file_handler.cc: `FileHandler::handle_request` and `mime_type`. The file system is a
-- parameter: what an `ifstream` on a path reads, and `none` where it does not open.
pub mod Served
pub mod Types
use https_server.Prelude.{
  ℕ, ◌+◌, ◌%◌, not, ◌||◌, [], Option, none, some, ◌==◌, if◌then◌else◌, Bytes, codes, equal, length,
  drop, ◌++◌,
}
use https_server.Http.{Request, Response, Beast, new_response, set_field}
use https_server.Status.{to_string}
use https_server.StdMap.{insert}
use https_server.StdString.{npos, find, find_from, find_at}

abbrev has : Bytes → Bytes → Bytes → Bytes → Bytes
has target extension kind otherwise =
    if not (find target extension == npos) then kind else otherwise

unfoldable pub mime_type : Bytes → Bytes
unfolding find_at
mime_type target =
    if find target (codes ".") == npos
    then []
    else has target (codes ".html") (codes "text/html") (
        has target (codes ".txt") (codes "text/plain") (
          has target (codes ".jpg") (codes "image/jpeg") (
            has target (codes ".jpeg") (codes "image/jpeg")
              (has target (codes ".zip") (codes "application/zip") (codes "unsupported")))))

-- `request.target().find("/", 1)`.
abbrev pub file_start_pos : Bytes → ℕ
file_start_pos target = find_from target (codes "/") 1

-- `size() - 1`, which wraps around for the empty target.
abbrev pub last_pos : Bytes → ℕ
last_pos target = (length target + npos) % (npos + 1)

abbrev pub path_at : Bytes → Bytes → ℕ → ℕ → Option Bytes
path_at root target pos last =
    if pos == last || pos == npos then none else some (root ++ drop pos target)

-- The path of the file that is opened; `none` is "Need file path".
unfoldable pub file_path : Bytes → Bytes → Option Bytes
unfolding find_at
file_path root target = path_at root target (file_start_pos target) (last_pos target)

abbrev pub content_type : Bytes
content_type = codes "Content-Type"

abbrev pub not_found : Beast → Response
not_found beast = beast.prepare_payload (
    set_field content_type (codes "text/html")
      (record new_response { result = 404; body = codes "<h1>404 Not Found</h1>" }))

abbrev pub send_file : Beast → Bytes → Option Bytes → Response
send_file beast target none = not_found beast
send_file beast target (some payload) =
    record (set_field content_type (mime_type target)
      (set_field (codes "Content-Length") (to_string (length payload)) new_response)) {
        body = payload;
      }

abbrev pub send_path : Beast → (Bytes → Option Bytes) → Bytes → Option Bytes → Response
send_path beast read_file target none = not_found beast
send_path beast read_file target (some path) = send_file beast target (read_file path)

-- `FileHandler::handle_request` of a handler with this root.
unfoldable pub handle_file_request : Beast → (Bytes → Option Bytes) → Bytes → Request → Response
unfolding file_path mime_type insert to_string equal
handle_file_request beast read_file root request =
    if equal request.method (codes "GET")
    then send_path beast read_file request.target (file_path root request.target)
    else new_response
