-- ===== src/Tests/FileRequests.antt =====
-- The files of src/file_handler.cc on a file system with one file.
use https_server.Prelude.{◌≡◌, refl, [], Option, none, some, Bytes, codes, equal, if◌then◌else◌}
use https_server.Files.{file_path, mime_type}
use https_server.Http.{Request}

abbrev pub read_file : Bytes → Option Bytes
unfolding equal
read_file path = if equal path (codes "/bar/a.txt") then some (codes "hello") else none

abbrev pub get_file : Request
get_file = record {
  method = codes "GET";
  target = codes "/static/a.txt";
  version = 11;
  fields = [];
}

-- A handler at "/a/b" looks for the rest behind "/a" all the same.
two_components : file_path (codes "/r") (codes "/a/b/x.txt") ≡ some (codes "/r/b/x.txt")
unfolding file_path
two_components = refl

first_extension : mime_type (codes "/static/a.html.zip") ≡ codes "text/html"
unfolding mime_type
first_extension = refl
