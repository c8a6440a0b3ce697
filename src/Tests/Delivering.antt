-- ===== src/Tests/Delivering.antt =====
-- A file that the program of the tests sends, by its config.
use https_server.Prelude.{
  ◌≡◌, refl, subst, false, [], ◌∷◌, some, none, codes, equal, equal_iff, Bool-cases, inl, inr,
  arith,
}
use https_server.Dispatcher.Assigned.{assigned, init_handlers-assigned}
use https_server.Dispatcher.Routed.{LeadsTo}
use https_server.Dispatcher.{trim_slashes, init_handlers}
use https_server.Handlers.{built, file_handler}
use https_server.Main.Delivering.{Delivers, Running-Delivers}
use https_server.Main.Running.{Running, launched, moved, on_http}
use https_server.Requests.{handle_request}
use https_server.Server.{new_server, accepted}
use https_server.Session.{new_session, http, https}
use https_server.StdMap.{lookup}
use https_server.Tests.Answers.{config, config_only}
use https_server.Tests.FileRequests.{get_file}
use https_server.Tests.OneLocation.{IsOnly, IsOnly-LeadsTo}
use https_server.Tests.Programs.{host, connected, program, launched_main}
use https_server.Tests.Worlds.{file_world, file_text_whole, file_text_waits, file_text_ends}
use https_server.Tests.{dispatcher}

config_built : init_handlers [] config ≡ built dispatcher
unfolding init_handlers
config_built = refl

static_assigned :
    assigned (codes "/static") config ≡ built (some (file_handler (codes "/static") (codes "/bar")))
unfolding lookup equal
static_assigned = init_handlers-assigned [] config dispatcher (codes "/static") config_built refl

-- No other path has a location.
pub static-IsOnly : IsOnly config (codes "/static")
unfolding assigned trim_slashes equal
static-IsOnly key h has = elim (Bool-cases (equal (codes "/static") key)) [
  | inl e ↦ (equal_iff (codes "/static") key).0 e
  | inr e ↦ let nothing : built none ≡ built (some h) = rw e at has in absurd (cc)
]

config-LeadsTo :
    LeadsTo config
      (trim_slashes (codes "/static/a.txt"))
      (file_handler (codes "/static") (codes "/bar"))
unfolding trim_slashes equal
config-LeadsTo =
    IsOnly-LeadsTo config (codes "/static") (codes "/static/a.txt")
      (file_handler (codes "/static") (codes "/bar")) static_assigned static-IsOnly refl
      (omega arith) refl

file-Running :
    Running file_world.beast (handle_request file_world 1 []) host (codes "server_config") connected
unfolding new_server
file-Running =
    moved (launched 80 443 program launched_main) (on_http (accepted (new_session http) false refl))

Running-Delivers_example :
    Delivers file_world 1 [] connected.http_server.dispatcher http connected.metrics get_file
      (codes "/bar/a.txt")
    × Delivers file_world 1 [] connected.https_server.dispatcher https connected.metrics get_file
        (codes "/bar/a.txt")
unfolding equal
Running-Delivers_example =
    Running-Delivers file_world 1 [] host (codes "server_config") connected
      (codes "GET /static/a.txt HTTP/1.1\r\n\r") b'\n' (codes "GET /static/a.t")
      (codes "xt HTTP/1.1\r\n\r\n" ∷ []) get_file (codes "/static") (codes "/bar") (codes "static")
      (codes ".txt") b'a' file-Running
      (λ text c is_read parsed.
        subst
          (λ c.
            LeadsTo c (trim_slashes (codes "/static/a.txt"))
              (file_handler (codes "/static") (codes "/bar")))
          (config_only text c is_read parsed) config-LeadsTo)
      refl ((λ e. cc), tt) file_text_whole (omega arith) file_text_waits file_text_ends refl refl
      refl (ground arith) (omega arith)
