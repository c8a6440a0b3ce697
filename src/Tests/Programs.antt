-- ===== src/Tests/Programs.antt =====
-- The program of src/server_main.cc on a host with one config file.
use https_server.Prelude.{
  ◌≡◌, ◌↔◌, ℕ, refl, arith, Bool, true, false, [], ◌∷◌, ◌++◌, Option, none, some, Bytes, codes,
  equal, if◌then◌else◌,
}
use https_server.Config.{Config, line, nil, cons, statement_to_string}
use https_server.Dispatcher.{init_handlers}
use https_server.Main.Failures.{IsTextOf, over_int, main-Fails}
use https_server.Main.Running.{Running, launched, moved, on_http, IsSound, Running-IsSound}
use https_server.Main.Routing.{FollowsFile, Running-FollowsFile}
use https_server.Main.Unset.{main_undefined_iff}
use https_server.Main.Starts.{Starts, main_iff}
use https_server.Main.{Host, Stop, stopped, is_undefined, exit_code, Program, going, main, no_paths}
use https_server.Parser.{parse, returned}
use https_server.Parser.Syntax.{parse-Symbols_iff}
use https_server.Settings.Port.{here}
use https_server.Server.{new_server, handle_accept, accepted}
use https_server.Session.{new_session, http}
use https_server.Settings.Keys.{Sets, at_end, other, private_line, public_line, get_key_path-Sets}
use https_server.Settings.{decimal, PortResult, KeyPaths, get_port_number, get_key_path}
use https_server.StdString.{find_at, starts_with}
use https_server.Tests.{dispatcher}
use https_server.Tests.Sessions.{beast, echo}

abbrev pub config_text : Bytes
config_text =
    codes "listen 80;\nssl-port 443;\nlocation /static/ FileHandler {\n root /bar;\n}\n"
    ++ codes "private_key_root /keys/k.pem;\npublic_key_root /keys/c.pem;\n"

-- No port of `https`.
abbrev pub unset_text : Bytes
unset_text = codes "listen 80;\n"

-- A port that no int holds.
abbrev pub large_text : Bytes
large_text = codes "listen 9999999999;\n"

abbrev pub read_config : Bytes → Option Bytes
unfolding equal
read_config name =
    if equal name (codes "server_config")
    then some config_text
    else if equal name (codes "unset")
    then some unset_text
    else if equal name (codes "large")
    then some large_text
    else none

abbrev pub host : Host
host = record {
  read_config = read_config;
  can_bind = λ others port. true;
  filename = λ path. path;
  loads_keys = λ public private. true;
}

abbrev pub program : Program
program = record {
  metrics = record { request_count = 0; handled_requests = [] };
  http_server = new_server (codes "http") dispatcher;
  https_server = new_server (codes "https") dispatcher;
}

pub launched_main : main host (codes "server_config" ∷ []) ≡ going (80, 443, program)
unfolding main read_config parse get_port_number get_key_path init_handlers
launched_main = refl

main_iff_example :
    (main host (codes "server_config" ∷ []) ≡ going (80, 443, program))
    ↔ Starts host (codes "server_config") 80 443 program
main_iff_example = main_iff host (codes "server_config") 80 443 program

-- The first connection has come.
abbrev pub connected : Program
connected = record program {
  http_server = handle_accept (new_server (codes "http") dispatcher) (new_session http) false;
}

connected-Running : Running beast echo host (codes "server_config") connected
unfolding new_server
connected-Running =
    moved (launched 80 443 program launched_main) (on_http (accepted (new_session http) false refl))

Running-IsSound_example : IsSound beast echo connected
Running-IsSound_example =
    Running-IsSound beast echo host (codes "server_config") connected connected-Running

Running-FollowsFile_example :
    FollowsFile host (codes "server_config") connected.http_server.dispatcher
    × FollowsFile host (codes "server_config") connected.https_server.dispatcher
Running-FollowsFile_example =
    Running-FollowsFile beast echo host (codes "server_config") connected connected-Running

large_text-IsTextOf :
    IsTextOf large_text (cons (line (codes "listen" ∷ codes "9999999999" ∷ [])) nil)
unfolding parse
large_text-IsTextOf = (parse-Symbols_iff large_text _).0 refl

main-Fails_example :
    (why : Stop) × (main host (codes "large" ∷ []) ≡ stopped why) × (exit_code why ≡ some 0)
unfolding read_config decimal
main-Fails_example = main-Fails host (codes "large") 0 (
    over_int large_text (cons (line (codes "listen" ∷ codes "9999999999" ∷ [])) nil) b'9'
      (codes "999999999") refl large_text-IsTextOf here (ground arith) (omega arith))

abbrev unset : Config
unset = cons (line (codes "listen" ∷ codes "80" ∷ [])) nil

unset_parsed : parse unset_text nil ≡ returned true unset
unfolding parse
unset_parsed = refl

unset_port : get_port_number unset (codes "HTTP") ≡ PortResult.found 80
unfolding get_port_number
unset_port = refl

unset_ssl_port : get_port_number unset (codes "HTTPS") ≡ PortResult.not_found
unfolding get_port_number
unset_ssl_port = refl

main_undefined_iff_example : (main host (codes "unset" ∷ []) ≡ stopped is_undefined) ↔ (
    (port : ℕ) × (get_port_number unset (codes "HTTP") ≡ PortResult.found port)
    × (host.can_bind [] port ≡ true)
    × (get_port_number unset (codes "HTTPS") ≡ PortResult.not_found))
unfolding read_config
main_undefined_iff_example =
    main_undefined_iff host (codes "unset") unset_text unset refl unset_parsed (tt, tt)

abbrev keys : Config
keys = cons (line (codes "listen" ∷ codes "80" ∷ [])) (
    cons (line (codes "private_key_root" ∷ codes "/k" ∷ []))
      (cons (line (codes "public_key_root" ∷ codes "/c" ∷ [])) nil))

abbrev key_files : KeyPaths
key_files = record { ssl_private_path = codes "/k"; ssl_public_path = codes "/c" }

keys-Sets : Sets no_paths keys key_files
unfolding find_at starts_with statement_to_string
keys-Sets = other no_paths key_files (line (codes "listen" ∷ codes "80" ∷ [])) _ refl refl (
    private_line no_paths key_files b'/' (codes "k") _
      ((λ e. cc), ((refl, refl), ((refl, refl), tt))) refl
      (public_line _ key_files b'/' (codes "c") nil ((λ e. cc), ((refl, refl), ((refl, refl), tt)))
        refl (at_end key_files)))

get_key_path-Sets_example :
    (is_found : Bool) × (get_key_path no_paths keys ≡ some (is_found, key_files))
    × ((is_found ≡ true)
        ↔ ((key_files.ssl_public_path ≡ [] → ⊥) × (key_files.ssl_private_path ≡ [] → ⊥)))
get_key_path-Sets_example = get_key_path-Sets no_paths key_files keys keys-Sets
