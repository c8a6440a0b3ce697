-- ===== src/Tests/Answers.antt =====
-- What the program answers on its host, in a world with one request.
use https_server.Prelude.{
  ◌≡◌, ◌≢◌, refl, subst, sym, ap, ◌∙◌, true, false, [], ◌∷◌, some, Bytes, codes, equal,
}
use https_server.Config.{Config, line, block, nil, cons}
use https_server.Dispatcher.Excluded.{WithoutEchoOrProxy}
use https_server.Http.{Request}
use https_server.Main.Answering.{Sends, Running-Sends}
use https_server.Main.Defined.{main_defined}
use https_server.Main.{main, stopped, is_undefined}
use https_server.Dispatcher.Parsed.{HasBlocks}
use https_server.Settings.{get_port_number, not_found}
use https_server.Main.Running.{Running, launched, moved, on_http}
use https_server.Parser.{parse, returned}
use https_server.Server.{new_server, accepted}
use https_server.Session.{new_session, http, send_response}
use https_server.StdString.{c_string}
use https_server.Tests.Programs.{host, config_text, connected, program, launched_main}
use https_server.Tests.Sessions.{complete, request}
use https_server.Tests.Worlds.{world, answer, request_IsCell}
use https_server.Tests.{dispatcher}

abbrev pub config : Config
config = cons (line (codes "listen" ∷ codes "80" ∷ [])) (
    cons (line (codes "ssl-port" ∷ codes "443" ∷ [])) (
      cons
        (block (codes "location" ∷ codes "/static/" ∷ codes "FileHandler" ∷ [])
          (cons (line (codes "root" ∷ codes "/bar" ∷ [])) nil))
        (cons (line (codes "private_key_root" ∷ codes "/keys/k.pem" ∷ []))
          (cons (line (codes "public_key_root" ∷ codes "/keys/c.pem" ∷ [])) nil))))

config_parsed : parse config_text nil ≡ returned true config
unfolding parse
config_parsed = refl

returned_config : {c d : Config} → returned true c ≡ returned true d → c ≡ d
returned_config e = cc

pub config_only :
    (text : Bytes) (c : Config)
    → host.read_config (codes "server_config") ≡ some text
    → parse text nil ≡ returned true c
    → config ≡ c
unfolding equal
config_only text c is_read parsed =
    let same : config_text ≡ text = cc in
    returned_config (sym config_parsed ∙ (ap (λ t. parse t nil) same ∙ parsed))

config-WithoutEchoOrProxy :
    (text : Bytes) (c : Config)
    → host.read_config (codes "server_config") ≡ some text
    → parse text nil ≡ returned true c
    → WithoutEchoOrProxy c
unfolding equal
config-WithoutEchoOrProxy text c is_read parsed =
    subst WithoutEchoOrProxy (config_only text c is_read parsed)
      (tt, (tt, ((λ e. (refl, refl)), (tt, (tt, tt)))))

request_slash :
    (req : Request)
    → world.beast.parse_request (c_string complete.buffer_data) ≡ some req
    → (rest : Bytes) × (req.target ≡ b'/' ∷ rest)
unfolding c_string equal
request_slash req e = let same : request ≡ req = cc in ([], sym (ap (λ r. r.target) same))

connected-Running : Running world.beast answer host (codes "server_config") connected
unfolding new_server
connected-Running =
    moved (launched 80 443 program launched_main) (on_http (accepted (new_session http) false refl))

Running-Sends_example :
    Sends
      (send_response world.beast connected.http_server.dispatcher answer connected.metrics complete)
    × Sends (
        send_response world.beast connected.https_server.dispatcher answer connected.metrics
          complete)
Running-Sends_example =
    Running-Sends world 1 dispatcher.handler_info host (codes "server_config") connected complete
      request_IsCell config-WithoutEchoOrProxy connected-Running request_slash refl

config_ssl_port : get_port_number config (codes "HTTPS") ≢ not_found
unfolding get_port_number
config_ssl_port = λ e. cc

config-HasBlocks :
    (text : Bytes) (c : Config)
    → host.read_config (codes "server_config") ≡ some text
    → parse text nil ≡ returned true c
    → HasBlocks c × (get_port_number c (codes "HTTPS") ≢ not_found)
unfolding equal
config-HasBlocks text c is_read parsed =
    subst (λ c. HasBlocks c × (get_port_number c (codes "HTTPS") ≢ not_found))
      (config_only text c is_read parsed)
      ((tt, (tt, ((λ e k. absurd (cc)), (tt, (tt, tt))))), config_ssl_port)

main_defined_example : main host (codes "server_config" ∷ []) ≢ stopped is_undefined
main_defined_example = main_defined host (codes "server_config") config-HasBlocks
