-- ===== src/Tests/Unrouted.antt =====
-- A request for a target that the config of the tests has no location for.
use https_server.Prelude.{◌≡◌, refl, sym, subst, true, false, [], some, codes, equal, equal_iff}
use https_server.Dispatcher.Search.{IsPrefixOf}
use https_server.Dispatcher.{trim_slashes}
use https_server.Http.{Request}
use https_server.Main.Running.{Running, launched, moved, on_http}
use https_server.Main.Unrouted.{HasNoLocation, Answers404, Running-Answers404}
use https_server.Requests.{World, handle_request}
use https_server.Server.{new_server, accepted}
use https_server.Session.{new_session, http, send_response}
use https_server.Tests.Answers.{config, config_only}
use https_server.Tests.Delivering.{static-IsOnly}
use https_server.Tests.Programs.{host, connected, program, launched_main}
use https_server.Tests.Worlds.{world}

abbrev lost : Request
lost = record { method = codes "GET"; target = codes "/other"; version = 11; fields = [] }

-- A world in which every text is that request.
abbrev lost_world : World
lost_world = record world { beast = record world.beast { parse_request = λ text. some lost } }

lost-HasNoLocation : HasNoLocation config (codes "/other")
unfolding equal trim_slashes
lost-HasNoLocation key h has other p =
    let q = subst (IsPrefixOf (codes "/other")) (sym (static-IsOnly key h has)) p in
    let same : equal (codes "/other") (codes "/static") ≡ true =
      (equal_iff (codes "/other") (codes "/static")).1 q in
    absurd (cc)

lost-Running :
    Running lost_world.beast (handle_request lost_world 1 []) host (codes "server_config") connected
unfolding new_server
lost-Running =
    moved (launched 80 443 program launched_main) (on_http (accepted (new_session http) false refl))

Running-Answers404_example :
    Answers404 lost connected.metrics (new_session http) (
      send_response lost_world.beast connected.http_server.dispatcher
        (handle_request lost_world 1 [])
        connected.metrics
        (new_session http))
    × Answers404 lost connected.metrics (new_session http) (
        send_response lost_world.beast connected.https_server.dispatcher
          (handle_request lost_world 1 [])
          connected.metrics
          (new_session http))
Running-Answers404_example =
    Running-Answers404 lost_world 1 [] host (codes "server_config") connected (new_session http)
      lost (codes "other") lost-Running
      (λ text c is_read parsed.
        subst (λ c. HasNoLocation c (codes "/other")) (config_only text c is_read parsed)
          lost-HasNoLocation)
      refl refl refl
