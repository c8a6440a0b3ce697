-- ===== src/Tests/Networks.antt =====
-- Redirections of src/proxy_handler.cc between two hosts.
use https_server.Prelude.{◌≡◌, refl, [], ◌∷◌, none, codes, equal, Bytes}
use https_server.Handlers.{Url, url, parse_url}
use https_server.Http.{Response}
use https_server.Proxy.Redirects.{RedirectsTo, issue_outside_request-none}
use https_server.Proxy.{Network, issue_outside_request}
use https_server.StdMap.{lookup}
use https_server.Tests.Worlds.{has_status}

abbrev pub next_url : Url
next_url = url (codes "http") (codes "b.com") (codes "/x")

abbrev pub moved : Response
moved = record { result = 301; fields = (codes "Location", codes "http://b.com/x") ∷ []; body = [] }

pub moved-RedirectsTo :
    (respond : Bytes → Bytes → Bytes → Response)
    → RedirectsTo (record { respond = respond; has_status = has_status }) moved next_url
unfolding parse_url lookup equal
moved-RedirectsTo respond = record { is_redirected = refl; parsed = refl; is_followed = refl }

-- Every host moves to the second one.
abbrev ring : Network
ring = record { respond = λ host port target. moved; has_status = has_status }

issue_outside_request-none_example :
    issue_outside_request 5 ring (codes "a.com") (codes "80") (codes "/") ≡ none
unfolding equal
issue_outside_request-none_example =
    issue_outside_request-none ring 5 (codes "a.com") (codes "80") (codes "/") refl
      (λ h p t. (next_url, moved-RedirectsTo (λ host port target. moved)))
