-- ===== src/Proxy.antt =====
-- src/proxy_handler.cc: `issue_outside_request` and `ProxyHandler::handle_request`. The network is
-- a parameter: what `response` holds behind the exchange with a host, its exceptions caught.
pub mod Redirects
pub mod Requests
pub mod Locations
use https_server.Prelude.{
  ℕ, zero, suc, ◌/◌, not, [], ◌∷◌, length, take, Bool, true, false, ◌||◌, ◌&&◌, Option, none, some,
  ◌==◌, if◌then◌else◌, Bytes, codes, equal,
}
use https_server.Handlers.{Built, built, threw, undefined, Url, parse_url}
use https_server.Files.{content_type}
use https_server.Http.{Request, Response, new_response, get_field, set_field}
use https_server.StdMap.{lookup, insert}
use https_server.StdString.{npos, find, find_at, substr_from}

-- What the response holds behind the exchange with a host, by host, port and target; and the codes
-- for which Boost.Beast has a member of `http::status`: for each other one `result()` is
-- `status::unknown`, which is of no class.
pub record Network : Type 0 where
  pub respond : Bytes → Bytes → Bytes → Response
  pub has_status : ℕ → Bool

abbrev pub is_known_port : Bytes → Bool
is_known_port port = equal port (codes "80") || equal port (codes "443")

-- Ports other than 80 and 443 leave the response as it was made.
abbrev pub exchange : Network → Bytes → Bytes → Bytes → Response
exchange network host port target =
    if is_known_port port then network.respond host port target else new_response

-- `http::to_status_class(response.result()) == http::status_class::redirection`.
abbrev pub is_redirection : Network → Response → Bool
is_redirection network r = network.has_status r.result && (r.result / 100 == 3)

abbrev pub is_http : Url → Bool
is_http u = equal u.protocol (codes "http") || equal u.protocol (codes "https")

abbrev pub port_of_protocol : Url → Bytes
port_of_protocol u = if equal u.protocol (codes "https") then codes "443" else codes "80"

abbrev pub location_of : Response → Bytes
location_of r = get_field r (codes "Location")

-- What a call comes to; `none` where the fuel is used up.
abbrev pub Issued : Type 0
Issued = Option (Built Response)

-- The ladder on the protocol, with the call for the next host.
abbrev pub redirect_to : (Bytes → Bytes → Bytes → Issued) → Response → Url → Bool → Issued
redirect_to issue r u true = issue u.host (port_of_protocol u) u.path
redirect_to issue r u false = some (built r)

abbrev pub redirect : (Bytes → Bytes → Bytes → Issued) → Response → Built Url → Issued
redirect issue r (built u) = redirect_to issue r u (is_http u)
redirect issue r threw = some threw
redirect issue r undefined = some undefined

-- The code behind the exchange, by whether the response is a redirection.
abbrev pub follow : (Bytes → Bytes → Bytes → Issued) → Response → Bool → Issued
follow issue r true = redirect issue r (parse_url (location_of r))
follow issue r false = some (built r)

-- `issue_outside_request`, which calls itself once for each redirection.
pub issue_outside_request : ℕ → Network → Bytes → Bytes → Bytes → Issued
unfolding equal
issue_outside_request zero network host port target = none
issue_outside_request (suc fuel) network host port target =
    let r = exchange network host port target in
    follow (issue_outside_request fuel network) r (is_redirection network r)

-- `content_type.substr(0, content_type_loc)`, where a ";" is found in it.
abbrev pub cut_type : Bytes → ℕ → Response → Response
cut_type kind content_type_loc response =
    if not (content_type_loc == npos)
    then set_field content_type (take content_type_loc kind) response
    else response

unfoldable pub cut_content_type : Response → Response
unfolding find_at lookup insert
cut_content_type response =
    let kind = get_field response content_type in cut_type kind (find kind (codes ";")) response

abbrev pub slash_if_empty : Bytes → Bytes
slash_if_empty [] = codes "/"
slash_if_empty (c ∷ target) = c ∷ target

-- The code behind the cut of the prefix; `substr` throws where the target is shorter.
abbrev pub cut_response : Issued → Issued
cut_response none = none
cut_response (some (built response)) = some (built (cut_content_type response))
cut_response (some threw) = some threw
cut_response (some undefined) = some undefined

abbrev pub issue_behind : (Bytes → Issued) → Option Bytes → Issued
issue_behind issue none = some threw
issue_behind issue (some target) = cut_response (issue (slash_if_empty target))

-- `ProxyHandler::handle_request` of a handler with this prefix, host and port.
unfoldable pub handle_proxy_request : ℕ → Network → Bytes → Bytes → Bytes → Request → Issued
unfolding issue_outside_request cut_content_type
handle_proxy_request fuel network prefix host port request =
    issue_behind (issue_outside_request fuel network host port)
      (substr_from request.target (length prefix))
