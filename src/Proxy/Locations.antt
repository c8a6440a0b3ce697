-- ===== src/Proxy/Locations.antt =====
-- A redirection that names no URL, on the way of `issue_outside_request` of src/proxy_handler.cc.
use https_server.Prelude.{
  ℕ, zero, suc, ◌<◌, ◌≡◌, ap, ◌∙◌, true, ◌++◌, some, arith, Bytes, length, All,
}
use https_server.Handlers.Slashes.{IsSlash, parse_url_undefined_iff}
use https_server.Handlers.{Url, undefined}
use https_server.Http.{Request, Response}
use https_server.Proxy.Redirects.{RedirectsTo, follow-RedirectsTo}
use https_server.Proxy.Requests.{substr_from-append}
use https_server.Proxy.{
  Network, exchange, is_redirection, port_of_protocol, location_of, redirect, follow,
  slash_if_empty, cut_response, issue_behind, issue_outside_request, handle_proxy_request, Issued,
}
use https_server.StdString.{substr_from}

-- So many redirections lead to one without a "Location", or with one of slashes alone.
pub data LeadsAstray (network : Network) : Bytes → Bytes → Bytes → ℕ → Type 0 where
  astray :
      (host port target : Bytes)
      → is_redirection network (exchange network host port target) ≡ true
      → All IsSlash (location_of (exchange network host port target))
      → LeadsAstray network host port target 0
  goes_on :
      (host port target : Bytes) (u : Url) {n : ℕ}
      → RedirectsTo network (exchange network host port target) u
      → LeadsAstray network u.host (port_of_protocol u) u.path n
      → LeadsAstray network host port target (suc n)

follow-astray :
    (network : Network) (issue : Bytes → Bytes → Bytes → Issued) (r : Response)
    → is_redirection network r ≡ true
    → All IsSlash (location_of r)
    → follow issue r (is_redirection network r) ≡ some undefined
follow-astray network issue r e slashes =
    ap (follow issue r) e
    ∙ ap (redirect issue r) ((parse_url_undefined_iff (location_of r)).1 slashes)

issue_outside_request-LeadsAstray :
    (network : Network) (fuel : ℕ) (host port target : Bytes) (n : ℕ)
    → n < fuel
    → LeadsAstray network host port target n
    → issue_outside_request fuel network host port target ≡ some undefined
unfolding issue_outside_request
issue_outside_request-LeadsAstray network zero host port target n h l = absurd (omega (arith, h))
issue_outside_request-LeadsAstray network (suc fuel) _ _ _ _ h (astray host port target e slashes) =
    follow-astray network (issue_outside_request fuel network) (exchange network host port target) e
      slashes
issue_outside_request-LeadsAstray network (suc fuel) _ _ _ _ h
      (goes_on host port target u {n = n} step l) =
    follow-RedirectsTo network (issue_outside_request fuel network)
      (exchange network host port target) u step
    ∙ issue_outside_request-LeadsAstray network fuel u.host (port_of_protocol u) u.path n
        (omega arith) l

pub handle_proxy_request-LeadsAstray :
    (fuel : ℕ) (network : Network) (prefix host port rest : Bytes) (request : Request) (n : ℕ)
    → request.target ≡ prefix ++ rest
    → n < fuel
    → LeadsAstray network host port (slash_if_empty rest) n
    → handle_proxy_request fuel network prefix host port request ≡ some undefined
unfolding handle_proxy_request
handle_proxy_request-LeadsAstray fuel network prefix host port rest request n same fits leads =
    let issue = issue_outside_request fuel network host port in
    let target : substr_from request.target (length prefix) ≡ some rest =
      ap (λ t. substr_from t (length prefix)) same ∙ substr_from-append prefix rest in
    ap (issue_behind issue) target
    ∙ ap cut_response (
        issue_outside_request-LeadsAstray network fuel host port (slash_if_empty rest) n fits leads)
