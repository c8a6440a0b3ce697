-- ===== src/Proxy/Redirects.antt =====
-- The chain of redirections that `issue_outside_request` of src/proxy_handler.cc follows.
use https_server.Prelude.{
  Bool-cases, inl, inr, if◌then◌else◌, equal, ℕ, zero, suc, ◌<◌, ◌≡◌, refl, ap, ◌∙◌, true, false,
  none, some, arith, Bytes, codes,
}
use https_server.Handlers.{built, Url, parse_url}
use https_server.Http.{Response, new_response}
use https_server.Proxy.{
  Network, is_known_port, exchange, is_redirection, is_http, port_of_protocol, location_of,
  redirect_to, redirect, follow, issue_outside_request, Issued,
}

module _ (network : Network) where
  -- A response redirects to a URL.
  pub record RedirectsTo (r : Response) (u : Url) : Type 0 where
    pub is_redirected : is_redirection network r ≡ true
    pub parsed : parse_url (location_of r) ≡ built u
    pub is_followed : is_http u ≡ true

  -- So many redirections lead to a response that does not redirect.
  pub data Leads : Bytes → Bytes → Bytes → ℕ → Response → Type 0 where
    arrives :
        (host port target : Bytes)
        → is_redirection network (exchange network host port target) ≡ false
        → Leads host port target 0 (exchange network host port target)
    goes_on :
        (host port target : Bytes) (u : Url) {n : ℕ} {r : Response}
        → RedirectsTo (exchange network host port target) u
        → Leads u.host (port_of_protocol u) u.path n r
        → Leads host port target (suc n) r

  pub follow-RedirectsTo :
      (issue : Bytes → Bytes → Bytes → Issued) (r : Response) (u : Url)
      → RedirectsTo r u
      → follow issue r (is_redirection network r) ≡ issue u.host (port_of_protocol u) u.path
  follow-RedirectsTo issue r u h =
      ap (follow issue r) h.is_redirected
      ∙ (ap (redirect issue r) h.parsed ∙ ap (redirect_to issue r u) h.is_followed)

  -- Where a number of redirections lead to a response that is none, and the calls may be nested one
  -- deeper than that, this is the response that is returned.
  pub issue_outside_request-Leads :
      (fuel : ℕ) (host port target : Bytes) (n : ℕ) (r : Response)
      → n < fuel
      → Leads host port target n r
      → issue_outside_request fuel network host port target ≡ some (built r)
  unfolding issue_outside_request
  issue_outside_request-Leads zero host port target n r h l = absurd (omega (arith, h))
  issue_outside_request-Leads (suc fuel) _ _ _ _ _ h (arrives host port target e) =
      ap (follow (issue_outside_request fuel network) (exchange network host port target)) e
  issue_outside_request-Leads (suc fuel) _ _ _ _ r h (goes_on host port target u {n = n} step l) =
      follow-RedirectsTo (issue_outside_request fuel network) (exchange network host port target) u
        step
      ∙ issue_outside_request-Leads fuel u.host (port_of_protocol u) u.path n r (omega arith) l

  port_of_protocol-known : (u : Url) → is_known_port (port_of_protocol u) ≡ true
  unfolding equal
  port_of_protocol-known u = elim (Bool-cases (equal u.protocol (codes "https"))) [
    | inl e ↦ ap (λ b. is_known_port (if b then codes "443" else codes "80")) e
    | inr e ↦ ap (λ b. is_known_port (if b then codes "443" else codes "80")) e
  ]

  exchange-network :
      (host port target : Bytes)
      → is_known_port port ≡ true
      → exchange network host port target ≡ network.respond host port target
  exchange-network host port target e =
      ap (λ b. if b then network.respond host port target else new_response) e

  -- Where the exchange with each host redirects to a URL that is followed, and the first port is 80
  -- or 443, no depth of calls is enough: the code does not return.
  pub issue_outside_request-none :
      (fuel : ℕ) (host port target : Bytes)
      → is_known_port port ≡ true
      → ((h p t : Bytes) → (u : Url) × RedirectsTo (network.respond h p t) u)
      → issue_outside_request fuel network host port target ≡ none
  unfolding issue_outside_request
  issue_outside_request-none zero host port target known all = refl
  issue_outside_request-none (suc fuel) host port target known all =
      let (u, step) = all host port target in
      let k = issue_outside_request fuel network in
      ap (λ r. follow k r (is_redirection network r)) (exchange-network host port target known)
      ∙ (follow-RedirectsTo k (network.respond host port target) u step
          ∙ issue_outside_request-none fuel u.host (port_of_protocol u) u.path
              (port_of_protocol-known u) all)
