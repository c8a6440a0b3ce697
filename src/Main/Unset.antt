-- ===== src/Main/Unset.antt =====
-- When `main` of src/server_main.cc passes on a port that is not set.
use https_server.Prelude.{
  ◌≡◌, ◌≢◌, ◌↔◌, ◌⊎◌, ℕ, refl, sym, subst, ap, ◌∙◌, true, [], ◌∷◌, some, Bytes, codes, Bool-cases,
  inl, inr, equal,
}
use https_server.Config.{Config, nil}
use https_server.Dispatcher.Parsed.{HasBlocks, parse-init_handlers}
use https_server.Main.Defined.{main_defined}
use https_server.Main.Failures.{main_unset}
use https_server.Main.{Host, stopped, bad_port, exception, is_undefined, main}
use https_server.Parser.{parse, returned}
use https_server.Settings.Results.{get_port_number-ne-undefined}
use https_server.Settings.{PortResult, found, not_found, threw, undefined, get_port_number}

not_found-cases : (r : PortResult) → (r ≡ not_found) ⊎ (r ≢ not_found)
not_found-cases (found n) = inr (λ e. cc)
not_found-cases not_found = inl refl
not_found-cases threw = inr (λ e. cc)
not_found-cases undefined = inr (λ e. cc)

module _ (host : Host) (file_name text : Bytes) (config : Config)
    (is_read : host.read_config file_name ≡ some text)
    (parsed : parse text nil ≡ returned true config) (blocks : HasBlocks config) where
  -- A file has one config.
  only_config :
      (t : Bytes) (c : Config)
      → host.read_config file_name ≡ some t
      → parse t nil ≡ returned true c
      → config ≡ c
  only_config t c r p =
      let same : text ≡ t = cc in
      let returns : returned true config ≡ returned true c =
        sym parsed ∙ (ap (λ t. parse t nil) same ∙ p) in
      cc

  has_ssl_port :
      main host (file_name ∷ []) ≡ stopped is_undefined
      → get_port_number config (codes "HTTPS") ≡ not_found
  has_ssl_port h = elim (not_found-cases (get_port_number config (codes "HTTPS"))) [
    | inl e ↦ e
    | inr ne ↦ absurd (
        main_defined host file_name
          (λ t c r p.
            subst (λ c. HasBlocks c × (get_port_number c (codes "HTTPS") ≢ not_found))
              (only_config t c r p) (blocks, ne))
          h)
  ]

  -- By the result of the search for the port of HTTP.
  has_port :
      (r : PortResult)
      → get_port_number config (codes "HTTP") ≡ r
      → get_port_number config (codes "HTTPS") ≡ not_found
      → main host (file_name ∷ []) ≡ stopped is_undefined
      → (port : ℕ) × (get_port_number config (codes "HTTP") ≡ found port)
        × (host.can_bind [] port ≡ true)
  unfolding main equal
  has_port (found port) e ssl h = elim (Bool-cases (host.can_bind [] port)) [
    | inl b ↦ (port, e, b)
    | inr b ↦
        let fails : main host (file_name ∷ []) ≡ stopped exception =
          rw (is_read, parsed, e, ssl, b) refl in
        cc
  ]
  has_port not_found e ssl h =
      let fails : main host (file_name ∷ []) ≡ stopped bad_port = rw (is_read, parsed, e) refl in cc
  has_port threw e ssl h =
      let fails : main host (file_name ∷ []) ≡ stopped exception = rw (is_read, parsed, e) refl in
      cc
  has_port undefined e ssl h =
      absurd (get_port_number-ne-undefined config (codes "HTTP") (codes "listen") refl e)

  -- On a config file that opens and parses, in which each statement that names a location and a
  -- handler has a block, and each `host` statement in the block of a proxy has a URL of `http` or
  -- `https`, `main` does what is undefined exactly where a port for HTTP is found and can be bound,
  -- and none is found for HTTPS: it passes the variable `ssl_port_number` on, which is not set.
  pub main_undefined_iff : (main host (file_name ∷ []) ≡ stopped is_undefined) ↔ (
      (port : ℕ) × (get_port_number config (codes "HTTP") ≡ found port)
      × (host.can_bind [] port ≡ true)
      × (get_port_number config (codes "HTTPS") ≡ not_found))
  main_undefined_iff = (
    (λ h.
        let ssl = has_ssl_port h in
        let (port, e, b) = has_port (get_port_number config (codes "HTTP")) refl ssl h in
        (port, e, b, ssl)),
    (λ (port, e, b, ssl).
        let (d, made) = parse-init_handlers text config [] parsed blocks in
        main_unset host file_name text config port d is_read parsed e ssl b made),
  )
