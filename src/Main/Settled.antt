-- ===== src/Main/Settled.antt =====
-- What the first half of `main` of src/server_main.cc has found, where it comes to its end.
use https_server.Prelude.{
  ℕ, ◌≡◌, refl, subst, sym, ap, ◌∙◌, true, false, [], ◌∷◌, Option, some, Bytes, codes, Option-cases,
  inl, inr,
}
use https_server.Config.{Config, nil}
use https_server.Main.{
  Host, Run, going, stopped, bad_config, ◌>>=◌, parsed_config, parse_file, parse_opened, http_port,
  ssl_port, settings,
}
use https_server.Parser.{Parsed, returned, faulted, exhausted, parse}
use https_server.Settings.{get_port_number}

-- A chain that is going went through its first step.
pub step {ℓ} :
    {A B : Type 0} {C : Type ℓ} (m : Run A) (f : A → Run B) {b : B}
    → (m >>= f) ≡ going b
    → ((a : A) → m ≡ going a → f a ≡ going b → C)
    → C
step (going a) f h k = k a refl h
step (stopped why) f h k = cc

parsed_config-going :
    (host : Host) (name : Bytes) (config : Config)
    → parsed_config (parse_file host name nil) ≡ going config
    → (text : Bytes) × (host.read_config name ≡ some text) × (parse text nil ≡ returned true config)
parsed_config-going host name config h = elim (Option-cases (host.read_config name)) [
  | inl e ↦
      let closed : parsed_config (parse_file host name nil) ≡ stopped bad_config =
        ap (λ o. parsed_config (parse_opened nil o)) e in
      cc
  | inr (text, e) ↦
      let same : parsed_config (parse_file host name nil) ≡ parsed_config (parse text nil) =
        ap (λ o. parsed_config (parse_opened nil o)) e in
      (text, e, returned-true (parse text nil) (sym same ∙ h))
]
  where
    returned-true : (r : Parsed) → parsed_config r ≡ going config → r ≡ returned true config
    returned-true (returned true c) h = cc
    returned-true (returned false c) h = cc
    returned-true faulted h = cc
    returned-true exhausted h = cc

-- The config of the file, and the results of the searches for the two ports in it.
abbrev pub IsSettled : Host → Bytes → Config × ℕ × Option ℕ → Type 0
IsSettled host file_name (config, port, o) =
    (text : Bytes) × (host.read_config file_name ≡ some text)
    × (parse text nil ≡ returned true config)
    × (http_port (get_port_number config (codes "HTTP")) ≡ going port)
    × (ssl_port config (get_port_number config (codes "HTTPS")) ≡ going o)

pub settings-IsSettled :
    (host : Host) (file_name : Bytes) (settled : Config × ℕ × Option ℕ)
    → settings host (file_name ∷ []) ≡ going settled
    → IsSettled host file_name settled
unfolding settings
settings-IsSettled host file_name settled h =
    step (parsed_config (parse_file host file_name nil)) _ h (λ c e1 h1.
      step (http_port (get_port_number c (codes "HTTP"))) _ h1 (λ port e2 h2.
        step (ssl_port c (get_port_number c (codes "HTTPS"))) _ h2 (λ o e3 h3.
          let same : (c, port, o) ≡ settled = cc in
          let (text, is_read, parsed) = parsed_config-going host file_name c e1 in
          subst (IsSettled host file_name) same (text, is_read, parsed, e2, e3))))
