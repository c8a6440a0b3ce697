-- ===== src/Main/Failures.antt =====
-- How src/server_main.cc ends where it does not come to serve.
use https_server.Prelude.{
  ℕ, ◌-◌, ◌^◌, ◌<◌, ◌≤◌, ◌≡◌, ◌∙◌, refl, ap, Bool, true, false, [], ◌∷◌, none, some, Bytes, codes,
  All, ltb, arith, equal,
}
use https_server.Config.{Config, nil}
use https_server.Dispatcher.{Dispatcher, init_handlers}
use https_server.Handlers.{built}
use https_server.Main.{
  Host, stopped, Stop, bad_config, bad_port, exception, is_undefined, exit_code, main,
}
use https_server.Parser.Grammar.{IsWellFormed, config_symbols}
use https_server.Parser.Loop.{accepted, parse_total}
use https_server.Parser.Syntax.{Symbols, parse-Symbols_iff}
use https_server.Parser.{Parsed, returned, faulted, exhausted, parse}
use https_server.Settings.Port.{
  Announces, IsDigit, port_of_value, get_port_number-Announces, NeverHolds,
  get_port_number-NeverHolds,
}
use https_server.Settings.{PortResult, found, not_found, decimal, get_port_number}

-- The text is that of the config, by the grammar of its tokens.
abbrev pub IsTextOf : Bytes → Config → Type 0
IsTextOf text config = Symbols text (config_symbols config) × IsWellFormed config

-- How the program ends, by the file of the config: it does not open, it is the text of no config,
-- no statement of its config holds "listen", or the first one that does is a line of "listen" and
-- digits of a large value.
pub data Fails (host : Host) (file_name : Bytes) : ℕ → Type 0 where
  not_opened : host.read_config file_name ≡ none → Fails host file_name 1
  refused :
      (text : Bytes)
      → host.read_config file_name ≡ some text
      → ((config : Config) → IsTextOf text config → ⊥)
      → Fails host file_name 1
  without_port :
      (text : Bytes) (config : Config)
      → host.read_config file_name ≡ some text
      → IsTextOf text config
      → NeverHolds (codes "listen") config
      → Fails host file_name 1
  over_port :
      (text : Bytes) (config : Config) (c : ℕ) (d : Bytes)
      → host.read_config file_name ≡ some text
      → IsTextOf text config
      → Announces (codes "listen") (c ∷ d) config
      → All IsDigit (c ∷ d)
      → 65535 < decimal 0 (c ∷ d)
      → decimal 0 (c ∷ d) ≤ 2 ^ 31 - 1
      → Fails host file_name 1
  over_int :
      (text : Bytes) (config : Config) (c : ℕ) (d : Bytes)
      → host.read_config file_name ≡ some text
      → IsTextOf text config
      → Announces (codes "listen") (c ∷ d) config
      → All IsDigit (c ∷ d)
      → 2 ^ 31 - 1 < decimal 0 (c ∷ d)
      → Fails host file_name 0

accepted-true : (p : Parsed) (config : Config) → accepted p ≡ some config → p ≡ returned true config
accepted-true (returned true c) config e = cc
accepted-true (returned false c) config e = cc
accepted-true faulted config e = cc
accepted-true exhausted config e = cc

IsTextOf-parsed :
    (text : Bytes) (config : Config) → IsTextOf text config → parse text nil ≡ returned true config
IsTextOf-parsed text config h =
    accepted-true (parse text nil) config ((parse-Symbols_iff text config).1 h)

-- `Parse` on a text of no config.
refused-parsed :
    (text : Bytes)
    → ((config : Config) → IsTextOf text config → ⊥)
    → (config : Config) × (parse text nil ≡ returned false config)
refused-parsed text no_config = by_flag (parse_total text nil)
  where
    by_flag :
        (b : Bool) × (out : Config) × (parse text nil ≡ returned b out)
        → (config : Config) × (parse text nil ≡ returned false config)
    by_flag (true, out, e) = absurd (no_config out ((parse-Symbols_iff text out).0 (ap accepted e)))
    by_flag (false, out, e) = (out, e)

no_port :
    (config : Config)
    → NeverHolds (codes "listen") config
    → get_port_number config (codes "HTTP") ≡ not_found
unfolding equal
no_port config n = get_port_number-NeverHolds (codes "HTTP") (codes "listen") config refl n

module _ (c : ℕ) (d : Bytes) (config : Config) (a : Announces (codes "listen") (c ∷ d) config)
    (digits : All IsDigit (c ∷ d)) where
  announced : get_port_number config (codes "HTTP") ≡ port_of_value (decimal 0 (c ∷ d))
  unfolding equal
  announced = get_port_number-Announces (codes "HTTP") b'l' (codes "isten") c d refl a digits

  over_short :
      65535 < decimal 0 (c ∷ d)
      → decimal 0 (c ∷ d) ≤ 2 ^ 31 - 1
      → get_port_number config (codes "HTTP") ≡ not_found
  over_short large small =
      let n = decimal 0 (c ∷ d) in
      let fits : ltb (2 ^ 31 - 1) n ≡ false = ground arith in
      let over : ltb 65535 n ≡ true = ground arith in announced ∙ rw (fits, over) refl

  over_all :
      2 ^ 31 - 1 < decimal 0 (c ∷ d) → get_port_number config (codes "HTTP") ≡ PortResult.threw
  over_all large =
      let n = decimal 0 (c ∷ d) in
      let over : ltb (2 ^ 31 - 1) n ≡ true = ground arith in announced ∙ rw over refl

module _ (host : Host) (file_name : Bytes) where
  main-refused :
      (text : Bytes)
      → host.read_config file_name ≡ some text
      → (config : Config) × (parse text nil ≡ returned false config)
      → main host (file_name ∷ []) ≡ stopped bad_config
  unfolding main
  main-refused text e (config, p) = rw (e, p) refl

  main-without_port :
      (text : Bytes) (config : Config)
      → host.read_config file_name ≡ some text
      → parse text nil ≡ returned true config
      → get_port_number config (codes "HTTP") ≡ not_found
      → main host (file_name ∷ []) ≡ stopped bad_port
  unfolding main
  main-without_port text config e p n = rw (e, p, n) refl

  main-threw :
      (text : Bytes) (config : Config)
      → host.read_config file_name ≡ some text
      → parse text nil ≡ returned true config
      → get_port_number config (codes "HTTP") ≡ PortResult.threw
      → main host (file_name ∷ []) ≡ stopped exception
  unfolding main
  main-threw text config e p n = rw (e, p, n) refl

-- A config file that does not open, that is the text of no config, of whose config no statement
-- holds "listen", or whose first statement that does is a line of "listen" and digits of a value
-- above 65535 that an int holds, ends the program with the exit code 1; where the value is too
-- large for an int, it ends with the exit code 0, as if all were well.
pub main-Fails :
    (host : Host) (file_name : Bytes) (code : ℕ)
    → Fails host file_name code
    → (why : Stop) × (main host (file_name ∷ []) ≡ stopped why) × (exit_code why ≡ some code)
unfolding main
main-Fails host file_name _ (not_opened e) = (bad_config, rw e refl, refl)
main-Fails host file_name _ (refused text e no_config) =
    (bad_config, main-refused host file_name text e (refused-parsed text no_config), refl)
main-Fails host file_name _ (without_port text config e t n) = (
  bad_port,
  main-without_port host file_name text config e (IsTextOf-parsed text config t) (no_port config n),
  refl,
)
main-Fails host file_name _ (over_port text config c d e t a digits large small) = (
  bad_port,
  main-without_port host file_name text config e (IsTextOf-parsed text config t)
      (over_short c d config a digits large small),
  refl,
)
main-Fails host file_name _ (over_int text config c d e t a digits large) = (
  exception,
  main-threw host file_name text config e (IsTextOf-parsed text config t)
      (over_all c d config a digits large),
  refl,
)

-- A config with a port for HTTP and none for HTTPS, on a host where the port can be bound: `main`
-- passes the variable `ssl_port_number` on, which is not set.
pub main_unset :
    (host : Host) (file_name text : Bytes) (config : Config) (port : ℕ) (d : Dispatcher)
    → host.read_config file_name ≡ some text
    → parse text nil ≡ returned true config
    → get_port_number config (codes "HTTP") ≡ found port
    → get_port_number config (codes "HTTPS") ≡ not_found
    → host.can_bind [] port ≡ true
    → init_handlers [] config ≡ built d
    → main host (file_name ∷ []) ≡ stopped is_undefined
unfolding main
main_unset host file_name text config port d e p n s b made = rw (e, p, n, s, b, made) refl
