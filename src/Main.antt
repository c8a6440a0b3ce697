-- ===== src/Main.antt =====
-- src/server_main.cc, with the parts of the constructors of src/server.cc that can fail: from the
-- arguments to the two servers that run.
pub mod Settled
pub mod Starts
pub mod Running
pub mod Failures
pub mod Routing
pub mod Unrouted
pub mod Delivering
pub mod Proxying
pub mod Astray
pub mod Statistics
pub mod Answering
pub mod Defined
pub mod Unset
use https_server.Prelude.{ℕ, Bool, true, false, List, [], ◌∷◌, Option, none, some, Bytes, codes}
use https_server.Config.{Config, nil}
use https_server.Dispatcher.{Dispatcher, init_handlers}
use https_server.Handlers.{Built, built, threw, undefined}
use https_server.Parser.{Parsed, returned, faulted, exhausted, parse}
use https_server.Server.{Server, new_server}
use https_server.Session.{Metrics}
use https_server.Settings.{PortResult, found, not_found, KeyPaths, get_port_number, get_key_path}

-- What the program finds on its host: the files that open, the ports that an acceptor can be bound
-- to where others are bound, `filename()` of Boost.Filesystem, and whether OpenSSL takes the
-- certificate chain and the key of these names, and "dhparam4096.pem".
pub record Host : Type 0 where
  pub read_config : Bytes → Option Bytes
  pub can_bind : List ℕ → ℕ → Bool
  pub filename : Bytes → Bytes
  pub loads_keys : Bytes → Bytes → Bool

-- Why `main` does not come to run the servers: it returns 1, catches an exception and returns 0, or
-- has undefined behaviour.
pub data Stop : Type 0 where
  bad_usage bad_config bad_port exception is_undefined : Stop

abbrev pub exit_code : Stop → Option ℕ
exit_code bad_usage = some 1
exit_code bad_config = some 1
exit_code bad_port = some 1
exit_code exception = some 0
exit_code is_undefined = none

pub data Run (A : Type 0) : Type 0 where
  going : A → Run A
  stopped : Stop → Run A

infixl 5 ◌>>=◌ ◌>>◌
abbrev pub ◌>>=◌ : {A B : Type 0} → Run A → (A → Run B) → Run B
going a >>= f = f a
stopped why >>= f = stopped why

abbrev pub ◌>>◌ : {B : Type 0} → Run (Unit {0}) → Run B → Run B
m >> k = m >>= λ _. k

abbrev pub or_throw : Bool → Run (Unit {0})
or_throw true = going tt
or_throw false = stopped exception

-- `argc != 2`; the list leaves the program's name out.
abbrev pub the_argument : List Bytes → Run Bytes
the_argument (name ∷ []) = going name
the_argument _ = stopped bad_usage

-- `Parse` on a file's name.
abbrev pub parse_opened : Config → Option Bytes → Parsed
parse_opened config none = returned false config
parse_opened config (some text) = parse text config

abbrev pub parse_file : Host → Bytes → Config → Parsed
parse_file host file_name config = parse_opened config (host.read_config file_name)

abbrev pub parsed_config : Parsed → Run Config
parsed_config (returned true config) = going config
parsed_config (returned false config) = stopped bad_config
parsed_config faulted = stopped is_undefined
parsed_config exhausted = stopped is_undefined

abbrev pub http_port : PortResult → Run ℕ
http_port (found port_number) = going port_number
http_port not_found = stopped bad_port
http_port PortResult.threw = stopped exception
http_port PortResult.undefined = stopped is_undefined

-- `none` is an exception of `GetKeyPath`; the Boolean that it returns makes no difference.
abbrev pub key_paths : Option (Bool × KeyPaths) → Run KeyPaths
key_paths none = stopped exception
key_paths (some (is_found, paths)) = going paths

abbrev pub no_paths : KeyPaths
no_paths = record { ssl_private_path = []; ssl_public_path = [] }

-- `GetPortNumber(…, "HTTPS", …) && GetKeyPath(…)`: `none` is a variable that is not set.
abbrev pub ssl_port : Config → PortResult → Run (Option ℕ)
ssl_port config (found port_number) = do
  paths ← key_paths (get_key_path no_paths config)
  going (some port_number)
ssl_port config not_found = going none
ssl_port config PortResult.threw = stopped exception
ssl_port config PortResult.undefined = stopped is_undefined

-- A variable that is passed on without a value.
abbrev pub initialised : Option ℕ → Run ℕ
initialised none = stopped is_undefined
initialised (some port_number) = going port_number

abbrev pub new_dispatcher : Built Dispatcher → Run Dispatcher
new_dispatcher (built d) = going d
new_dispatcher threw = stopped exception
new_dispatcher undefined = stopped is_undefined

-- The two servers and the static members that their sessions share.
pub record Program : Type 0 where
  pub metrics : Metrics
  pub http_server : Server
  pub https_server : Server

-- The first half of `main`: the config, the port, and the port of `https`, if it is set.
pub settings : Host → List Bytes → Run (Config × ℕ × Option ℕ)
settings host arguments = do
  file_name ← the_argument arguments
  config ← parsed_config (parse_file host file_name nil)
  port_number ← http_port (get_port_number config (codes "HTTP"))
  ssl_port_number ← ssl_port config (get_port_number config (codes "HTTPS"))
  going (config, port_number, ssl_port_number)

-- The constructors of the two servers, and the program then.
pub start_servers : Host → Config → ℕ → Option ℕ → Run (ℕ × Program)
start_servers host config port_number ssl_port_number = do
  or_throw (host.can_bind [] port_number)
  dispatcher ← new_dispatcher (init_handlers [] config)
  ssl_number ← initialised ssl_port_number
  or_throw (host.can_bind (port_number ∷ []) ssl_number)
  paths ← key_paths (get_key_path no_paths config)
  or_throw
      (host.loads_keys (host.filename paths.ssl_public_path) (host.filename paths.ssl_private_path))
  ssl_dispatcher ← new_dispatcher (init_handlers dispatcher.handler_info config)
  going (
    ssl_number,
    record {
      metrics = record { request_count = 0; handled_requests = [] };
      http_server = new_server (codes "http") dispatcher;
      https_server = new_server (codes "https") ssl_dispatcher;
    },
  )

-- `main` up to the point where both services run, with the ports.
unfoldable pub main : Host → List Bytes → Run (ℕ × ℕ × Program)
unfolding settings start_servers
main host arguments = do
  (config, port_number, ssl_port_number) ← settings host arguments
  (ssl_number, program) ← start_servers host config port_number ssl_port_number
  going (port_number, ssl_number, program)
