-- ===== src/Settings.antt =====
-- src/config_parser.cc, `NginxConfigParser::GetPortNumber` and `GetKeyPath`, with the two path
-- members of the parser. Both search the text of each statement.
pub mod Values
pub mod Port
pub mod Keys
pub mod Results
pub mod Shadowed
use https_server.Prelude.{
  ℕ, ◌+◌, ◌-◌, ◌*◌, ◌^◌, ◌%◌, Bool, true, false, not, ◌&&◌, ◌||◌, [], ◌∷◌, Option, none, some, ltb,
  leb, ◌==◌, if◌then◌else◌, Bytes, codes, equal, length,
}
use https_server.Config.{Config, nil, cons, statement_to_string}
use https_server.StdString.{npos, find, find_at, find_first_of, find_first_not_of, index_at, substr}

-- How a call ends. `port_number` is a `short`, given here by its value modulo 2^16, which is how
-- `tcp::endpoint` takes it.
pub data PortResult : Type 0 where
  -- `return true`, with `port_number` set
  found : ℕ → PortResult
  -- `return false`
  not_found : PortResult
  -- an exception leaves the function
  threw : PortResult
  -- `port_pos` is read before it is set
  undefined : PortResult

-- What is searched for; a text that is no port type leaves `port_pos` unset.
abbrev pub keyword : Bytes → Option Bytes
keyword port_type =
    if equal port_type (codes "HTTPS")
    then some (codes "ssl-port")
    else if equal port_type (codes "HTTP")
    then some (codes "listen")
    else none

abbrev pub is_digit : ℕ → Bool
is_digit c = leb b'0' c && leb c b'9'

-- The value of a run of digits.
unfoldable pub decimal : ℕ → Bytes → ℕ
decimal n [] = n
decimal n (c ∷ s) = decimal (n * 10 + (c - b'0')) s

-- `stoi` on a text of digits alone; `none` is `std::out_of_range`, or `std::invalid_argument` for
-- the empty text.
abbrev pub stoi : Bytes → Option ℕ
stoi [] = none
stoi (c ∷ s) = let n = decimal 0 (c ∷ s) in if ltb (2 ^ 31 - 1) n then none else some n

-- From `int int_port = stoi(port)` on. An int that is not negative is a number here.
abbrev pub checked_port : Option ℕ → PortResult
checked_port none = threw
checked_port (some int_port) = if ltb 65535 int_port then not_found else found (int_port % 2 ^ 16)

-- From the check of the digits on.
abbrev pub port_of : Bytes → PortResult
port_of port =
    if not (find_first_not_of port (codes "0123456789") 0 == npos)
    then not_found
    else checked_port (stoi port)

-- The code behind a keyword that ends at `port_pos`.
pub port_at : Bytes → ℕ → PortResult
port_at port_statement port_pos =
    let port_start_pos = find_first_not_of port_statement (codes " \t\n\r") port_pos in
    let port_end_pos = find_first_of port_statement (codes " \t;") port_start_pos in
    if port_end_pos == port_start_pos
    then not_found
    else elim (substr port_statement port_start_pos (port_end_pos - port_start_pos)) [
      | none ↦ threw
      | some port ↦ port_of port
    ]

-- The body of the loop; `none` goes on to the next statement.
pub port_in : Bytes → Bytes → Option PortResult
port_in word port_statement =
    let port_pos = find port_statement word in
    if port_pos == npos then none else some (port_at port_statement (port_pos + length word))

-- The loop over `statements_`.
pub port_loop : Bytes → Config → PortResult
port_loop word nil = not_found
port_loop word (cons s rest) = elim (port_in word (statement_to_string 0 s)) [
  | none ↦ port_loop word rest
  | some result ↦ result
]

unfoldable pub get_port_number : Config → Bytes → PortResult
unfolding port_loop port_in port_at find_at index_at equal decimal statement_to_string
get_port_number nil port_type = not_found
get_port_number (cons s rest) port_type = elim (keyword port_type) [
  | none ↦ undefined
  | some word ↦ port_loop word (cons s rest)
]

-- `ssl_private_path` and `ssl_public_path`.
pub record KeyPaths : Type 0 where
  pub ssl_private_path : Bytes
  pub ssl_public_path : Bytes

-- The value behind a key word: what is assigned where the word is found, `old` where it is not.
-- `none` is an exception from `substr`.
abbrev pub path_in : Bytes → Bytes → Bytes → Option Bytes
path_in word key_statement old =
    let key_pos = find key_statement word in
    let start_pos = find_first_not_of key_statement (codes " \t\n\r") (key_pos + length word) in
    let end_pos = find_first_of key_statement (codes " \t;") start_pos in
    if key_pos == npos then some old else substr key_statement start_pos (end_pos - start_pos)

infixl 5 ◌>>=◌
abbrev pub ◌>>=◌ {ℓ κ} : {A : Type ℓ} {B : Type κ} → Option A → (A → Option B) → Option B
none >>= f = none
some a >>= f = f a

-- The body of the loop.
abbrev pub key_in : KeyPaths → Bytes → Option KeyPaths
key_in paths key_statement = do
  private ← path_in (codes "private_key_root") key_statement paths.ssl_private_path
  public ← path_in (codes "public_key_root") key_statement paths.ssl_public_path
  some (record { ssl_private_path = private; ssl_public_path = public })

pub key_loop : KeyPaths → Config → Option KeyPaths
key_loop paths nil = some paths
key_loop paths (cons s rest) = do
  paths' ← key_in paths (statement_to_string 0 s)
  key_loop paths' rest

abbrev pub is_empty : Bytes → Bool
is_empty [] = true
is_empty (c ∷ s) = false

-- The Boolean that is returned and the parser's members; `none` is an exception.
unfoldable pub get_key_path : KeyPaths → Config → Option (Bool × KeyPaths)
unfolding key_loop find_at index_at statement_to_string
get_key_path paths config = do
  p ← key_loop paths config
  some (not (is_empty p.ssl_public_path || is_empty p.ssl_private_path), p)
