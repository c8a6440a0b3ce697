-- ===== src/Http.antt =====
-- The messages of Boost.Beast, as the program sees them, and the library's part as an interface.
use https_server.Prelude.{ℕ, List, [], Option, none, some, Bytes, ◌≡◌}
use https_server.StdMap.{lookup, insert}

-- `http::request<http::string_body>`: `method_string()`, `target()`, `version()` and the fields.
pub record Request : Type 0 where
  pub method : Bytes
  pub target : Bytes
  pub version : ℕ
  pub fields : List (Bytes × Bytes)

-- `http::response<http::string_body>`: `result_int()`, the fields and the body. The library
-- takes names of fields that differ in case alone for one, and here they are one name.
pub record Response : Type 0 where
  pub result : ℕ
  pub fields : List (Bytes × Bytes)
  pub body : Bytes

-- A new response has the status 200 and no fields.
abbrev pub new_response : Response
new_response = record { result = 200; fields = []; body = [] }

-- `response.set(name, value)`.
abbrev pub set_field : Bytes → Bytes → Response → Response
set_field name value r = record r { fields = insert name value r.fields }

-- `response[name]`, empty where there is no such field.
abbrev pub field_value : Option Bytes → Bytes
field_value none = []
field_value (some value) = value

abbrev pub get_field : Response → Bytes → Bytes
get_field r name = field_value (lookup name r.fields)

-- What the program asks of Boost.Beast: `request_parser::put` on the bytes of a request, and
-- `prepare_payload`, which sets fields alone.
pub record Beast : Type 0 where
  pub parse_request : Bytes → Option Request
  pub prepare_payload : Response → Response
  pub same_result : (r : Response) → (prepare_payload r).result ≡ r.result
  pub same_body : (r : Response) → (prepare_payload r).body ≡ r.body

-- What becomes of a call of a handler's `handle_request`: it returns, throws, never returns, or
-- does what is undefined.
pub data Reply : Type 0 where
  replied : Response → Reply
  threw hung undefined : Reply
