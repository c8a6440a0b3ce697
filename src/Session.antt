-- ===== src/Session.antt =====
-- src/session.cc and include/session.h. An operation of Boost.Asio is started by one handler and
-- its completion runs the next; `pending` is the operation that a session waits for. `data_` is
-- given by its leading bytes, the others are zero.
pub mod Lifecycle
pub mod Answers
pub mod Metering
pub mod Bounds
pub mod Reading
pub mod Liveness
pub mod Filled
pub mod Races
pub mod Counting
pub mod Text
pub mod Reassembly
pub mod Overrun
use https_server.Prelude.{
  ℕ, zero, suc, ◌+◌, ◌-◌, ◌≡◌, Bool, true, false, not, ◌||◌, List, [], ◌∷◌, ◌++◌, Option, none,
  some, ltb, ◌==◌, if◌then◌else◌, ◌≤◌, Bytes, codes, length, take, drop,
}
use https_server.Dispatcher.{Dispatcher, get_request_handler}
use https_server.Handlers.{Handler}
use https_server.Http.{
  Request, Response, Beast, new_response, Reply, replied, threw, hung, undefined,
}
use https_server.StdMap.{lookup, insert}
use https_server.StdString.{c_string, npos, find, find_at}

-- `version_`, which the two constructors set to "http" and "https".
pub data Version : Type 0 where
  http https : Version

-- An asynchronous operation; a read stores what it receives at an offset in `data_`.
pub data Operation : Type 0 where
  handshake : Operation
  read : ℕ → Operation
  write : Operation

pub record Session : Type 0 where
  pub version : Version
  pub buffer_data : Bytes
  pub response : Option Response
  pub pending : Option Operation
  pub is_open : Bool
  -- the socket has a remote endpoint
  pub has_peer : Bool
  -- `delete this` has run
  pub is_deleted : Bool

-- The static members.
pub record Metrics : Type 0 where
  pub request_count : ℕ
  pub handled_requests : List (Bytes × List ℕ)

-- A handler of the session returns; an exception leaves it, which ends the program; it never
-- returns; or it does what is undefined: a call through the null handler, a read that is stored
-- beyond the end of `data_`, or a text in `data_` that no zero byte ends.
pub data Outcome : Type 0 where
  continues : Metrics → Session → Outcome
  throws hangs faults : Outcome

abbrev pub max_length : ℕ
max_length = 1024000

abbrev pub new_session : Version → Session
new_session version = record {
  version = version;
  buffer_data = [];
  response = none;
  pending = none;
  is_open = true;
  has_peer = true;
  is_deleted = false;
}

-- `memset(data_, 0, …)`, and a read into the whole buffer.
abbrev pub read_first : Session → Session
read_first s = record s { buffer_data = []; pending = some (read 0) }

abbrev pub start_at : Version → Session → Session
start_at https s = record s { pending = some handshake }
start_at http s = read_first s

unfoldable pub start : Session → Session
start s = start_at s.version s

-- `delete this`.
abbrev pub delete_this : Session → Session
delete_this s = record s { pending = none; is_deleted = true }

-- Handlers take `true` for an error code that is set.
unfoldable pub handle_handshake : Session → Bool → Session
handle_handshake s error = if not error then read_first s else delete_this s

unfoldable pub end_of_request : Bytes → Bool
unfolding c_string find_at
end_of_request buffer =
    let request = c_string buffer in
    not (find request (codes "\r\n\r\n") == npos) || not (find request (codes "\n\n") == npos)

-- The next read goes behind the text, with leave to store `max_length` bytes there.
abbrev pub append_data : Session → Session
append_data s = record s { pending = some (read (length (c_string s.buffer_data))) }

-- `buffer_ = r`, and `http::async_write`.
abbrev pub write_response : Session → Response → Session
write_response s r = record s { response = some r; pending = some write }

-- `close()` of the socket; the session stays.
abbrev pub close_socket : Session → Session
close_socket s = record s { buffer_data = []; pending = none; is_open = false }

unfoldable pub handle_write : Session → Bool → Session
handle_write s error = if not error then close_socket s else delete_this s

-- The bytes of `data_` where a read stores what it received at an offset.
abbrev pub store : ℕ → Bytes → Bytes → Bytes
store offset received old = take offset old ++ (received ++ drop (offset + length received) old)

-- A store into `char data_[max_length]`; `none` is one that goes beyond its end, which is
-- undefined.
abbrev pub store_data : ℕ → Bytes → Bytes → Option Bytes
store_data offset received old =
    if ltb max_length (offset + length received) then none else some (store offset received old)

abbrev pub zeros : ℕ → Bytes
zeros zero = []
zeros (suc n) = 0 ∷ zeros n

-- `strncpy(data_, msg.data(), msg.size())`, which copies up to a zero byte and fills the rest with
-- zeros; `none` is a write beyond the end of `data_`.
unfoldable pub fill_data_with : Session → Bytes → Option Session
unfolding c_string
fill_data_with s msg =
    let text = c_string msg in
    let copied = text ++ zeros (length msg - length text) in
    if ltb max_length (length msg)
    then none
    else some (record s { buffer_data = store 0 copied s.buffer_data })

-- `get_data`, read as a text.
abbrev pub get_data : Session → Bytes
get_data s = c_string s.buffer_data

-- The bytes that a read stored.
abbrev pub or_empty : Option Bytes → Bytes
or_empty none = []
or_empty (some bytes) = bytes

abbrev pub codes_so_far : Option (List ℕ) → List ℕ
codes_so_far none = []
codes_so_far (some old) = old

-- `request_count++; handled_requests[uri].push_back(code);`
abbrev pub count_request : Bytes → ℕ → Metrics → Metrics
count_request uri code m = record {
  request_count = m.request_count + 1;
  handled_requests =
      insert uri (codes_so_far (lookup uri m.handled_requests) ++ code ∷ []) m.handled_requests;
}

-- `remote_endpoint()`, which the log line asks for, throws where the peer has gone.
abbrev pub write_logged : Metrics → Session → Response → Bool → Outcome
write_logged m s r true = continues m (write_response s r)
write_logged m s r false = throws

-- The part of `send_response` behind the call of `handle_request`.
abbrev pub send_reply : Metrics → Session → Request → Reply → Outcome
send_reply m s req (replied r) = write_logged (count_request req.target r.result m) s r s.has_peer
send_reply m s req threw = throws
send_reply m s req hung = hangs
send_reply m s req undefined = faults

-- Boost.Beast, the dispatcher, and the virtual `handle_request`, which may read the metrics.
module _ (beast : Beast) (dispatcher : Dispatcher)
    (handle_request : Handler → Metrics → Request → Reply) where
  abbrev pub bad_request : Response
  bad_request =
      beast.prepare_payload
        (record new_response { result = 400; body = codes "<h1>400 Bad Request</h1>" })

  -- The part of `send_response` behind the lookup of the handler.
  abbrev pub respond : Metrics → Session → Request → Option Handler → Outcome
  respond m s req none = faults
  respond m s req (some handler) = send_reply m s req (handle_request handler m req)

  abbrev pub send_parsed : Metrics → Session → Option Request → Outcome
  send_parsed m s none = continues m (write_response s bad_request)
  send_parsed m s (some req) = respond m s req (get_request_handler dispatcher req.target)

  unfoldable pub send_response : Metrics → Session → Outcome
  send_response m s = send_parsed m s (beast.parse_request (c_string s.buffer_data))

  unfoldable pub handle_read : Metrics → Session → Bool → Outcome
  handle_read m s true = continues m (delete_this s)
  handle_read m s false =
      if not (ltb (length (c_string s.buffer_data)) max_length)
      then faults
      else if not (end_of_request s.buffer_data)
      then continues m (append_data s)
      else send_response m s

  -- `handle_read` behind the store of what was received.
  abbrev pub read_stored : Metrics → Session → Option Bytes → Outcome
  read_stored m s none = faults
  read_stored m s (some stored) =
      handle_read m (record s { buffer_data = stored; pending = none }) false

  -- The completion of a read, for which Boost.Asio stores what it received in the buffer it was
  -- given, and calls `handle_read`; `none` for an error.
  unfoldable pub complete_read : Metrics → Session → ℕ → Option Bytes → Outcome
  complete_read m s offset none = handle_read m s true
  complete_read m s offset (some received) =
      read_stored m s (store_data offset received s.buffer_data)

  -- The completion of the pending operation. A read takes at most the size of the buffer it is
  -- given, which is `max_length` in each call.
  pub data Step (m : Metrics) (s : Session) : Outcome → Type 0 where
    handshaken :
        (error : Bool)
        → s.pending ≡ some handshake
        → Step m s (continues m (handle_handshake s error))
    received :
        (offset : ℕ) (bytes : Option Bytes) {o : Outcome}
        → s.pending ≡ some (read offset)
        → length (or_empty bytes) ≤ max_length
        → o ≡ complete_read m s offset bytes
        → Step m s o
    written :
        (error : Bool) → s.pending ≡ some write → Step m s (continues m (handle_write s error))
    -- the peer goes, and no handler runs
    peer_left : Step m s (continues m (record s { has_peer = false }))
