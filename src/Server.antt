-- ===== src/Server.antt =====
-- src/server.cc and include/server.h: the accept loop and the sessions that it starts. Each
-- accepted session gets a thread, which calls `start` and then runs completed operations; the steps
-- of all threads are taken one at a time.
pub mod Serving
use https_server.Prelude.{
  Bool, not, List, [], ◌∷◌, ◌++◌, Option, none, some, ◌≡◌, if◌then◌else◌, Bytes, codes, equal,
}
use https_server.Dispatcher.{Dispatcher}
use https_server.Handlers.{Handler}
use https_server.Http.{Request, Beast, Reply}
use https_server.Session.{
  Version, http, https, Session, Metrics, continues, new_session, start, Step,
}

pub record Server : Type 0 where
  pub version : Bytes
  pub dispatcher : Dispatcher
  -- the session that the pending `async_accept` is for
  pub accepting : Option Session
  -- accepted sessions whose thread has not called `start` yet
  pub starting : List Session
  pub sessions : List Session

-- The sessions that a server of this version makes; none for any other text.
abbrev pub session_version : Bytes → Option Version
session_version version =
    if equal version (codes "https")
    then some https
    else if equal version (codes "http")
    then some http
    else none

-- `start_accept(new_session)`, and nothing for a version that is not supported.
abbrev pub accept_session : Server → Option Version → Server
accept_session srv none = srv
accept_session srv (some v) = record srv { accepting = some (new_session v) }

unfoldable pub start_accept : Server → Server
unfolding equal
start_accept srv = accept_session srv (session_version srv.version)

-- A server that has not begun to accept.
abbrev pub idle : Bytes → Dispatcher → Server
idle version dispatcher = record {
  version = version;
  dispatcher = dispatcher;
  accepting = none;
  starting = [];
  sessions = [];
}

-- The constructors, behind the binding of the port and the loading of keys.
unfoldable pub new_server : Bytes → Dispatcher → Server
unfolding start_accept
new_server version dispatcher = start_accept (idle version dispatcher)

-- `new_session->sslsocket()` is a call through a null pointer on a session for `http`.
abbrev pub accept_ssl : Server → Session → Version → Option Server
accept_ssl srv s http = none
accept_ssl srv s https = some (record srv { accepting = some s })

-- `start_accept(new_session)` on a session that the caller made.
abbrev pub accept_given : Server → Session → Option Version → Option Server
accept_given srv s none = some srv
accept_given srv s (some http) = some (record srv { accepting = some s })
accept_given srv s (some https) = accept_ssl srv s s.version

-- The constructors that take a session; `none` is undefined behaviour. The session keeps the
-- dispatcher that its caller gave it, while the steps below are those of sessions with the
-- server's.
unfoldable pub new_server_on : Session → Bytes → Dispatcher → Option Server
unfolding equal
new_server_on s version dispatcher =
    accept_given (idle version dispatcher) s (session_version version)

-- `handle_accept`: a thread for the session, or `delete new_session`, and then the next accept.
unfoldable pub handle_accept : Server → Session → Bool → Server
unfolding start_accept
handle_accept srv s error = start_accept (
    if not error
    then record srv { accepting = none; starting = s ∷ srv.starting }
    else record srv { accepting = none })

-- A thread begins: `start_session`.
abbrev pub start_session : Server → Session → List Session → Server
start_session srv s others = record srv { starting = others; sessions = start s ∷ srv.sessions }

-- The constructor that takes a session and no version.
abbrev pub new_http_server_on : Session → Dispatcher → Option Server
new_http_server_on s dispatcher = new_server_on s (codes "http") dispatcher

module _ (beast : Beast) (handle_request : Handler → Metrics → Request → Reply) where
  -- A step of the server or of one of its sessions.
  pub data ServerStep (m : Metrics) (srv : Server) : Metrics → Server → Type 0 where
    accepted :
        (s : Session) (error : Bool)
        → srv.accepting ≡ some s
        → ServerStep m srv m (handle_accept srv s error)
    begun :
        (before after : List Session) (s : Session)
        → srv.starting ≡ before ++ s ∷ after
        → ServerStep m srv m (start_session srv s (before ++ after))
    served :
        (before after : List Session) (s s' : Session) {m' : Metrics}
        → srv.sessions ≡ before ++ s ∷ after
        → Step beast srv.dispatcher handle_request m s (continues m' s')
        → ServerStep m srv m' (record srv { sessions = before ++ s' ∷ after })
