-- ===== src/Server/Serving.antt =====
-- The accept loop of src/server.cc never ends, and every session that it starts is in order.
use https_server.Prelude.{
  ◌≡◌, refl, sym, ap, subst, Bool, true, false, List, [], ◌∷◌, ◌++◌, none, some, Bytes, codes,
  equal, All, Option-cases, inl, inr,
}
use https_server.Dispatcher.{Dispatcher}
use https_server.Handlers.{Handler}
use https_server.Http.{Request, Beast, Reply}
use https_server.Server.{
  Server, session_version, accept_session, start_accept, new_server, new_server_on, handle_accept,
  ServerStep, accepted, begun, served,
}
use https_server.Session.Bounds.{IsBounded, Step-IsBounded, start-IsBounded}
use https_server.Session.Counting.{IsCounted, Step-IsCounted}
use https_server.Session.Lifecycle.{IsValid, Step-IsValid, start-IsValid}
use https_server.Session.{Version, http, https, Session, Metrics, continues, new_session, start}

-- What holds of a session that was started: its lifecycle, and its buffer.
abbrev pub IsSound : Session → Type 0
IsSound s = IsValid s × IsBounded s

-- A server of version `v` waits for the next connection, with a new session at hand; the sessions
-- that wait for their thread are new, and those that run are sound.
pub record IsServing (v : Version) (srv : Server) : Type 0 where
  pub supported : session_version srv.version ≡ some v
  pub waits : srv.accepting ≡ some (new_session v)
  pub fresh : All (λ s. s ≡ new_session v) srv.starting
  pub sound : All IsSound srv.sessions

start_accept_lem :
    (v : Version) (srv : Server)
    → session_version srv.version ≡ some v
    → start_accept srv ≡ record srv { accepting = some (new_session v) }
unfolding start_accept
start_accept_lem v srv e = ap (accept_session srv) e

start_accept-IsServing :
    (v : Version) (srv : Server)
    → session_version srv.version ≡ some v
    → All (λ s. s ≡ new_session v) srv.starting
    → All IsSound srv.sessions
    → IsServing v (start_accept srv)
start_accept-IsServing v srv e fresh sound =
    subst (IsServing v) (sym (start_accept_lem v srv e))
      (record { supported = e; waits = refl; fresh = fresh; sound = sound })

pub new_server-IsServing :
    (v : Version) (version : Bytes) (dispatcher : Dispatcher)
    → session_version version ≡ some v
    → IsServing v (new_server version dispatcher)
unfolding new_server
new_server-IsServing v version dispatcher e =
    let srv : Server = record {
      version = version;
      dispatcher = dispatcher;
      accepting = none;
      starting = [];
      sessions = [];
    } in
    start_accept-IsServing v srv e tt tt

handle_accept-IsServing :
    (v : Version) (srv : Server) (s : Session) (error : Bool)
    → srv.accepting ≡ some s
    → IsServing v srv
    → IsServing v (handle_accept srv s error)
unfolding handle_accept
handle_accept-IsServing v srv s true e h =
    start_accept-IsServing v (record srv { accepting = none }) h.supported h.fresh h.sound
handle_accept-IsServing v srv s false e h =
    let same : s ≡ new_session v = cc (h.waits, e) in
    start_accept-IsServing v (record srv { accepting = none; starting = s ∷ srv.starting })
      h.supported (same, h.fresh) h.sound

start_accept-dispatcher : (srv : Server) → (start_accept srv).dispatcher ≡ srv.dispatcher
unfolding start_accept
start_accept-dispatcher srv = elim (Option-cases (session_version srv.version)) [
  | inl e ↦ ap (λ v. (accept_session srv v).dispatcher) e
  | inr (v, e) ↦ ap (λ v. (accept_session srv v).dispatcher) e
]

pub new_server-dispatcher :
    (version : Bytes) (dispatcher : Dispatcher)
    → (new_server version dispatcher).dispatcher ≡ dispatcher
unfolding new_server
new_server-dispatcher version dispatcher = start_accept-dispatcher (record {
  version = version;
  dispatcher = dispatcher;
  accepting = none;
  starting = [];
  sessions = [];
})

module _ {ℓ κ} {A : Type ℓ} (P : A → Type κ) where
  All-middle :
      (before after : List A) (a : A) → All P (before ++ a ∷ after) → P a × All P (before ++ after)
  All-middle [] after a h = h
  All-middle (b ∷ before) after a (p, h) =
      let (q, rest) = All-middle before after a h in (q, (p, rest))

  All-put :
      (before after : List A) (a : A) → P a → All P (before ++ after) → All P (before ++ a ∷ after)
  All-put [] after a p h = (p, h)
  All-put (b ∷ before) after a p (q, h) = (q, All-put before after a p h)

module _ (beast : Beast) (handle_request : Handler → Metrics → Request → Reply) where
  -- Every step of the server, and of a session of it, keeps this.
  pub ServerStep-IsServing :
      (v : Version) (m m' : Metrics) (srv srv' : Server)
      → ServerStep beast handle_request m srv m' srv'
      → IsServing v srv
      → IsServing v srv'
  ServerStep-IsServing v m _ srv _ (accepted s error e) h =
      handle_accept-IsServing v srv s error e h
  ServerStep-IsServing v m _ srv _ (begun before after s e) h =
      let (same, fresh) =
        All-middle (λ s. s ≡ new_session v) before after s
          (subst (All (λ s. s ≡ new_session v)) e h.fresh) in
      let sound : IsSound (start s) =
        subst (λ s. IsSound (start s)) (sym same)
          (start-IsValid v, start-IsBounded beast srv.dispatcher handle_request v) in
      record { supported = h.supported; waits = h.waits; fresh = fresh; sound = (sound, h.sound) }
  ServerStep-IsServing v m m' srv _ (served before after s s' e step) h =
      let (old, others) = All-middle IsSound before after s (subst (All IsSound) e h.sound) in
      let valid =
        Step-IsValid beast srv.dispatcher handle_request m s (continues m' s') old.0 step in
      let bounded =
        Step-IsBounded beast srv.dispatcher handle_request m s (continues m' s') old.1 step in
      record {
        supported = h.supported;
        waits = h.waits;
        fresh = h.fresh;
        sound = All-put IsSound before after s' (valid, bounded) others;
      }

  pub ServerStep-dispatcher :
      (m m' : Metrics) (srv srv' : Server)
      → ServerStep beast handle_request m srv m' srv'
      → srv'.dispatcher ≡ srv.dispatcher
  unfolding handle_accept
  ServerStep-dispatcher m _ srv _ (accepted s true e) =
      start_accept-dispatcher (record srv { accepting = none })
  ServerStep-dispatcher m _ srv _ (accepted s false e) =
      start_accept-dispatcher (record srv { accepting = none; starting = s ∷ srv.starting })
  ServerStep-dispatcher m _ srv _ (begun before after s e) = refl
  ServerStep-dispatcher m m' srv _ (served before after s s' e step) = refl

  pub ServerStep-IsCounted :
      (m m' : Metrics) (srv srv' : Server)
      → ServerStep beast handle_request m srv m' srv'
      → IsCounted m
      → IsCounted m'
  ServerStep-IsCounted m _ srv _ (accepted s error e) c = c
  ServerStep-IsCounted m _ srv _ (begun before after s e) c = c
  ServerStep-IsCounted m m' srv _ (served before after s s' e step) c =
      Step-IsCounted beast srv.dispatcher handle_request m m' s s' c step

-- A server that is given a new session of its own version is the one that makes its session itself.
new_server_on-new_server :
    (v : Version) (version : Bytes) (d : Dispatcher)
    → session_version version ≡ some v
    → new_server_on (new_session v) version d ≡ some (new_server version d)
unfolding new_server_on new_server start_accept
new_server_on-new_server http version d e = rw e refl
new_server_on-new_server https version d e = rw e refl

-- Over `https` the session must be one for `https`.
new_server_on-http : (d : Dispatcher) → new_server_on (new_session http) (codes "https") d ≡ none
unfolding new_server_on equal
new_server_on-http d = refl
