-- ===== src/Handlers/Kinds.antt =====
-- What the constructors of the handlers make.
use https_server.Prelude.{◌≡◌, refl, [], Bytes, codes}
use https_server.Config.{Config}
use https_server.Handlers.{
  Handler, file_handler, echo_handler, not_found_handler, status_handler, proxy_handler,
  sleep_handler, health_handler, Built, built, threw, undefined, ◌>>=◌, make_file_handler,
  make_proxy_handler, file_root, proxy_upstream,
}

-- The class's name, as a config file spells it.
abbrev pub name : Handler → Bytes
name (file_handler prefix root) = codes "FileHandler"
name echo_handler = codes "EchoHandler"
name not_found_handler = codes "404Handler"
name status_handler = codes "StatusHandler"
name (proxy_handler prefix host path port) = codes "ProxyHandler"
name sleep_handler = codes "SleepHandler"
name health_handler = codes "HealthHandler"

-- The handlers whose answer may be undefined, an exception, or never come: an echo handler reads
-- behind the views of a request, and a proxy depends on other hosts.
abbrev pub EchoesOrProxies : Handler → Type 0
EchoesOrProxies (proxy_handler prefix host path port) = Unit {0}
EchoesOrProxies echo_handler = Unit {0}
EchoesOrProxies _ = ⊥

-- What holds of a result, if there is one.
abbrev pub OnBuilt {ℓ κ} : {A : Type ℓ} → (A → Type κ) → Built A → Type κ
OnBuilt P (built a) = P a
OnBuilt P _ = Unit

pub OnBuilt-bind {ℓ κ λ'} :
    {A : Type ℓ} {B : Type κ} (P : A → Type λ') (Q : B → Type λ') (m : Built A) (f : A → Built B)
    → OnBuilt P m
    → ((a : A) → P a → OnBuilt Q (f a))
    → OnBuilt Q (m >>= f)
OnBuilt-bind P Q (built a) f h k = k a h
OnBuilt-bind P Q threw f h k = tt
OnBuilt-bind P Q undefined f h k = tt

pub OnBuilt-everywhere {ℓ κ} :
    {A : Type ℓ} (P : A → Type κ) (m : Built A) → ((a : A) → P a) → OnBuilt P m
OnBuilt-everywhere P (built a) h = h a
OnBuilt-everywhere P threw h = tt
OnBuilt-everywhere P undefined h = tt

pub make_file_handler-name :
    (path : Bytes) (config : Config)
    → OnBuilt (λ h. codes "FileHandler" ≡ name h) (make_file_handler path config)
unfolding make_file_handler
make_file_handler-name path config =
    OnBuilt-bind (λ r. Unit) _ (file_root (codes "/") config) _ (OnBuilt-everywhere _ _ (λ r. tt))
      (λ r _. refl)

pub make_proxy_handler-name :
    (path : Bytes) (config : Config)
    → OnBuilt (λ h. codes "ProxyHandler" ≡ name h) (make_proxy_handler path config)
unfolding make_proxy_handler
make_proxy_handler-name path config =
    OnBuilt-bind (λ u. Unit) _ (proxy_upstream (record { host = []; path = []; port = [] }) config)
      _ (OnBuilt-everywhere _ _ (λ u. tt)) (λ u _. refl)

-- A chain that is built went through its first step.
pub >>=-eq-built {ℓ κ} :
    {A : Type ℓ} {B : Type κ} (m : Built A) (f : A → Built B) {b : B}
    → (m >>= f) ≡ built b
    → (a : A) × (m ≡ built a) × (f a ≡ built b)
>>=-eq-built (built a) f h = (a, refl, h)
>>=-eq-built threw f h = cc
>>=-eq-built undefined f h = cc
