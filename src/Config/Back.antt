-- ===== src/Config/Back.antt =====
-- Writes at the end of a config, and a config behind another.
use https_server.Prelude.{◌≡◌, refl, ap, some}
use https_server.Config.{Statement, Config, nil, cons, emplace_back, update_back}

pub update_back-emplace_back :
    (f : Statement → Statement) (c : Config) (s : Statement)
    → update_back f (emplace_back c s) ≡ some (emplace_back c (f s))
unfolding update_back emplace_back
update_back-emplace_back f nil s = refl
update_back-emplace_back f (cons x nil) s = refl
update_back-emplace_back f (cons x (cons y rest)) s =
    rw (update_back-emplace_back f (cons y rest) s, update_back)

-- A config put behind another.
unfoldable pub append_config : Config → Config → Config
append_config nil d = d
append_config (cons s c) d = cons s (append_config c d)

pub append_config-nil : (c : Config) → append_config c nil ≡ c
unfolding append_config
append_config-nil nil = refl
append_config-nil (cons s c) = ap (cons s) (append_config-nil c)

pub append_config-emplace_back :
    (c d : Config) (s : Statement) → append_config (emplace_back c s) d ≡ append_config c (cons s d)
unfolding append_config emplace_back
append_config-emplace_back nil d s = refl
append_config-emplace_back (cons x c) d s = ap (cons x) (append_config-emplace_back c d s)
