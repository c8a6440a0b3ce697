-- ===== src/Tests/Ports.antt =====
-- A location in front of the `listen` statement that hides it from src/config_parser.cc.
use https_server.Prelude.{◌≡◌, refl, [], ◌∷◌, codes, arith, equal}
use https_server.Config.{Config, line, block, nil, cons}
use https_server.Settings.Shadowed.{get_port_number-shadowed}
use https_server.Settings.{not_found, found, get_port_number}

abbrev listens : Config
listens = cons (line (codes "listen" ∷ codes "80" ∷ [])) nil

get_port_number-shadowed_example :
    get_port_number
      (cons (block (codes "location" ∷ codes "/listen" ∷ codes "EchoHandler" ∷ []) nil) listens)
      (codes "HTTP")
    ≡ not_found
get_port_number-shadowed_example =
    get_port_number-shadowed (codes "/") b'E' (codes "choHandler") nil listens (refl, tt)
      (omega arith) (ground arith) refl refl

listens_alone : get_port_number listens (codes "HTTP") ≡ found 80
unfolding get_port_number equal
listens_alone = refl
