-- ===== src/Settings/Results.antt =====
-- `GetPortNumber` reads no position that is not set, where it knows the port type.
use https_server.Prelude.{ℕ, ◌≡◌, ◌≢◌, some, arith, length, ◌+◌, Bytes}
use https_server.Config.{Config, nil, cons, statement_to_string}
use https_server.StdString.{find}
use https_server.Settings.{undefined, keyword, port_at, port_in, port_loop, get_port_number}

port_at-ne-undefined : (text : Bytes) (pos : ℕ) → port_at text pos ≢ undefined
unfolding port_at
port_at-ne-undefined text pos = ground arith

port_loop-ne-undefined : (word : Bytes) (c : Config) → port_loop word c ≢ undefined
unfolding port_loop port_in
port_loop-ne-undefined word nil = λ e. cc
port_loop-ne-undefined word (cons s rest) =
    let text = statement_to_string 0 s in
    ground (
      arith,
      port_loop-ne-undefined word rest,
      port_at-ne-undefined text (find text word + length word),
    )

pub get_port_number-ne-undefined :
    (c : Config) (port_type word : Bytes)
    → keyword port_type ≡ some word
    → get_port_number c port_type ≢ undefined
unfolding get_port_number
get_port_number-ne-undefined nil port_type word known = λ e. cc
get_port_number-ne-undefined (cons s rest) port_type word known =
    rw (known, get_port_number) (port_loop-ne-undefined word (cons s rest))
