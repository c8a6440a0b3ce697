-- ===== src/Dispatcher/Parsed.antt =====
-- `init_handlers` on a config that `Parse` has read.
use https_server.Prelude.{
  ◌≡◌, ◌≢◌, refl, ap, true, false, List, [], ◌∷◌, Option, none, some, Bytes, codes, equal,
}
use https_server.Config.{Statement, line, block, Config, nil, cons, tokens, child_block}
use https_server.Dispatcher.Total.{IsSafe, AllSafe, init_handlers_total}
use https_server.Dispatcher.{Dispatcher, init_handlers}
use https_server.Handlers.{built}
use https_server.Handlers.Constructed.{HasTokens, HasHosts}
use https_server.Parser.Grammar.{IsWellFormed, StatementIsWellFormed, parse_iff}
use https_server.Parser.Loop.{accepted}
use https_server.Parser.{parse, returned}

-- A statement that names a location and a handler has a block, and the block of a proxy has hosts.
abbrev pub HasBlock : List Bytes → Option Config → Type 0
HasBlock (t ∷ path ∷ handler_type ∷ ts) none = equal t (codes "location") ≡ false
HasBlock (t ∷ path ∷ handler_type ∷ ts) (some config) =
    equal t (codes "location") ≡ true
    → equal handler_type (codes "ProxyHandler") ≡ true
    → HasHosts config
HasBlock _ child = Unit

abbrev pub HasBlocks : Config → Type 0
HasBlocks nil = Unit
HasBlocks (cons s rest) = HasBlock (tokens s) (child_block s) × HasBlocks rest

tokens-ne-nil : (s : Statement) → StatementIsWellFormed s → tokens s ≢ []
unfolding StatementIsWellFormed
tokens-ne-nil (line ts) h = h
tokens-ne-nil (block ts child) h = h.0

IsWellFormed-HasTokens : (c : Config) → IsWellFormed c → HasTokens c
unfolding IsWellFormed
IsWellFormed-HasTokens nil h = tt
IsWellFormed-HasTokens (cons s rest) h = (tokens-ne-nil s h.0, IsWellFormed-HasTokens rest h.1)

line-IsSafe : (ts : List Bytes) → ts ≢ [] → HasBlock ts none → IsSafe ts none
line-IsSafe [] h b = h refl
line-IsSafe (t ∷ []) h b = tt
line-IsSafe (t ∷ path ∷ []) h b = tt
line-IsSafe (t ∷ path ∷ handler_type ∷ ts) h b = b

block-IsSafe :
    (ts : List Bytes) (child : Config)
    → ts ≢ []
    → HasTokens child
    → HasBlock ts (some child)
    → IsSafe ts (some child)
block-IsSafe [] child h k b = h refl
block-IsSafe (t ∷ []) child h k b = tt
block-IsSafe (t ∷ path ∷ []) child h k b = tt
block-IsSafe (t ∷ path ∷ handler_type ∷ ts) child h k b = λ e. (b e, k)

IsWellFormed-AllSafe : (c : Config) → IsWellFormed c → HasBlocks c → AllSafe c
unfolding IsWellFormed StatementIsWellFormed
IsWellFormed-AllSafe nil h b = tt
IsWellFormed-AllSafe (cons (line ts) rest) h b =
    (line-IsSafe ts h.0 b.0, IsWellFormed-AllSafe rest h.1 b.1)
IsWellFormed-AllSafe (cons (block ts child) rest) h b = (
  block-IsSafe ts child h.0.0 (IsWellFormed-HasTokens child h.0.1) b.0,
  IsWellFormed-AllSafe rest h.1 b.1,
)

-- On a config that `Parse` has read.
pub parse-init_handlers :
    (text : Bytes) (c : Config) (handler_info : List (Bytes × Bytes))
    → parse text nil ≡ returned true c
    → HasBlocks c
    → (d : Dispatcher) × (init_handlers handler_info c ≡ built d)
parse-init_handlers text c handler_info parsed b =
    let (symbols_match, well) = (parse_iff text c).0 (ap accepted parsed) in
    init_handlers_total handler_info c (IsWellFormed-AllSafe c well b)
