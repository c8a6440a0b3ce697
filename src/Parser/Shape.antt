-- ===== src/Parser/Shape.antt =====
-- The shape of the configs that `Parse` of src/config_parser.cc leaves, whether it accepts or not.
mod Writes
mod Rounds
use https_server.Prelude.{ℕ, zero, suc, ◌≡◌, subst, Bool, Bytes, length}
use https_server.Config.{Config}
use https_server.Lexer.{parse_token}
use https_server.Parser.Loop.{parse_total}
use https_server.Parser.Grammar.{IsWellFormed}
use https_server.Parser.{
  ParseState, Round, next, break, accept, feed, Parsed, returned, faulted, exhausted, proceed,
  parse_loop, parse, initial,
}
use https_server.Parser.Shape.Writes.{StateIsWellFormed, RoundIsWellFormed, close_all-IsWellFormed}
use https_server.Parser.Shape.Rounds.{feed-IsWellFormed}

abbrev ParsedIsWellFormed : Parsed → Type 0
ParsedIsWellFormed (returned b c) = IsWellFormed c
ParsedIsWellFormed faulted = Unit
ParsedIsWellFormed exhausted = Unit

proceed-IsWellFormed :
    (loop : ParseState → Parsed) (r : Round)
    → ((s : ParseState) → StateIsWellFormed s → ParsedIsWellFormed (loop s))
    → RoundIsWellFormed r
    → ParsedIsWellFormed (proceed loop r)
proceed-IsWellFormed loop (next s) later h = later s h
proceed-IsWellFormed loop (break s) later h = close_all-IsWellFormed s.top s.under h.0 h.1
proceed-IsWellFormed loop (accept s) later h = close_all-IsWellFormed s.top s.under h.0 h.1
proceed-IsWellFormed loop Round.undefined later h = tt

parse_loop-IsWellFormed :
    (fuel : ℕ) (s : ParseState) (input : Bytes)
    → StateIsWellFormed s
    → ParsedIsWellFormed (parse_loop fuel s input)
unfolding parse_loop
parse_loop-IsWellFormed zero s input h = tt
parse_loop-IsWellFormed (suc fuel) s input h =
    let t = parse_token input in
    proceed-IsWellFormed (λ s'. parse_loop fuel s' t.rest) (feed s t.token_type t.value)
      (λ s' k. parse_loop-IsWellFormed fuel s' t.rest k)
      (feed-IsWellFormed s t.token_type t.value h)

-- On every input, and whether it accepts or not, `Parse` returns with a config in which each
-- statement, at every depth, has a token, where this is so in the config that it is given.
pub parse-IsWellFormed :
    (input : Bytes) (c : Config)
    → IsWellFormed c
    → (b : Bool) × (out : Config) × (parse input c ≡ returned b out) × IsWellFormed out
unfolding parse
parse-IsWellFormed input c h =
    let (b, out, e) = parse_total input c in
    (
      b,
      out,
      e,
      subst ParsedIsWellFormed e
          (parse_loop-IsWellFormed (suc (length input)) (initial c) input (h, tt)),
    )
