-- ===== src/Parser.antt =====
-- src/config_parser.cc, `NginxConfigParser::Parse` on a stream. `config_stack` holds pointers into
-- the tree under `config`; here it holds the configs that are open, the top first. The config of a
-- block that is open is the value on the stack, and the block's place in the config below is filled
-- when it is popped, or when the loop ends with it open.
pub mod Tokens
pub mod Written
pub mod Machine
pub mod Refinement
pub mod Loop
pub mod Grammar
pub mod Syntax
pub mod RoundTrip
pub mod Appending
pub mod Truncated
pub mod Output
pub mod Shape
use https_server.Prelude.{
  ℕ, zero, suc, Bool, true, false, ◌&&◌, ◌||◌, not, List, [], ◌∷◌, Option, none, some, ◌==◌,
  if◌then◌else◌, Bytes, length,
}
use https_server.Config.{
  Statement, line, Config, nil, emplace_back, update_back, push_token, set_child,
}
use https_server.Lexer.{
  TokenType, start, normal, start_block, end_block, comment, statement_end, eof, error,
  quoted_string, parse_token,
}

-- The enum's values.
abbrev pub index : TokenType → ℕ
index start = 0
index normal = 1
index start_block = 2
index end_block = 3
index comment = 4
index statement_end = 5
index eof = 6
index error = 7
index quoted_string = 8

-- `a == b` on token types.
infix 50 ◌is◌
abbrev pub ◌is◌ : TokenType → TokenType → Bool
a is b = index a == index b

-- The local variables of `Parse`. The stack of configs is `top` and what lies under it.
pub record ParseState : Type 0 where
  pub top : Config
  pub under : List Config
  pub last_token_type : TokenType
  pub bracket_stack : List TokenType

-- What a round of the loop does behind `ParseToken`.
pub data Round : Type 0 where
  -- on to the next round
  next : ParseState → Round
  -- `break`, to the `return false` behind the loop
  break : ParseState → Round
  -- `return true`
  accept : ParseState → Round
  -- undefined behaviour: `back()` of an empty vector, `top()` of an empty stack
  undefined : Round

-- `last_token_type = token_type`, at the end of a round.
abbrev pub remember : TokenType → ParseState → Round
remember t s = next (record s { last_token_type = t })

-- A write through `config_stack.top()->statements_.back()`.
pub write_back : (Statement → Statement) → ParseState → (ParseState → Round) → Round
write_back f s k = elim (update_back f s.top) [
  | none ↦ undefined
  | some top ↦ k (record s { top = top })
]

abbrev pub on_normal : ParseState → Bytes → Round
on_normal s value =
    let l = s.last_token_type in
    if l is start || (l is statement_end || (l is start_block || (l is end_block || l is normal)))
    then (let s' =
          if not (l is normal) then record s { top = emplace_back s.top (line []) } else s in
        write_back (push_token value) s' (remember normal))
    else break s

abbrev pub on_statement_end : ParseState → Round
on_statement_end s = if not (s.last_token_type is normal) then break s else remember statement_end s

-- `new_config` becomes the child of the last statement, and the top of the stack.
abbrev pub on_start_block : ParseState → Round
on_start_block s =
    if not (s.last_token_type is normal)
    then break s
    else write_back (set_child nil) s λ s'. remember start_block (record s' {
      top = nil;
      under = s'.top ∷ s'.under;
      bracket_stack = start_block ∷ s'.bracket_stack;
    })

-- `config_stack.pop()`: the popped config is the child of the last statement of the one below it.
-- Where only `config` itself is on the stack it stays in `top`, for the caller; no later round may
-- read the stack, which the code meets by its `break`.
pub pop_config : Config → List Config → Option (Config × List Config)
pop_config top [] = none
pop_config top (p ∷ under) = elim (update_back (set_child top) p) [
  | none ↦ none
  | some p' ↦ some (p', under)
]

abbrev pub on_end_block : ParseState → Round
on_end_block s =
    let l = s.last_token_type in
    if not (l is statement_end) && (not (l is start_block) && not (l is end_block))
    then break s
    else elim s.bracket_stack [
      | [] ↦ elim (pop_config s.top s.under) [
        | none ↦ break s
        | some (p, under) ↦ break (record s { top = p; under = under })
      ]
      | b ∷ brackets ↦ elim (pop_config s.top s.under) [
        | none ↦ undefined
        | some (p, under) ↦
            remember end_block (record s { top = p; under = under; bracket_stack = brackets })
      ]
    ]

abbrev pub on_eof : ParseState → Round
on_eof s =
    let l = s.last_token_type in
    if not (l is statement_end) && (not (l is end_block) && not (l is start))
    then break s
    else elim s.bracket_stack [ [] ↦ accept s | b ∷ brackets ↦ break s ]

-- The body of the loop, behind `ParseToken`.
pub feed : ParseState → TokenType → Bytes → Round
feed s error value = break s
feed s comment value = next s
feed s start value = break s
feed s normal value = on_normal s value
feed s statement_end value = on_statement_end s
feed s start_block value = on_start_block s
feed s end_block value = on_end_block s
feed s quoted_string value = remember quoted_string s
feed s eof value = on_eof s

-- What the caller finds in `config`: each open block is closed over its child.
pub close_all : Config → List Config → Config
close_all top [] = top
close_all top (p ∷ under) = elim (update_back (set_child top) p) [
  | none ↦ close_all p under
  | some p' ↦ close_all p' under
]

abbrev pub out_config : ParseState → Config
out_config s = close_all s.top s.under

-- `Parse` returns a Boolean and leaves a config; `exhausted` is a loop cut off by its fuel.
pub data Parsed : Type 0 where
  returned : Bool → Config → Parsed
  faulted : Parsed
  exhausted : Parsed

-- How `while (true)` goes on behind a round.
abbrev pub proceed : (ParseState → Parsed) → Round → Parsed
proceed loop (next s) = loop s
proceed loop (break s) = returned false (out_config s)
proceed loop (accept s) = returned true (out_config s)
proceed loop undefined = faulted

pub parse_loop : ℕ → ParseState → Bytes → Parsed
parse_loop zero s input = exhausted
parse_loop (suc fuel) s input =
    let t = parse_token input in
    proceed (λ s'. parse_loop fuel s' t.rest) (feed s t.token_type t.value)

abbrev pub initial : Config → ParseState
initial config = record { top = config; under = []; last_token_type = start; bracket_stack = [] }

-- Each round but the last takes a byte, so one round more than there are bytes is enough.
unfoldable pub parse : Bytes → Config → Parsed
unfolding parse_loop feed write_back pop_config close_all emplace_back update_back parse_token
parse input config = parse_loop (suc (length input)) (initial config) input
