-- ===== src/Parser/Loop.antt =====
-- The whole loop of `Parse`: it ends within its fuel, it is never undefined, and what it returns is
-- what the machine makes of the symbols of the input.
use https_server.Prelude.{
  ℕ, zero, suc, ◌<◌, ◌≡◌, refl, sym, ap, ◌∙◌, Bool, true, List, [], ◌∷◌, Option, none, some, arith,
  Bytes, length,
}
use https_server.Config.{Config}
use https_server.Lexer.{
  TokenType, start, normal, start_block, end_block, comment, statement_end, eof, error,
  quoted_string, parse_token,
}
use https_server.Lexer.Steps.{parse_token-lt}
use https_server.Lexer.Types.{IsReturned, parse_token-IsReturned}
use https_server.Parser.{
  ParseState, Round, next, break, accept, feed, Parsed, returned, proceed, parse_loop, parse,
  initial,
}
use https_server.Parser.Machine.{
  Symbol, word, semi, open_brace, close_brace, Machine, step, run, begin, and_then, prepend,
  symbol_onto, symbols_of,
}
use https_server.Parser.Tokens.{gather_of, gather}
use https_server.Parser.Refinement.{
  Matches, at_start, Refines, Concludes, feed-Refines, feed-Concludes,
}

-- The config of a `return true`.
abbrev pub accepted : Parsed → Option Config
accepted (returned true c) = some c
accepted _ = none

and_then-prepend :
    (m : Machine) (x : Symbol) (xs : Option (List Symbol))
    → and_then (prepend x xs) (run m) ≡ and_then xs (λ ys. and_then (step m x) (λ m'. run m' ys))
unfolding run
and_then-prepend m x none = refl
and_then-prepend m x (some ys) = refl

and_then-none :
    (xs : Option (List Symbol)) → and_then {A = List Symbol} {B = Config} xs (λ ys. none) ≡ none
and_then-none none = refl
and_then-none (some ys) = refl

module _ (loop : ParseState → Parsed) (xs : Option (List Symbol)) where
  proceed-step :
      (r : Round) (o : Option Machine)
      → Refines r o
      → ((s : ParseState) (m : Machine) → Matches s m → accepted (loop s) ≡ and_then xs (run m))
      → accepted (proceed loop r) ≡ and_then xs (λ ys. and_then o (λ m. run m ys))
  proceed-step (next s) (some m) h ih = ih s m h
  proceed-step (break s) none h ih = sym (and_then-none xs)
  proceed-step _ _ h ih = absurd h

  proceed-conclude : (r : Round) (o : Option Config) → Concludes r o → accepted (proceed loop r) ≡ o
  proceed-conclude (accept s) (some c) h = ap some h
  proceed-conclude (break s) none h = refl
  proceed-conclude _ _ h = absurd h

  proceed-symbol :
      (s : ParseState) (m : Machine) (t : TokenType) (v : Bytes)
      → Matches s m
      → IsReturned t
      → ((s : ParseState) (m : Machine) → Matches s m → accepted (loop s) ≡ and_then xs (run m))
      → accepted (proceed loop (feed s t v)) ≡ and_then (symbol_onto t v xs) (run m)
  unfolding run
  proceed-symbol s m normal v h k ih =
      proceed-step (feed s normal v) (step m (word v)) (feed-Refines normal v h (λ e. cc)) ih
      ∙ sym (and_then-prepend m (word v) xs)
  proceed-symbol s m statement_end v h k ih =
      proceed-step (feed s statement_end v) (step m semi) (feed-Refines statement_end v h (λ e. cc))
        ih
      ∙ sym (and_then-prepend m semi xs)
  proceed-symbol s m start_block v h k ih =
      proceed-step (feed s start_block v) (step m open_brace)
        (feed-Refines start_block v h (λ e. cc)) ih
      ∙ sym (and_then-prepend m open_brace xs)
  proceed-symbol s m end_block v h k ih =
      proceed-step (feed s end_block v) (step m close_brace) (feed-Refines end_block v h (λ e. cc))
        ih
      ∙ sym (and_then-prepend m close_brace xs)
  proceed-symbol s m eof v h k ih = proceed-conclude (feed s eof v) _ (feed-Concludes v h)
  proceed-symbol s m comment v h k ih = unfold feed in ih s m h
  proceed-symbol s m error v h k ih = unfold feed in refl
  proceed-symbol s m start v h k ih = absurd k
  proceed-symbol s m quoted_string v h k ih = absurd k

parse_loop-run :
    (fuel : ℕ) (s : ParseState) (m : Machine) (input : Bytes)
    → Matches s m
    → accepted (parse_loop fuel s input) ≡ and_then (symbols_of fuel input) (run m)
unfolding parse_loop gather_of
parse_loop-run zero s m input h = refl
parse_loop-run (suc fuel) s m input h =
    proceed-symbol (λ s'. parse_loop fuel s' (parse_token input).rest)
      (symbols_of fuel (parse_token input).rest) s m _ _ h (parse_token-IsReturned input)
      (λ s' m' h'. parse_loop-run fuel s' m' (parse_token input).rest h')

Matches-initial : (c : Config) → Matches (initial c) (begin c)
Matches-initial c = record { last = start; state_is = refl; phase = at_start }

-- The symbols of a whole input.
abbrev pub symbols : Bytes → Option (List Symbol)
symbols = gather symbol_onto none

-- `Parse` returns true, with a config, exactly where the machine accepts the symbols of the input,
-- with that config, from whatever config it is given.
pub parse-run :
    (input : Bytes) (c : Config)
    → accepted (parse input c) ≡ and_then (symbols input) (run (begin c))
unfolding parse gather
parse-run input c =
    parse_loop-run (suc (length input)) (initial c) (begin c) input (Matches-initial c)

abbrev Ends : Parsed → Type 0
Ends (returned b c) = Unit
Ends _ = ⊥

module _ (loop : ParseState → Parsed) where
  proceed-Ends_step :
      (r : Round) (o : Option Machine)
      → Refines r o
      → ((s : ParseState) (m : Machine) → Matches s m → Ends (loop s))
      → Ends (proceed loop r)
  proceed-Ends_step (next s) (some m) h ih = ih s m h
  proceed-Ends_step (break s) none h ih = tt
  proceed-Ends_step _ _ h ih = absurd h

  proceed-Ends_eof : (r : Round) (o : Option Config) → Concludes r o → Ends (proceed loop r)
  proceed-Ends_eof (accept s) (some c) h = tt
  proceed-Ends_eof (break s) none h = tt
  proceed-Ends_eof _ _ h = absurd h

  proceed-Ends :
      (s : ParseState) (m : Machine) (t : TokenType) (v : Bytes)
      → Matches s m
      → IsReturned t
      → ((s : ParseState) (m : Machine) → Matches s m → Ends (loop s))
      → Ends (proceed loop (feed s t v))
  proceed-Ends s m eof v h k ih = proceed-Ends_eof (feed s eof v) _ (feed-Concludes v h)
  proceed-Ends s m comment v h k ih = unfold feed in ih s m h
  proceed-Ends s m error v h k ih = unfold feed in tt
  proceed-Ends s m start v h k ih = absurd k
  proceed-Ends s m quoted_string v h k ih = absurd k
  proceed-Ends s m t v h k ih = proceed-Ends_step (feed s t v) _ (feed-Refines t v h (λ e. cc)) ih

parse_loop-Ends :
    (fuel : ℕ) (s : ParseState) (m : Machine) (input : Bytes)
    → Matches s m
    → length input < fuel
    → Ends (parse_loop fuel s input)
unfolding parse_loop
parse_loop-Ends zero s m input h lt = elim lt [ ]
parse_loop-Ends (suc fuel) s m [] h lt =
    unfold parse_token in
    proceed-Ends_eof (λ s'. parse_loop fuel s' []) (feed s eof []) _ (feed-Concludes [] h)
parse_loop-Ends (suc fuel) s m (c ∷ rest) h lt =
    proceed-Ends (λ s'. parse_loop fuel s' (parse_token (c ∷ rest)).rest) s m _ _ h
      (parse_token-IsReturned (c ∷ rest))
      (λ s' m' h'. parse_loop-Ends fuel s' m' _ h' (omega (arith, parse_token-lt c rest)))

Ends-returned : (p : Parsed) → Ends p → (b : Bool) × (c : Config) × (p ≡ returned b c)
Ends-returned (returned b c) h = (b, c, refl)
Ends-returned _ h = absurd h

-- `Parse` returns on every input and every config: the loop ends, and no round calls `back()` on an
-- empty vector or `top()` on an empty stack.
pub parse_total :
    (input : Bytes) (c : Config) → (b : Bool) × (out : Config) × (parse input c ≡ returned b out)
unfolding parse
parse_total input c = Ends-returned _ (
    parse_loop-Ends (suc (length input)) (initial c) (begin c) input (Matches-initial c)
      (omega arith))
