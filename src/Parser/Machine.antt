-- ===== src/Parser/Machine.antt =====
-- What `Parse` promises: a machine over symbols, with no stack of pointers and no last token. A
-- config is a sequence of statements; a statement is one or more words, then `;` or a block.
use https_server.Prelude.{ℕ, List, [], ◌∷◌, ◌++◌, Option, none, some, Bytes}
use https_server.Config.{line, block, Config, nil, emplace_back}
use https_server.Lexer.{TokenType, normal, start_block, end_block, comment, statement_end, eof}
use https_server.Parser.Tokens.{gather_of}

pub data Symbol : Type 0 where
  word : Bytes → Symbol
  semi open_brace close_brace : Symbol

-- The blocks that are open, each with the statements before it and its own words; the finished
-- statements of the innermost; and the words of a statement that is not finished.
pub record Machine : Type 0 where
  pub frames : List (Config × List Bytes)
  pub finished : Config
  pub words : List Bytes

abbrev on_semi : Machine → List Bytes → Option Machine
on_semi m [] = none
on_semi m (w ∷ ws) =
    some (record m { finished = emplace_back m.finished (line (w ∷ ws)); words = [] })

abbrev on_open : Machine → List Bytes → Option Machine
on_open m [] = none
on_open m (w ∷ ws) =
    some (record { frames = (m.finished, w ∷ ws) ∷ m.frames; finished = nil; words = [] })

abbrev on_close : Machine → List Bytes → List (Config × List Bytes) → Option Machine
on_close m [] ((before, ws) ∷ frames) =
    some
      (record { frames = frames; finished = emplace_back before (block ws m.finished); words = [] })
on_close m _ _ = none

abbrev pub step : Machine → Symbol → Option Machine
step m (word w) = some (record m { words = m.words ++ w ∷ [] })
step m semi = on_semi m m.words
step m open_brace = on_open m m.words
step m close_brace = on_close m m.words m.frames

abbrev pub and_then {ℓ κ} : {A : Type ℓ} {B : Type κ} → Option A → (A → Option B) → Option B
and_then none f = none
and_then (some a) f = f a

-- At the end of the input every statement and every block is finished.
abbrev pub conclude : List Bytes → List (Config × List Bytes) → Config → Option Config
conclude [] [] c = some c
conclude _ _ c = none

unfoldable pub run : Machine → List Symbol → Option Config
run m [] = conclude m.words m.frames m.finished
run m (x ∷ xs) = and_then (step m x) (λ m'. run m' xs)

abbrev pub begin : Config → Machine
begin c = record { frames = []; finished = c; words = [] }

abbrev pub prepend : Symbol → Option (List Symbol) → Option (List Symbol)
prepend x none = none
prepend x (some xs) = some (x ∷ xs)

-- The symbol of a token, in front of those behind it. Comments are skipped; there is no list of
-- symbols for an input with an erroneous token.
abbrev pub symbol_onto : TokenType → Bytes → Option (List Symbol) → Option (List Symbol)
symbol_onto normal v xs = prepend (word v) xs
symbol_onto statement_end v xs = prepend semi xs
symbol_onto start_block v xs = prepend open_brace xs
symbol_onto end_block v xs = prepend close_brace xs
symbol_onto comment v xs = xs
symbol_onto eof v xs = some []
symbol_onto _ v xs = none

-- The symbols of the first `fuel` tokens.
abbrev pub symbols_of : ℕ → Bytes → Option (List Symbol)
symbols_of = gather_of symbol_onto none
