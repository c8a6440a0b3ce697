-- ===== src/Parser/Refinement.antt =====
-- Each round of `Parse` does what the machine does with the symbol of the token.
use https_server.Prelude.{
  ◌≡◌, ◌≢◌, refl, sym, subst, List, [], ◌∷◌, ◌++◌, Option, none, some, Bytes,
}
use https_server.Config.{Statement, line, block, Config, nil, emplace_back, set_child}
use https_server.Config.Back.{update_back-emplace_back}
use https_server.Lexer.{TokenType, start, normal, start_block, end_block, statement_end, eof}
use https_server.Parser.{
  ParseState, Round, next, break, accept, feed, write_back, pop_config, close_all, out_config,
}
use https_server.Parser.Machine.{
  Symbol, word, semi, open_brace, close_brace, Machine, step, and_then, conclude,
}

-- `top` holds the finished statements and, behind them, the unfinished one.
abbrev pub with_words : Config → List Bytes → Config
with_words c [] = c
with_words c (w ∷ ws) = emplace_back c (line (w ∷ ws))

-- The config of an open block has it as its last statement, with no child yet.
abbrev pub opened : List (Config × List Bytes) → List Config
opened [] = []
opened ((before, ws) ∷ frames) = emplace_back before (block ws nil) ∷ opened frames

abbrev pub marks : List (Config × List Bytes) → List TokenType
marks [] = []
marks (f ∷ frames) = start_block ∷ marks frames

-- The state that stands for a machine, behind a token of the given type.
abbrev pub image : Machine → TokenType → ParseState
image m last = record {
  top = with_words m.finished m.words;
  under = opened m.frames;
  last_token_type = last;
  bracket_stack = marks m.frames;
}

-- What the last token tells of the machine.
pub data Phase : TokenType → List Bytes → List (Config × List Bytes) → Type 0 where
  at_start : Phase start [] []
  in_words :
      {w : Bytes} {ws : List Bytes} {frames : List (Config × List Bytes)}
      → Phase normal (w ∷ ws) frames
  after_semi : {frames : List (Config × List Bytes)} → Phase statement_end [] frames
  after_open :
      {f : Config × List Bytes} {frames : List (Config × List Bytes)}
      → Phase start_block [] (f ∷ frames)
  after_close : {frames : List (Config × List Bytes)} → Phase end_block [] frames

pub record Matches (s : ParseState) (m : Machine) : Type 0 where
  pub last : TokenType
  pub state_is : s ≡ image m last
  pub phase : Phase last m.words m.frames

-- The round goes on, matching the machine, or breaks where the machine has no step.
abbrev pub Refines : Round → Option Machine → Type 0
Refines (next s) (some m) = Matches s m
Refines (break s) none = Unit
Refines _ _ = ⊥

-- At the end of the input the round accepts the machine's config, or breaks where it has none.
abbrev pub Concludes : Round → Option Config → Type 0
Concludes (accept s) (some c) = out_config s ≡ c
Concludes (break s) none = Unit
Concludes _ _ = ⊥

write_back-emplace_back :
    (f : Statement → Statement) (c : Config) (x : Statement) (under : List Config)
    (last : TokenType) (brackets : List TokenType) (k : ParseState → Round)
    → write_back f
        (record {
          top = emplace_back c x;
          under = under;
          last_token_type = last;
          bracket_stack = brackets;
        })
        k
      ≡ k (record {
        top = emplace_back c (f x);
        under = under;
        last_token_type = last;
        bracket_stack = brackets;
      })
unfolding write_back
write_back-emplace_back f c x under last brackets k =
    rw (update_back-emplace_back f c x, write_back)

pop_config-opened :
    (child before : Config) (ws : List Bytes) (frames : List (Config × List Bytes))
    → pop_config child (opened ((before, ws) ∷ frames))
      ≡ some (emplace_back before (block ws child), opened frames)
unfolding pop_config
pop_config-opened child before ws frames =
    rw (update_back-emplace_back (set_child child) before (block ws nil), pop_config)

pop_config-nil : (child : Config) → pop_config child [] ≡ none
unfolding pop_config
pop_config-nil child = refl

matching : (m : Machine) (last : TokenType) → Phase last m.words m.frames → Matches (image m last) m
matching m last p = record { last = last; state_is = refl; phase = p }

abbrev machine : Config → List Bytes → List (Config × List Bytes) → Machine
machine c ws frames = record { frames = frames; finished = c; words = ws }

feed-word :
    (c : Config) {last : TokenType} {ws : List Bytes} {frames : List (Config × List Bytes)}
    (v : Bytes)
    → Phase last ws frames
    → Refines
        (feed (image (machine c ws frames) last) normal v)
        (step (machine c ws frames) (word v))
unfolding feed
feed-word c v at_start =
    rw write_back-emplace_back (matching (machine c (v ∷ []) []) normal in_words)
feed-word c v (in_words {w} {ws} {frames}) =
    rw write_back-emplace_back (matching (machine c (w ∷ (ws ++ v ∷ [])) frames) normal in_words)
feed-word c v (after_semi {frames}) =
    rw write_back-emplace_back (matching (machine c (v ∷ []) frames) normal in_words)
feed-word c v (after_open {f} {frames}) =
    rw write_back-emplace_back (matching (machine c (v ∷ []) (f ∷ frames)) normal in_words)
feed-word c v (after_close {frames}) =
    rw write_back-emplace_back (matching (machine c (v ∷ []) frames) normal in_words)

feed-semi :
    (c : Config) {last : TokenType} {ws : List Bytes} {frames : List (Config × List Bytes)}
    (v : Bytes)
    → Phase last ws frames
    → Refines
        (feed (image (machine c ws frames) last) statement_end v)
        (step (machine c ws frames) semi)
unfolding feed
feed-semi c v (in_words {w} {ws} {frames}) =
    matching (machine (emplace_back c (line (w ∷ ws))) [] frames) statement_end after_semi
feed-semi c v at_start = tt
feed-semi c v _ = tt

feed-open :
    (c : Config) {last : TokenType} {ws : List Bytes} {frames : List (Config × List Bytes)}
    (v : Bytes)
    → Phase last ws frames
    → Refines
        (feed (image (machine c ws frames) last) start_block v)
        (step (machine c ws frames) open_brace)
unfolding feed
feed-open c v (in_words {w} {ws} {frames}) =
    rw write_back-emplace_back
      (matching (machine nil [] ((c, w ∷ ws) ∷ frames)) start_block after_open)
feed-open c v at_start = tt
feed-open c v _ = tt

feed-close :
    (c : Config) {last : TokenType} {ws : List Bytes} {frames : List (Config × List Bytes)}
    (v : Bytes)
    → Phase last ws frames
    → Refines
        (feed (image (machine c ws frames) last) end_block v)
        (step (machine c ws frames) close_brace)
unfolding feed
feed-close c v (in_words {w} {ws} {frames}) = tt
feed-close c v at_start = tt
feed-close c v (after_semi {frames = []}) = rw pop_config-nil tt
feed-close c v (after_semi {frames = (before, ws) ∷ frames}) =
    rw pop_config-opened
      (matching (machine (emplace_back before (block ws c)) [] frames) end_block after_close)
feed-close c v (after_open {f = (before, ws)} {frames}) =
    rw pop_config-opened
      (matching (machine (emplace_back before (block ws c)) [] frames) end_block after_close)
feed-close c v (after_close {frames = []}) = rw pop_config-nil tt
feed-close c v (after_close {frames = (before, ws) ∷ frames}) =
    rw pop_config-opened
      (matching (machine (emplace_back before (block ws c)) [] frames) end_block after_close)

feed-eof :
    (c : Config) {last : TokenType} {ws : List Bytes} {frames : List (Config × List Bytes)}
    (v : Bytes)
    → Phase last ws frames
    → Concludes (feed (image (machine c ws frames) last) eof v) (conclude ws frames c)
unfolding feed close_all
feed-eof c v (in_words {w} {ws} {frames}) = tt
feed-eof c v at_start = refl
feed-eof c v (after_semi {frames = []}) = refl
feed-eof c v (after_semi {frames = f ∷ frames}) = tt
feed-eof c v after_open = tt
feed-eof c v (after_close {frames = []}) = refl
feed-eof c v (after_close {frames = f ∷ frames}) = tt

-- The machine's symbol for a token that is one.
abbrev pub symbol : TokenType → Bytes → Option Symbol
symbol normal v = some (word v)
symbol statement_end v = some semi
symbol start_block v = some open_brace
symbol end_block v = some close_brace
symbol _ v = none

image-Refines :
    (c : Config) (ws : List Bytes) (frames : List (Config × List Bytes)) (last t : TokenType)
    (v : Bytes)
    → symbol t v ≢ none
    → Phase last ws frames
    → Refines
        (feed (image (machine c ws frames) last) t v)
        (and_then (symbol t v) (step (machine c ws frames)))
image-Refines c ws frames last normal v e p = feed-word c v p
image-Refines c ws frames last statement_end v e p = feed-semi c v p
image-Refines c ws frames last start_block v e p = feed-open c v p
image-Refines c ws frames last end_block v e p = feed-close c v p
image-Refines c ws frames last _ v e p = absurd (e refl)

-- A round of `Parse` on a token that stands for a symbol is a step of the machine: it goes on in a
-- matching state, or breaks where the machine has no step. It is never undefined.
pub feed-Refines :
    {s : ParseState} {m : Machine} (t : TokenType) (v : Bytes)
    → Matches s m
    → symbol t v ≢ none
    → Refines (feed s t v) (and_then (symbol t v) (step m))
feed-Refines {m} t v h e =
    subst (λ s. Refines (feed s t v) (and_then (symbol t v) (step m))) (sym h.state_is)
      (image-Refines m.finished m.words m.frames h.last t v e h.phase)

-- At the end of the stream the round accepts exactly what the machine accepts, with its config.
pub feed-Concludes :
    {s : ParseState} {m : Machine} (v : Bytes)
    → Matches s m
    → Concludes (feed s eof v) (conclude m.words m.frames m.finished)
feed-Concludes {m} v h =
    subst (λ s. Concludes (feed s eof v) (conclude m.words m.frames m.finished)) (sym h.state_is)
      (feed-eof m.finished v h.phase)
