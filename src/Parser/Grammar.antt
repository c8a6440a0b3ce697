-- ===== src/Parser/Grammar.antt =====
-- The machine accepts a list of symbols exactly when it is a config written out.
use https_server.Prelude.{
  ◌≡◌, ◌≢◌, ◌↔◌, refl, sym, ap, ◌∙◌, subst, List, [], ◌∷◌, ◌++◌, append-nil, append_assoc, Option,
  none, some, Bytes,
}
use mathlib.Core.List.{map, map-append}
use https_server.Config.Back.{append_config, append_config-nil, append_config-emplace_back}
use https_server.Config.{Statement, line, block, Config, nil, cons, emplace_back}
use https_server.Parser.{parse}
use https_server.Parser.Loop.{accepted, symbols, parse-run}
use https_server.Parser.Machine.{
  Symbol, word, semi, open_brace, close_brace, Machine, and_then, run, begin,
}

abbrev pub words : List Bytes → List Symbol
words = map word

-- A config as symbols.
unfoldable mutual
  pub statement_symbols : Statement → List Symbol
  statement_symbols (line ts) = words ts ++ semi ∷ []
  statement_symbols (block ts child) =
      words ts ++ (open_brace ∷ (config_symbols child ++ close_brace ∷ []))

  pub config_symbols : Config → List Symbol
  config_symbols nil = []
  config_symbols (cons s rest) = statement_symbols s ++ config_symbols rest

-- Every statement has a token.
unfoldable mutual
  pub StatementIsWellFormed : Statement → Type 0
  StatementIsWellFormed (line ts) = ts ≢ []
  StatementIsWellFormed (block ts child) = (ts ≢ []) × IsWellFormed child

  pub IsWellFormed : Config → Type 0
  IsWellFormed nil = Unit
  IsWellFormed (cons s rest) = StatementIsWellFormed s × IsWellFormed rest

emplace_back_symbols :
    (c : Config) (s : Statement)
    → config_symbols (emplace_back c s) ≡ config_symbols c ++ statement_symbols s
unfolding config_symbols emplace_back
emplace_back_symbols nil s = append-nil _
emplace_back_symbols (cons x rest) s = rw (emplace_back_symbols rest s) (rw append_assoc)

pub emplace_back-IsWellFormed :
    (c : Config) (s : Statement)
    → IsWellFormed c
    → StatementIsWellFormed s
    → IsWellFormed (emplace_back c s)
unfolding IsWellFormed emplace_back
emplace_back-IsWellFormed nil s h k = (k, tt)
emplace_back-IsWellFormed (cons x rest) s h k = (h.0, emplace_back-IsWellFormed rest s h.1 k)

-- The symbols that lead to a machine.
abbrev frame_symbols : List (Config × List Bytes) → List Symbol
frame_symbols [] = []
frame_symbols ((before, ws) ∷ frames) =
    frame_symbols frames ++ (config_symbols before ++ (words ws ++ open_brace ∷ []))

abbrev consumed : Machine → List Symbol
consumed m = frame_symbols m.frames ++ (config_symbols m.finished ++ words m.words)

abbrev FramesAreWellFormed : List (Config × List Bytes) → Type 0
FramesAreWellFormed [] = Unit
FramesAreWellFormed ((before, ws) ∷ frames) =
    IsWellFormed before × (ws ≢ []) × FramesAreWellFormed frames

abbrev machine : List (Config × List Bytes) → Config → List Bytes → Machine
machine frames c ws = record { frames = frames; finished = c; words = ws }

consumed-word :
    (frames : List (Config × List Bytes)) (f : Config) (ws : List Bytes) (v : Bytes)
    → consumed (machine frames f (ws ++ v ∷ [])) ≡ consumed (machine frames f ws) ++ word v ∷ []
consumed-word frames f ws v = simp (map-append, append_assoc)

consumed-semi :
    (frames : List (Config × List Bytes)) (f : Config) (ws : List Bytes)
    → consumed (machine frames (emplace_back f (line ws)) [])
      ≡ consumed (machine frames f ws) ++ semi ∷ []
unfolding config_symbols
consumed-semi frames f ws = simp (emplace_back_symbols, append_assoc, append-nil)

consumed-open :
    (frames : List (Config × List Bytes)) (f : Config) (ws : List Bytes)
    → consumed (machine ((f, ws) ∷ frames) nil [])
      ≡ consumed (machine frames f ws) ++ open_brace ∷ []
unfolding config_symbols
consumed-open frames f ws = simp (append_assoc, append-nil)

consumed-close :
    (frames : List (Config × List Bytes)) (before f : Config) (ws : List Bytes)
    → consumed (machine frames (emplace_back before (block ws f)) [])
      ≡ consumed (machine ((before, ws) ∷ frames) f []) ++ close_brace ∷ []
unfolding config_symbols
consumed-close frames before f ws = simp (emplace_back_symbols, append_assoc, append-nil)

-- The result of the rest of a run, with one more symbol before it.
onto :
    (before : List Symbol) {all after : List Symbol} {P : Type 0} (x : Symbol) (xs : List Symbol)
    → after ≡ before ++ x ∷ []
    → (after ++ xs ≡ all) × P
    → (before ++ x ∷ xs ≡ all) × P
onto before x xs e h =
    (sym (append_assoc before (x ∷ []) xs) ∙ ap (λ ys. ys ++ xs) (sym e) ∙ h.0, h.1)

run-sound_at :
    (xs : List Symbol) (frames : List (Config × List Bytes)) (f : Config) (ws : List Bytes)
    {c : Config}
    → FramesAreWellFormed frames
    → IsWellFormed f
    → run (machine frames f ws) xs ≡ some c
    → (consumed (machine frames f ws) ++ xs ≡ config_symbols c) × IsWellFormed c
unfolding run
run-sound_at [] [] f [] {c} h k e =
    let same : f ≡ c = cc in (simp append-nil (ap config_symbols same), subst IsWellFormed same k)
run-sound_at [] (x ∷ frames) f [] h k e = cc
run-sound_at [] frames f (w ∷ ws) h k e = cc
run-sound_at (word v ∷ xs) frames f ws h k e =
    onto _ (word v) xs (consumed-word frames f ws v) (run-sound_at xs frames f (ws ++ v ∷ []) h k e)
run-sound_at (semi ∷ xs) frames f [] h k e = cc
run-sound_at (semi ∷ xs) frames f (w ∷ ws) h k e =
    onto _ semi xs (consumed-semi frames f (w ∷ ws)) (
      run-sound_at xs frames (emplace_back f (line (w ∷ ws))) [] h
        (emplace_back-IsWellFormed f (line (w ∷ ws)) k (unfold IsWellFormed in λ q. cc)) e)
run-sound_at (open_brace ∷ xs) frames f [] h k e = cc
run-sound_at (open_brace ∷ xs) frames f (w ∷ ws) h k e =
    onto _ open_brace xs (consumed-open frames f (w ∷ ws)) (
      run-sound_at xs ((f, w ∷ ws) ∷ frames) nil [] (k, (λ q. cc), h) (unfold IsWellFormed in tt) e)
run-sound_at (close_brace ∷ xs) [] f [] h k e = cc
run-sound_at (close_brace ∷ xs) ((before, ws) ∷ frames) f [] h k e =
    onto _ close_brace xs (consumed-close frames before f ws) (
      run-sound_at xs frames (emplace_back before (block ws f)) [] h.2
        (emplace_back-IsWellFormed before (block ws f) h.0 (unfold IsWellFormed in (h.1, k))) e)
run-sound_at (close_brace ∷ xs) frames f (w ∷ ws) h k e = cc

run-words :
    (ts : List Bytes) (frames : List (Config × List Bytes)) (f : Config) (ws : List Bytes)
    (rest : List Symbol)
    → run (machine frames f ws) (words ts ++ rest) ≡ run (machine frames f (ws ++ ts)) rest
unfolding run
run-words [] frames f ws rest = rw append-nil
run-words (t ∷ ts) frames f ws rest = run-words ts frames f (ws ++ t ∷ []) rest ∙ rw append_assoc

mutual
  unfolding run config_symbols IsWellFormed append_config

  run_statement :
      (s : Statement) (frames : List (Config × List Bytes)) (f : Config) (rest : List Symbol)
      → StatementIsWellFormed s
      → run (machine frames f []) (statement_symbols s ++ rest)
        ≡ run (machine frames (emplace_back f s) []) rest
  run_statement (line []) frames f rest h = absurd (h refl)
  run_statement (line (t ∷ ts)) frames f rest h =
      rw append_assoc (run-words (t ∷ ts) frames f [] (semi ∷ rest))
  run_statement (block [] child) frames f rest h = absurd (h.0 refl)
  run_statement (block (t ∷ ts) child) frames f rest h = rw append_assoc (
      run-words (t ∷ ts) frames f []
        (open_brace ∷ ((config_symbols child ++ close_brace ∷ []) ++ rest))
      ∙ rw append_assoc (run_config child ((f, t ∷ ts) ∷ frames) nil (close_brace ∷ rest) h.1))

  run_config :
      (c : Config) (frames : List (Config × List Bytes)) (f : Config) (rest : List Symbol)
      → IsWellFormed c
      → run (machine frames f []) (config_symbols c ++ rest)
        ≡ run (machine frames (append_config f c) []) rest
  run_config nil frames f rest h = rw append_config-nil refl
  run_config (cons s c) frames f rest h = rw append_assoc (
      run_statement s frames f (config_symbols c ++ rest) h.0
      ∙ run_config c frames (emplace_back f s) rest h.1
      ∙ rw append_config-emplace_back refl)

-- From an empty config, the machine accepts a list of symbols with a config exactly when the list
-- is that config written out, and every statement of it has a token.
pub run_iff :
    (xs : List Symbol) (c : Config)
    → (run (begin nil) xs ≡ some c) ↔ ((xs ≡ config_symbols c) × IsWellFormed c)
run_iff xs c = (
  λ e. unfold config_symbols in run-sound_at xs [] nil [] tt (unfold IsWellFormed in tt) e,
  λ h.
      ap (run (begin nil)) (h.0 ∙ sym (append-nil (config_symbols c)))
      ∙ run_config c [] nil [] h.1
      ∙ unfold run append_config in refl,
)

-- `Parse` on an empty config returns true with the config `c` exactly when the tokens of the input,
-- its comments left out, are those of `c` written out, and every statement of `c` has a token.
pub parse_iff :
    (input : Bytes) (c : Config)
    → (accepted (parse input nil) ≡ some c)
      ↔ ((symbols input ≡ some (config_symbols c)) × IsWellFormed c)
parse_iff input c = rw parse-run (accepts (symbols input))
  where
    accepts :
        (xs : Option (List Symbol))
        → (and_then xs (run (begin nil)) ≡ some c)
          ↔ ((xs ≡ some (config_symbols c)) × IsWellFormed c)
    accepts none = ((λ e. cc), (λ h. cc (h.0)))
    accepts (some xs) = (
      λ e. let h = (run_iff xs c).0 e in (ap some h.0, h.1),
      λ h. (run_iff xs c).1 (cc (h.0), h.1),
    )
