-- ===== src/Parser/Appending.antt =====
-- `Parse` on a config that holds statements already.
use https_server.Prelude.{◌≡◌, refl, ap, sym, ◌∙◌, List, [], ◌∷◌, ◌++◌, Option, none, some, Bytes}
use https_server.Config.Back.{append_config, append_config-nil}
use https_server.Config.{Statement, line, block, Config, nil, cons, emplace_back}
use https_server.Parser.Loop.{accepted, symbols, parse-run}
use https_server.Parser.Machine.{
  Symbol, word, semi, open_brace, close_brace, Machine, and_then, run, begin,
}
use https_server.Parser.{parse}

emplace_back-append_config :
    (c d : Config) (s : Statement)
    → emplace_back (append_config c d) s ≡ append_config c (emplace_back d s)
unfolding append_config emplace_back
emplace_back-append_config nil d s = refl
emplace_back-append_config (cons x c) d s = ap (cons x) (emplace_back-append_config c d s)

-- The open blocks and the finished statements of a machine that began with a config in place of
-- none.
abbrev frames_behind : Config → List (Config × List Bytes) → List (Config × List Bytes)
frames_behind c [] = []
frames_behind c ((before, ws) ∷ []) = (append_config c before, ws) ∷ []
frames_behind c (f ∷ g ∷ frames) = f ∷ frames_behind c (g ∷ frames)

abbrev finished_behind : Config → List (Config × List Bytes) → Config → Config
finished_behind c [] finished = append_config c finished
finished_behind c (f ∷ frames) finished = finished

abbrev machine_behind : Config → List (Config × List Bytes) → Config → List Bytes → Machine
machine_behind c frames finished words = record {
  frames = frames_behind c frames;
  finished = finished_behind c frames finished;
  words = words;
}

abbrev put_behind : Config → Option Config → Option Config
put_behind c o = and_then o (λ d. some (append_config c d))

emplace_back-finished_behind :
    (c : Config) (frames : List (Config × List Bytes)) (f : Config) (s : Statement)
    → emplace_back (finished_behind c frames f) s ≡ finished_behind c frames (emplace_back f s)
emplace_back-finished_behind c [] f s = emplace_back-append_config c f s
emplace_back-finished_behind c (x ∷ frames) f s = refl

-- The rest of a run behind a finished statement.
abbrev run_from : List (Config × List Bytes) → List Symbol → Config → Option Config
run_from frames xs f = run (record { frames = frames; finished = f; words = [] }) xs

run-machine_behind :
    (xs : List Symbol) (c : Config) (frames : List (Config × List Bytes)) (f : Config)
    (ws : List Bytes)
    → run (machine_behind c frames f ws) xs
      ≡ put_behind c (run (record { frames = frames; finished = f; words = ws }) xs)
unfolding run
run-machine_behind [] c [] f [] = refl
run-machine_behind [] c (x ∷ []) f [] = refl
run-machine_behind [] c (x ∷ y ∷ frames) f [] = refl
run-machine_behind [] c frames f (w ∷ ws) = refl
run-machine_behind (word v ∷ xs) c frames f ws = run-machine_behind xs c frames f (ws ++ v ∷ [])
run-machine_behind (semi ∷ xs) c frames f [] = refl
run-machine_behind (semi ∷ xs) c frames f (w ∷ ws) =
    ap (run_from (frames_behind c frames) xs)
      (emplace_back-finished_behind c frames f (line (w ∷ ws)))
    ∙ run-machine_behind xs c frames (emplace_back f (line (w ∷ ws))) []
run-machine_behind (open_brace ∷ xs) c frames f [] = refl
run-machine_behind (open_brace ∷ xs) c [] f (w ∷ ws) =
    run-machine_behind xs c ((f, w ∷ ws) ∷ []) nil []
run-machine_behind (open_brace ∷ xs) c (x ∷ frames) f (w ∷ ws) =
    run-machine_behind xs c ((f, w ∷ ws) ∷ x ∷ frames) nil []
run-machine_behind (close_brace ∷ xs) c [] f [] = refl
run-machine_behind (close_brace ∷ xs) c ((before, ws) ∷ []) f [] =
    ap (run_from [] xs) (emplace_back-append_config c before (block ws f))
    ∙ run-machine_behind xs c [] (emplace_back before (block ws f)) []
run-machine_behind (close_brace ∷ xs) c ((before, ws) ∷ y ∷ frames) f [] =
    run-machine_behind xs c (y ∷ frames) (emplace_back before (block ws f)) []
run-machine_behind (close_brace ∷ xs) c [] f (w ∷ ws) = refl
run-machine_behind (close_brace ∷ xs) c (x ∷ []) f (w ∷ ws) = refl
run-machine_behind (close_brace ∷ xs) c (x ∷ y ∷ frames) f (w ∷ ws) = refl

-- `Parse` on a config that holds statements returns true exactly where it does on an empty one, and
-- leaves the statements that it would read into an empty one behind those that were there.
pub parse-append_config :
    (input : Bytes) (c : Config)
    → accepted (parse input c)
      ≡ and_then (accepted (parse input nil)) (λ d. some (append_config c d))
parse-append_config input c = rw (parse-run, parse-run) (appends (symbols input))
  where
    appends :
        (o : Option (List Symbol))
        → and_then o (run (begin c)) ≡ put_behind c (and_then o (run (begin nil)))
    appends none = refl
    appends (some xs) =
        ap (run_from [] xs) (sym (append_config-nil c)) ∙ run-machine_behind xs c [] nil []
