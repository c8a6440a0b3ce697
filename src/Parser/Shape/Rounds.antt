-- ===== src/Parser/Shape/Rounds.antt =====
-- A round of `Parse` of src/config_parser.cc, and the shape of the configs on its stack.
use https_server.Prelude.{
  ◌≡◌, refl, Bool, List, [], ◌∷◌, Option, none, some, Bytes, All, Bool-cases, inl, inr, ◌&&◌, not,
}
use https_server.Config.Back.{update_back-emplace_back}
use https_server.Config.{line, Config, nil, emplace_back, push_token, set_child}
use https_server.Lexer.{
  TokenType, start, normal, start_block, end_block, comment, statement_end, eof, error,
  quoted_string,
}
use https_server.Parser.Grammar.{IsWellFormed, emplace_back-IsWellFormed}
use https_server.Parser.{
  ParseState, Round, feed, write_back, pop_config, on_normal, on_statement_end, on_start_block,
  on_end_block, on_eof, remember, ◌is◌,
}
use https_server.Parser.Shape.Writes.{
  push_token-IsWellFormed, set_child-IsWellFormed, StateIsWellFormed, RoundIsWellFormed,
  write_back-IsWellFormed, pop_config-IsWellFormed,
}

abbrev state_of : Config → List Config → TokenType → List TokenType → ParseState
state_of top under last brackets = record {
  top = top;
  under = under;
  last_token_type = last;
  bracket_stack = brackets;
}

-- A new statement with its first token.
first_token-IsWellFormed :
    (v : Bytes) (s : ParseState)
    → StateIsWellFormed s
    → RoundIsWellFormed (
        write_back
          (push_token v)
          (record s { top = emplace_back s.top (line []) })
          (remember normal))
unfolding write_back
first_token-IsWellFormed v s h =
    rw (update_back-emplace_back (push_token v) s.top (line []), write_back)
      (emplace_back-IsWellFormed s.top (line (v ∷ [])) h.0 (unfold IsWellFormed in λ e. cc), h.1)

on_normal-IsWellFormed :
    (last : TokenType) (top : Config) (under : List Config) (brackets : List TokenType) (v : Bytes)
    → StateIsWellFormed (state_of top under last brackets)
    → RoundIsWellFormed (on_normal (state_of top under last brackets) v)
on_normal-IsWellFormed start top under b v h =
    first_token-IsWellFormed v (state_of top under start b) h
on_normal-IsWellFormed statement_end top under b v h =
    first_token-IsWellFormed v (state_of top under statement_end b) h
on_normal-IsWellFormed start_block top under b v h =
    first_token-IsWellFormed v (state_of top under start_block b) h
on_normal-IsWellFormed end_block top under b v h =
    first_token-IsWellFormed v (state_of top under end_block b) h
on_normal-IsWellFormed normal top under b v h =
    write_back-IsWellFormed (push_token v) (state_of top under normal b) (remember normal)
      (push_token-IsWellFormed v) h (λ s' k. k)
on_normal-IsWellFormed comment top under b v h = h
on_normal-IsWellFormed eof top under b v h = h
on_normal-IsWellFormed error top under b v h = h
on_normal-IsWellFormed quoted_string top under b v h = h

on_statement_end-IsWellFormed :
    (s : ParseState) → StateIsWellFormed s → RoundIsWellFormed (on_statement_end s)
on_statement_end-IsWellFormed s h = elim (Bool-cases (s.last_token_type is normal)) [
  | inl e ↦ rw e h
  | inr e ↦ rw e h
]

on_start_block-IsWellFormed :
    (s : ParseState) → StateIsWellFormed s → RoundIsWellFormed (on_start_block s)
on_start_block-IsWellFormed s h = elim (Bool-cases (s.last_token_type is normal)) [
  | inl e ↦ rw e (
      write_back-IsWellFormed (set_child nil) s _
        (λ x k. set_child-IsWellFormed nil x (unfold IsWellFormed in tt) k) h
        (λ s' k. (unfold IsWellFormed in tt, (k.0, k.1))))
  | inr e ↦ rw e h
]

-- A "}" that takes a config off the stack.
popped-IsWellFormed :
    (o : Option (Config × List Config)) (n : Round) (k : Config → List Config → Round)
    → ((p : Config) (under : List Config)
        → o ≡ some (p, under)
        → IsWellFormed p × All IsWellFormed under)
    → RoundIsWellFormed n
    → ((p : Config) (under : List Config)
        → IsWellFormed p × All IsWellFormed under
        → RoundIsWellFormed (k p under))
    → RoundIsWellFormed (elim o [ none ↦ n | some (p, under) ↦ k p under ])
popped-IsWellFormed none n k formed h goes_on = h
popped-IsWellFormed (some (p, under)) n k formed h goes_on = goes_on p under (formed p under refl)

-- The test of a "}" on the last token.
abbrev misplaced : TokenType → Bool
misplaced l = not (l is statement_end) && (not (l is start_block) && not (l is end_block))

on_end_block-IsWellFormed :
    (top : Config) (under : List Config) (last : TokenType) (brackets : List TokenType)
    → StateIsWellFormed (state_of top under last brackets)
    → RoundIsWellFormed (on_end_block (state_of top under last brackets))
on_end_block-IsWellFormed top under last [] h = elim (Bool-cases (misplaced last)) [
  | inl e ↦ rw e h
  | inr e ↦ rw e (
      popped-IsWellFormed (pop_config top under) _ _
        (λ p rest found. pop_config-IsWellFormed top under p rest h.0 h.1 found) h (λ p rest k. k))
]
on_end_block-IsWellFormed top under last (b ∷ brackets) h = elim (Bool-cases (misplaced last)) [
  | inl e ↦ rw e h
  | inr e ↦ rw e (
      popped-IsWellFormed (pop_config top under) _ _
        (λ p rest found. pop_config-IsWellFormed top under p rest h.0 h.1 found) tt (λ p rest k. k))
]

abbrev unfinished : TokenType → Bool
unfinished l = not (l is statement_end) && (not (l is end_block) && not (l is start))

on_eof-IsWellFormed :
    (top : Config) (under : List Config) (last : TokenType) (brackets : List TokenType)
    → StateIsWellFormed (state_of top under last brackets)
    → RoundIsWellFormed (on_eof (state_of top under last brackets))
on_eof-IsWellFormed top under last [] h = elim (Bool-cases (unfinished last)) [
  | inl e ↦ rw e h
  | inr e ↦ rw e h
]
on_eof-IsWellFormed top under last (b ∷ brackets) h = elim (Bool-cases (unfinished last)) [
  | inl e ↦ rw e h
  | inr e ↦ rw e h
]

pub feed-IsWellFormed :
    (s : ParseState) (t : TokenType) (v : Bytes)
    → StateIsWellFormed s
    → RoundIsWellFormed (feed s t v)
unfolding feed
feed-IsWellFormed s error v h = h
feed-IsWellFormed s comment v h = h
feed-IsWellFormed s start v h = h
feed-IsWellFormed s quoted_string v h = h
feed-IsWellFormed s normal v h =
    on_normal-IsWellFormed s.last_token_type s.top s.under s.bracket_stack v h
feed-IsWellFormed s statement_end v h = on_statement_end-IsWellFormed s h
feed-IsWellFormed s start_block v h = on_start_block-IsWellFormed s h
feed-IsWellFormed s end_block v h =
    on_end_block-IsWellFormed s.top s.under s.last_token_type s.bracket_stack h
feed-IsWellFormed s eof v h = on_eof-IsWellFormed s.top s.under s.last_token_type s.bracket_stack h
