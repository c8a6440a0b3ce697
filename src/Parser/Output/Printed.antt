-- ===== src/Parser/Output/Printed.antt =====
-- What `Parse` has printed when it returns.
use https_server.Prelude.{
  ℕ, zero, suc, ◌≡◌, ◌≢◌, refl, ap, sym, subst, ◌∙◌, true, false, [], ◌∷◌, ◌++◌, append-nil,
  append_assoc, arith, Bytes, length, Option-cases, inl, inr,
}
use https_server.Config.{
  Statement, line, Config, nil, update_back, emplace_back, push_token, set_child,
}
use https_server.Lexer.{
  TokenType, start, normal, start_block, end_block, comment, statement_end, eof, error,
  quoted_string, parse_token,
}
use https_server.Parser.{
  ParseState, Round, next, break, accept, undefined, feed, write_back, out_config, remember, Parsed,
  returned, proceed, parse_loop, parse, initial,
}
use https_server.Parser.Output.{token_line, bad_transition, print_behind, print_loop, print_parse}
use https_server.Parser.Tokens.{gather_of, gather}

-- The line of a token, in front of those behind it; there is no line behind the end of the file.
abbrev pub line_onto : TokenType → Bytes → Bytes → Bytes
line_onto eof v rest = token_line eof v
line_onto t v rest = token_line t v ++ rest

-- A round on another token does not accept.
module _ (s' : ParseState) where
  write_back-accept :
      (f : Statement → Statement) (s : ParseState) (k : ParseState → Round)
      → ((s1 : ParseState) → k s1 ≢ accept s')
      → write_back f s k ≢ accept s'
  unfolding write_back
  write_back-accept f s k h = elim (Option-cases (update_back f s.top)) [
    | inl e ↦ rw (e, write_back) (λ e. cc)
    | inr (top, e) ↦ rw (e, write_back) (h (record s { top = top }))
  ]

  feed-accept : (s : ParseState) (t : TokenType) (v : Bytes) → feed s t v ≡ accept s' → t ≡ eof
  unfolding feed
  feed-accept s error v e = cc
  feed-accept s comment v e = cc
  feed-accept s start v e = cc
  feed-accept s normal v e =
      let new = record s { top = emplace_back s.top (line []) } in
      let old_word = write_back-accept (push_token v) s (remember normal) (λ s1 e. cc) in
      let new_word = write_back-accept (push_token v) new (remember normal) (λ s1 e. cc) in
      ground arith
  feed-accept s statement_end v e = ground arith
  feed-accept s start_block v e =
      let opens =
        write_back-accept (set_child nil) s
          (λ s1. remember start_block (record s1 {
            top = nil;
            under = s1.top ∷ s1.under;
            bracket_stack = start_block ∷ s1.bracket_stack;
          }))
          (λ s1 e. cc) in
      ground arith
  feed-accept s end_block v e = ground arith
  feed-accept s quoted_string v e = cc
  feed-accept s eof v e = refl

feed-next_eof : (s s' : ParseState) (v : Bytes) → feed s eof v ≢ next s'
unfolding feed
feed-next_eof s s' v e = ground arith

feed-next : (s s' : ParseState) (t : TokenType) (v : Bytes) → feed s t v ≡ next s' → t ≢ eof
feed-next s s' t v e same = feed-next_eof s s' v (subst (λ t. feed s t v ≡ next s') same e)

line_onto-token_line :
    (t : TokenType) (v rest : Bytes) → t ≢ eof → line_onto t v rest ≡ token_line t v ++ rest
line_onto-token_line eof v rest h = absurd (h refl)
line_onto-token_line _ v rest h = refl

-- The text ends in the line on a bad transition, from the state of the loop behind which the config
-- is left.
abbrev pub IsRefusal : Bytes → Config → Type 0
IsRefusal printed c =
    (before : Bytes) × (last : ParseState) × (t : TokenType) × (printed
      ≡ before ++ bad_transition last t)
    × (c ≡ out_config last)

IsRefusal-append :
    (first printed : Bytes) (c : Config) → IsRefusal printed c → IsRefusal (first ++ printed) c
IsRefusal-append first printed c (before, last, t, e, out) = (
  first ++ before,
  last,
  t,
  ap (λ text. first ++ text) e ∙ sym (append_assoc first before (bad_transition last t)),
  out,
)

module _ (fuel : ℕ) (rest : Bytes) (s : ParseState) (t : TokenType) (v : Bytes) where
  abbrev parses : ParseState → Parsed
  parses s = parse_loop fuel s rest

  abbrev prints : ParseState → Bytes
  prints s = print_loop fuel s rest

  print_behind-accepted :
      (c : Config) (r : Round)
      → feed s t v ≡ r
      → proceed parses r ≡ returned true c
      → ((s' : ParseState)
          → parses s' ≡ returned true c
          → prints s' ≡ gather_of line_onto [] fuel rest)
      → token_line t v ++ print_behind prints t r ≡ line_onto t v (gather_of line_onto [] fuel rest)
  print_behind-accepted c (next s') is e ih =
      ap (λ text. token_line t v ++ text) (ih s' e)
      ∙ sym (line_onto-token_line t v _ (feed-next s s' t v is))
  print_behind-accepted c (break s') is e ih = cc
  print_behind-accepted c (accept s') is e ih =
      rw (feed-accept s' s t v is) (append-nil (token_line eof v))
  print_behind-accepted c undefined is e ih = cc

  print_behind-refused :
      (c : Config) (r : Round)
      → proceed parses r ≡ returned false c
      → ((s' : ParseState) → parses s' ≡ returned false c → IsRefusal (prints s') c)
      → IsRefusal (token_line t v ++ print_behind prints t r) c
  print_behind-refused c (next s') e ih = IsRefusal-append (token_line t v) (prints s') c (ih s' e)
  print_behind-refused c (break s') e ih =
      let same : c ≡ out_config s' = cc in (token_line t v, s', t, refl, same)
  print_behind-refused c (accept s') e ih = cc
  print_behind-refused c undefined e ih = cc

print_loop-accepted :
    (fuel : ℕ) (s : ParseState) (input : Bytes) (c : Config)
    → parse_loop fuel s input ≡ returned true c
    → print_loop fuel s input ≡ gather_of line_onto [] fuel input
unfolding parse_loop print_loop gather_of
print_loop-accepted zero s input c e = cc
print_loop-accepted (suc fuel) s input c e =
    let t = parse_token input in
    print_behind-accepted fuel t.rest s t.token_type t.value c (feed s t.token_type t.value) refl e
      (λ s' e'. print_loop-accepted fuel s' t.rest c e')

print_loop-refused :
    (fuel : ℕ) (s : ParseState) (input : Bytes) (c : Config)
    → parse_loop fuel s input ≡ returned false c
    → IsRefusal (print_loop fuel s input) c
unfolding parse_loop print_loop
print_loop-refused zero s input c e = cc
print_loop-refused (suc fuel) s input c e =
    let t = parse_token input in
    print_behind-refused fuel t.rest s t.token_type t.value c (feed s t.token_type t.value) e
      (λ s' e'. print_loop-refused fuel s' t.rest c e')

-- Where `Parse` returns true it has printed a line for each token of the input, comments and the
-- end of the file among them.
pub print_parse-accepted :
    (input : Bytes) (c out : Config)
    → parse input c ≡ returned true out
    → print_parse input c ≡ gather line_onto [] input
unfolding parse print_parse gather
print_parse-accepted input c out e =
    print_loop-accepted (suc (length input)) (initial c) input out e

-- Where `Parse` returns false, the last line that it has printed is that of a bad transition, and
-- the config is what the loop had read by then.
pub print_parse-refused :
    (input : Bytes) (c out : Config)
    → parse input c ≡ returned false out
    → IsRefusal (print_parse input c) out
unfolding parse print_parse
print_parse-refused input c out e = print_loop-refused (suc (length input)) (initial c) input out e
