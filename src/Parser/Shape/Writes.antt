-- ===== src/Parser/Shape/Writes.antt =====
-- Writes of `Parse` of src/config_parser.cc to the configs on its stack.
use https_server.Prelude.{◌≡◌, subst, List, [], ◌∷◌, none, some, Bytes, All, Option-cases, inl, inr}
use https_server.Config.{
  Statement, line, block, Config, nil, cons, update_back, push_token, set_child,
}
use https_server.Parser.Grammar.{StatementIsWellFormed, IsWellFormed}
use https_server.Parser.{ParseState, Round, next, break, accept, write_back, pop_config, close_all}

-- A write through `back()` that keeps the shape of a statement.
pub update_back-IsWellFormed :
    (f : Statement → Statement) (c c' : Config)
    → ((s : Statement) → StatementIsWellFormed s → StatementIsWellFormed (f s))
    → IsWellFormed c
    → update_back f c ≡ some c'
    → IsWellFormed c'
unfolding update_back IsWellFormed
update_back-IsWellFormed f nil c' keep h e = absurd (cc)
update_back-IsWellFormed f (cons x nil) c' keep h e =
    let same : cons (f x) nil ≡ c' = cc in subst IsWellFormed same (keep x h.0, tt)
update_back-IsWellFormed f (cons x (cons y rest)) c' keep h e =
    elim (Option-cases (update_back f (cons y rest))) [
      | inl n ↦ let nothing : none ≡ some c' = rw (n, update_back) at e in absurd (cc)
      | inr (r, found) ↦
          let result : some (cons x r) ≡ some c' = rw (found, update_back) at e in
          let same : cons x r ≡ c' = cc in
          subst IsWellFormed same (h.0, update_back-IsWellFormed f (cons y rest) r keep h.1 found)
    ]

pub push_token-IsWellFormed :
    (v : Bytes) (s : Statement) → StatementIsWellFormed s → StatementIsWellFormed (push_token v s)
unfolding StatementIsWellFormed
push_token-IsWellFormed v (line []) h = λ e. cc
push_token-IsWellFormed v (line (t ∷ ts)) h = λ e. cc
push_token-IsWellFormed v (block [] child) h = (λ e. cc, h.1)
push_token-IsWellFormed v (block (t ∷ ts) child) h = (λ e. cc, h.1)

pub set_child-IsWellFormed :
    (child : Config) (s : Statement)
    → IsWellFormed child
    → StatementIsWellFormed s
    → StatementIsWellFormed (set_child child s)
unfolding StatementIsWellFormed
set_child-IsWellFormed child (line ts) k h = (h, k)
set_child-IsWellFormed child (block ts c) k h = (h.0, k)

-- Every config on the stack has the shape.
abbrev pub StateIsWellFormed : ParseState → Type 0
StateIsWellFormed s = IsWellFormed s.top × All IsWellFormed s.under

abbrev pub RoundIsWellFormed : Round → Type 0
RoundIsWellFormed (next s) = StateIsWellFormed s
RoundIsWellFormed (break s) = StateIsWellFormed s
RoundIsWellFormed (accept s) = StateIsWellFormed s
RoundIsWellFormed Round.undefined = Unit

pub write_back-IsWellFormed :
    (f : Statement → Statement) (s : ParseState) (k : ParseState → Round)
    → ((x : Statement) → StatementIsWellFormed x → StatementIsWellFormed (f x))
    → StateIsWellFormed s
    → ((s' : ParseState) → StateIsWellFormed s' → RoundIsWellFormed (k s'))
    → RoundIsWellFormed (write_back f s k)
unfolding write_back
write_back-IsWellFormed f s k keep h then = elim (Option-cases (update_back f s.top)) [
  | inl e ↦ rw (e, write_back) tt
  | inr (top, e) ↦
      rw (e, write_back)
        (then (record s { top = top }) (update_back-IsWellFormed f s.top top keep h.0 e, h.1))
]

pub pop_config-IsWellFormed :
    (top : Config) (under : List Config) (p : Config) (rest : List Config)
    → IsWellFormed top
    → All IsWellFormed under
    → pop_config top under ≡ some (p, rest)
    → IsWellFormed p × All IsWellFormed rest
unfolding pop_config
pop_config-IsWellFormed top [] p rest h k e = absurd (cc)
pop_config-IsWellFormed top (q ∷ under) p rest h (hq, k) e =
    elim (Option-cases (update_back (set_child top) q)) [
      | inl n ↦
          let nothing : none ≡ some (p, rest) = rw (n, pop_config) at e in absurd (cc (nothing))
      | inr (q', found) ↦
          let result : some (q', under) ≡ some (p, rest) = rw (found, pop_config) at e in
          let same : q' ≡ p = cc (result) in
          let others : under ≡ rest = cc (result) in
          (
            subst IsWellFormed same (
                update_back-IsWellFormed (set_child top) q q' (λ x. set_child-IsWellFormed top x h)
                  hq found),
            subst (All IsWellFormed) others k,
          )
    ]

pub close_all-IsWellFormed :
    (top : Config) (under : List Config)
    → IsWellFormed top
    → All IsWellFormed under
    → IsWellFormed (close_all top under)
unfolding close_all
close_all-IsWellFormed top [] h k = h
close_all-IsWellFormed top (p ∷ under) h (hp, k) =
    elim (Option-cases (update_back (set_child top) p)) [
      | inl e ↦ rw (e, close_all) (close_all-IsWellFormed p under hp k)
      | inr (p', e) ↦
          rw (e, close_all)
            (close_all-IsWellFormed p' under
              (update_back-IsWellFormed (set_child top) p p' (λ x. set_child-IsWellFormed top x h)
                hp e)
              k)
    ]
