-- ===== src/Config.antt =====
-- include/config_parser.h, `NginxConfig` and `NginxConfigStatement`; their `ToString` and `Reset`
-- in src/config_parser.cc. A statement whose `child_block_` is null is `line`, one with a child
-- block is `block`; `statements_` is the list `Config`. The vector's pointers are owned by one
-- vector each, so a statement is a value here.
pub mod Back
use https_server.Prelude.{ℕ, zero, suc, ◌+◌, List, [], ◌∷◌, ◌++◌, Option, none, some, Bytes}

mutual
  pub data Statement : Type 0 where
    line : List Bytes → Statement
    block : List Bytes → Config → Statement

  pub data Config : Type 0 where
    nil : Config
    cons : Statement → Config → Config

-- The member `tokens_`.
abbrev pub tokens : Statement → List Bytes
tokens (line ts) = ts
tokens (block ts child) = ts

-- The member `child_block_`.
abbrev pub child_block : Statement → Option Config
child_block (line ts) = none
child_block (block ts child) = some child

-- for (int i = 0; i < depth; ++i) append("  ");
abbrev pub indent : ℕ → Bytes
indent zero = []
indent (suc depth) = b' ' ∷ b' ' ∷ indent depth

-- The tokens behind the first: each with a space before it.
abbrev pub spaced : List Bytes → Bytes
spaced [] = []
spaced (t ∷ ts) = b' ' ∷ (t ++ spaced ts)

-- The loop over `tokens_`.
abbrev pub joined : List Bytes → Bytes
joined [] = []
joined (t ∷ ts) = t ++ spaced ts

unfoldable mutual
  pub statement_to_string : ℕ → Statement → Bytes
  statement_to_string depth (line ts) = indent depth ++ (joined ts ++ (b';' ∷ b'\n' ∷ []))
  statement_to_string depth (block ts child) =
      indent depth
      ++ (joined ts
          ++ (b' '
              ∷ b'{'
              ∷ b'\n'
              ∷ (to_string (depth + 1) child ++ (indent depth ++ (b'}' ∷ b'\n' ∷ [])))))

  pub to_string : ℕ → Config → Bytes
  to_string depth nil = []
  to_string depth (cons s rest) = statement_to_string depth s ++ to_string depth rest

-- `Reset`.
abbrev pub reset : Config → Config
reset config = nil

-- `statements_.emplace_back(s)`.
unfoldable pub emplace_back : Config → Statement → Config
emplace_back nil s = cons s nil
emplace_back (cons x rest) s = cons x (emplace_back rest s)

-- A write through `statements_.back()`; `none` is the undefined behaviour of `back()` on an empty
-- vector.
unfoldable pub update_back : (Statement → Statement) → Config → Option Config
update_back f nil = none
update_back f (cons x nil) = some (cons (f x) nil)
update_back f (cons x (cons y rest)) = elim (update_back f (cons y rest)) [
  | none ↦ none
  | some rest' ↦ some (cons x rest')
]

-- `tokens_.push_back(token)`.
abbrev pub push_token : Bytes → Statement → Statement
push_token token (line ts) = line (ts ++ token ∷ [])
push_token token (block ts child) = block (ts ++ token ∷ []) child

-- `child_block_.reset(child)`, and, as the child is a value here, every later write to it.
abbrev pub set_child : Config → Statement → Statement
set_child child s = block (tokens s) child
