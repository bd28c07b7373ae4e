-- ===== src/Defs.antt =====
-- defs.h: tokens and the nodes of the syntax tree.
pub mod TokenFn
use u6a.Base.{ℕ, Bool}

pub record Token : Type 0 where
  pub fn : ℕ
  pub ch : ℕ

abbrev pub token : ℕ → ℕ → Token
token f c = record { fn = f; ch = c }

-- `sibling` is the index of the right sibling of a left child, and otherwise 0.
pub record AstNode : Type 0 where
  pub value : Token
  pub sibling : ℕ

abbrev pub ast_node : Token → ℕ → AstNode
ast_node t s = record { value = t; sibling = s }

-- What `calloc` leaves in a node.
abbrev pub blank : AstNode
blank = ast_node (token 0 0) 0

-- What `malloc` and its kin do: which requests they grant, by size in bytes, and what the memory
-- they hand out holds in the `ch` of the token at an index.
pub record Memory : Type 0 where
  pub grants : ℕ → Bool
  pub fill : ℕ → ℕ
