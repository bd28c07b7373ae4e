-- ===== src/Parser.antt =====
-- parser.c: from the token array to the syntax tree in pre-order.
mod Tests
pub mod Term
pub mod Fill
pub mod Accepts
pub mod Cut
pub mod Decides
use u6a.Base.{
  ℕ, ◌+◌, ◌*◌, ◌/◌, List, [], ◌∷◌, length, get_or, modify, replicate, Result, ok, err, ◌>>=◌, ◌==◌,
  if◌then◌else◌, u32,
}
use u6a.Defs.{Token, token, AstNode, ast_node, blank, Memory}
use u6a.Defs.TokenFn

pub data ParseError : Type 0 where
  bad_alloc : ℕ → ParseError
  bad_syntax : ParseError

-- The nodes and the stack of the applications that still lack a child, last pushed first. Where the
-- source has `pstack_idx == UINT32_MAX`, the stack is empty.
pub record ParseState : Type 0 where
  pub ast : List AstNode
  pub pstack : List ℕ

abbrev pub parse_state : List AstNode → List ℕ → ParseState
parse_state a p = record { ast = a; pstack = p }

abbrev pub node_at : List AstNode → ℕ → AstNode
node_at ast i = get_or ast i blank

abbrev pub set_value : Token → AstNode → AstNode
set_value t n = record n { value = t }

abbrev pub set_sibling : ℕ → AstNode → AstNode
set_sibling s n = record n { sibling = s }

-- The end of a round: `child` receives the token, and is pushed if it is an application.
pub place : Token → ℕ → ParseState → ParseState
place t child st =
    parse_state (modify st.ast child (set_value t))
      (if t.fn == TokenFn.app then child ∷ st.pstack else st.pstack)

-- One round of the loop of `u6a_parse`, given the stack.
unfoldable pub parse_step : ℕ → Token → List AstNode → List ℕ → Result ParseError ParseState
unfolding place
parse_step idx t ast [] = err bad_syntax
parse_step idx t ast (top ∷ below) =
    if (node_at ast (top + 1)).value.fn == 0
    then ok (place t (top + 1) (parse_state ast (top ∷ below)))
    else (let ast' = modify ast (top + 1) (set_sibling (idx + 2)) in
        ok (place t (node_at ast' (top + 1)).sibling (parse_state ast' below)))

pub parse_loop : ℕ → List Token → ParseState → Result ParseError ParseState
parse_loop idx [] st = ok st
parse_loop idx (t ∷ ts) st = parse_step idx t st.ast st.pstack >>= parse_loop (idx + 1) ts

-- The test after the loop.
pub finish : ParseState → Result ParseError (List AstNode)
finish st = elim st.pstack [ [] ↦ ok st.ast | _ ↦ err bad_syntax ]

-- The bytes of the node array, as the source computes them.
abbrev pub ast_size : ℕ → ℕ
ast_size token_len = u32 ((token_len + 2) * 8)

abbrev pub pstack_size : ℕ → ℕ
pstack_size token_len = u32 ((token_len + 1) * 8)

-- The array with the guard: an application of `e`.
pub guarded : ℕ → List AstNode
guarded token_len =
    modify (modify (replicate (ast_size token_len / 8) blank) 0 (set_value (token TokenFn.app 0))) 1
      (λ _. ast_node (token TokenFn.e 0) 2)

-- Where an error is returned the source frees both arrays.
pub parse : Memory → List Token → Result ParseError (List AstNode)
parse m ts =
    if m.grants (ast_size (length ts))
    then (if m.grants (pstack_size (length ts))
        then (parse_loop 0 ts (parse_state (guarded (length ts)) (0 ∷ [])) >>= finish)
        else err (bad_alloc (pstack_size (length ts))))
    else err (bad_alloc (ast_size (length ts)))
