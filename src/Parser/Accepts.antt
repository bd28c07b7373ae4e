-- ===== src/Parser/Accepts.antt =====
-- The parser on the tokens of a term.
use u6a.Base.{
  ℕ, zero, suc, ◌+◌, ◌/◌, ◌^◌, ◌<◌, ◌≡◌, refl, ap, true, List, [], ◌∷◌, ◌++◌, ok, length, replicate,
  append-nil, arith,
}
use u6a.Defs.{Token, token, AstNode, ast_node, blank, Memory}
use u6a.Defs.TokenFn
use u6a.Parser.{parse_state, parse_loop, finish, guarded, ast_size, pstack_size, parse}
use u6a.Parser.Term.{Term, leaf, app, IsWellFormed, args, flatten, width, encode, body, length-args}
use u6a.Parser.Fill.{blanks, step_right, loop-args}

pub replicate-append :
    (a b : ℕ) {c : ℕ}
    → c ≡ a + b
    → replicate {A = AstNode} c blank ≡ replicate a blank ++ replicate b blank
replicate-append zero b e =
    rw e (ap (λ j. replicate j blank) (let q : 0 + b ≡ b = omega arith in q))
replicate-append (suc a) b e =
    rw (e, let q : suc a + b ≡ suc (a + b) = omega arith in q)
      (ap (λ l. blank ∷ l) (replicate-append a b refl))

pub blanks-replicate : (t : Term) → replicate (width t) blank ≡ blanks t
blanks-replicate (leaf t) = refl
blanks-replicate (app ch l r) =
    rw (
      replicate-append (suc (width l)) (suc (width r)) refl,
      blanks-replicate l,
      blanks-replicate r,
    )

pub guarded-cons :
    (len : ℕ)
    → len + 2 < 2 ^ 29
    → guarded len
      ≡ ast_node (token TokenFn.app 0) 0 ∷ ast_node (token TokenFn.e 0) 2 ∷ replicate len blank
unfolding guarded
guarded-cons len h = rw (let q : ast_size len / 8 ≡ suc (suc len) = omega arith in q)

-- The nodes of the whole program: `e` applied to the term.
abbrev pub tree : Term → List AstNode
tree t = encode 0 0 (app 0 (leaf (token TokenFn.e 0)) t)

pub loop-flatten :
    (t : Term) (Z : List AstNode) (rest : List Token)
    → IsWellFormed t
    → parse_loop 0 (flatten t ++ rest) (
        parse_state
          (ast_node (token TokenFn.app 0) 0
            ∷ ast_node (token TokenFn.e 0) 2
            ∷ blank
            ∷ (blanks t ++ Z))
          (0 ∷ []))
      ≡ parse_loop (1 + width t) rest (parse_state (tree t ++ Z) [])
unfolding parse_loop
loop-flatten t Z rest w =
    rw
      (step_right 0 t (ast_node (token TokenFn.app 0) 0 ∷ []) [] (blanks t ++ Z) (token TokenFn.e 0)
        2 [] 0 w (omega arith) (omega arith) (omega arith))
      (loop-args t 1 2 (ast_node (token TokenFn.app 0) 0 ∷ ast_node (token TokenFn.e 0) 2 ∷ []) Z []
        rest w refl refl)

loop-whole :
    (t : Term)
    → IsWellFormed t
    → parse_loop 0 (flatten t) (
        parse_state
          (ast_node (token TokenFn.app 0) 0 ∷ ast_node (token TokenFn.e 0) 2 ∷ blank ∷ blanks t)
          (0 ∷ []))
      ≡ ok (parse_state (tree t) [])
unfolding parse_loop
loop-whole t w =
    rw (append-nil (args t), append-nil (blanks t), append-nil (body 2 t)) at
      (loop-flatten t [] [] w)

-- The tokens of a term are parsed to the nodes, in pre-order, of `e` applied to that term, each left
-- child with the index of its right sibling, if the term is well formed and shorter than the limit
-- of a 32-bit array size, and the two allocations are granted.
pub parse-flatten :
    (m : Memory) (t : Term)
    → IsWellFormed t
    → length (flatten t) + 2 < 2 ^ 29
    → m.grants (ast_size (length (flatten t))) ≡ true
    → m.grants (pstack_size (length (flatten t))) ≡ true
    → parse m (flatten t) ≡ ok (tree t)
unfolding parse finish
parse-flatten m t w h ga gp =
    rw (
      ga,
      gp,
      guarded-cons (length (flatten t)) h,
      length-args t,
      blanks-replicate t,
      loop-whole t w,
    )
