-- ===== src/Parser/Fill.antt =====
-- The loop of the parser on the tokens of one term.
use mathlib.Core.Path.{◌≡⟨◌⟩◌, ◌∎}
use u6a.Base.{
  ℕ, suc, ◌+◌, ◌≡◌, ◌≢◌, ap, List, [], ◌∷◌, ◌++◌, ok, length, length-append, get_or-append,
  modify-append, append_assoc, arith, ne→==,
}
use u6a.Defs.{Token, token, AstNode, ast_node, blank}
use u6a.Defs.TokenFn
use u6a.Parser.{parse_state, set_value, set_sibling, place, parse_step, parse_loop}
use u6a.Parser.Term.{
  Term, leaf, app, IsWellFormed, root, args, width, body, length-body, root-ne-placeholder,
}

-- The blank nodes behind that of the root.
abbrev pub blanks : Term → List AstNode
blanks (leaf t) = []
blanks (app ch l r) = blank ∷ blanks l ++ blank ∷ blanks r

-- The stack when the root of a term stands at index `n`.
abbrev pub pushed : Term → ℕ → List ℕ → List ℕ
pushed (leaf t) n P = P
pushed (app ch l r) n P = n ∷ P

place-root :
    (t : Term) (D X : List AstNode) (P : List ℕ) {n : ℕ}
    → IsWellFormed t
    → n ≡ length D
    → place (root t) n (parse_state (D ++ blank ∷ X) P)
      ≡ parse_state (D ++ ast_node (root t) 0 ∷ X) (pushed t n P)
unfolding place
place-root (leaf t) D X P w e =
    rw (modify-append D X blank (set_value t) e, ne→== t.fn TokenFn.app w.1)
place-root (app ch l r) D X P w e =
    rw (modify-append D X blank (set_value (token TokenFn.app ch)) e)

-- The node behind the top of the stack is blank: it is the left child.
pub step_left :
    (i : ℕ) (t : Term) (E X : List AstNode) (P : List ℕ) (n : ℕ)
    → IsWellFormed t
    → n + 1 ≡ length E
    → parse_step i (root t) (E ++ blank ∷ X) (n ∷ P)
      ≡ ok (parse_state (E ++ ast_node (root t) 0 ∷ X) (pushed t (n + 1) (n ∷ P)))
unfolding parse_step
step_left i t E X P n w e =
    rw (get_or-append E X blank blank e) (ap ok (place-root t E X (n ∷ P) w e))

-- The left child is there, and `B` behind it: the next node is the right child.
pub step_right :
    (i : ℕ) (t : Term) (E B X : List AstNode) (v : Token) (s : ℕ) (P : List ℕ) (n : ℕ)
    → IsWellFormed t
    → v.fn ≢ TokenFn.placeholder
    → n + 1 ≡ length E
    → i + 2 ≡ length E + suc (length B)
    → parse_step i (root t) (E ++ ast_node v s ∷ (B ++ blank ∷ X)) (n ∷ P)
      ≡ ok (
          parse_state
            (E ++ ast_node v (i + 2) ∷ (B ++ ast_node (root t) 0 ∷ X))
            (pushed t (i + 2) P))
unfolding parse_step
step_right i t E B X v s P n w ne e f =
    rw
      (
        get_or-append E (B ++ blank ∷ X) (ast_node v s) blank e,
        ne→== v.fn 0 ne,
        modify-append E (B ++ blank ∷ X) (ast_node v s) (set_sibling (i + 2)) e,
        get_or-append E (B ++ blank ∷ X) (ast_node v (i + 2)) blank e,
      )
      (ap ok (
        rw
          (
            ← append_assoc E (ast_node v (i + 2) ∷ B) (blank ∷ X),
            ← append_assoc E (ast_node v (i + 2) ∷ B) (ast_node (root t) 0 ∷ X),
          )
          (place-root t (E ++ ast_node v (i + 2) ∷ B) X P w
            (omega (arith, f, length-append {0} E (ast_node v (i + 2) ∷ B))))))

-- After the root of `t` is in place, the loop takes the other tokens of `t` and writes its nodes.
pub loop-args :
    (t : Term) (i n : ℕ) (D Z : List AstNode) (P : List ℕ) (rest : List Token)
    → IsWellFormed t
    → n ≡ length D
    → i + 1 ≡ n
    → parse_loop i
        (args t ++ rest)
        (parse_state (D ++ ast_node (root t) 0 ∷ (blanks t ++ Z)) (pushed t n P))
      ≡ parse_loop (i + width t) rest (parse_state (D ++ ast_node (root t) 0 ∷ (body n t ++ Z)) P)
unfolding parse_loop
loop-args (leaf t) i n D Z P rest w e f =
    ap (λ j. parse_loop j rest (parse_state (D ++ ast_node t 0 ∷ Z) P))
      (let q : i ≡ i + 0 = omega arith in q)
loop-args (app ch l r) i n D Z P rest w e f =
    let D' : List AstNode = D ++ ast_node (token TokenFn.app ch) 0 ∷ [] in
    let m : ℕ = n + 2 + width l in
    let below : List AstNode = blank ∷ (blanks r ++ Z) in
    let left : List AstNode = ast_node (root l) m ∷ body (n + 1) l in
    let after : List Token = root r ∷ (args r ++ rest) in
    let i' : ℕ = i + 1 + width l in
    let ends : i' + 1 + width r ≡ i + (suc (width l) + suc (width r)) = omega arith in
    let q : i' + 2 ≡ m = omega arith in
    let e' : n + 1 ≡ length D' =
      omega (arith, length-append {0} D (ast_node (token TokenFn.app ch) 0 ∷ [])) in
    parse_loop i (args (app ch l r) ++ rest)
      (parse_state (D ++ ast_node (token TokenFn.app ch) 0 ∷ (blanks (app ch l r) ++ Z)) (n ∷ P))
    ≡⟨ (rw (
      append_assoc (blanks l) (blank ∷ blanks r) Z,
      append_assoc (args l) (root r ∷ args r) rest,
      ← append_assoc D (ast_node (token TokenFn.app ch) 0 ∷ []) (blank ∷ (blanks l ++ below)),
      step_left i l D' (blanks l ++ below) P n w.0 e',
    )) ⟩
      parse_loop (i + 1) (args l ++ after)
        (parse_state (D' ++ ast_node (root l) 0 ∷ (blanks l ++ below)) (pushed l (n + 1) (n ∷ P)))
    ≡⟨ loop-args l (i + 1) (n + 1) D' below (n ∷ P) after w.0 e' (omega arith) ⟩
      parse_loop (i + 1 + width l) after
        (parse_state (D' ++ ast_node (root l) 0 ∷ (body (n + 1) l ++ below)) (n ∷ P))
    ≡⟨ (rw (
      step_right i' r D' (body (n + 1) l) (blanks r ++ Z) (root l) 0 P n w.1
          (root-ne-placeholder l w.0) e' (omega (arith, e', f, length-body (n + 1) l)),
      q,
    )) ⟩
      parse_loop (i' + 1) (args r ++ rest) (
        parse_state
          (D' ++ ast_node (root l) m ∷ (body (n + 1) l ++ ast_node (root r) 0 ∷ (blanks r ++ Z)))
          (pushed r m P))
    ≡⟨ (rw (← append_assoc D' left (ast_node (root r) 0 ∷ (blanks r ++ Z)))) ⟩
      parse_loop (i' + 1) (args r ++ rest)
        (parse_state ((D' ++ left) ++ ast_node (root r) 0 ∷ (blanks r ++ Z)) (pushed r m P))
    ≡⟨ loop-args r (i' + 1) m (D' ++ left) Z P rest w.1
        (omega (arith, e', length-append {0} D' left, length-body (n + 1) l)) (omega arith) ⟩
      parse_loop (i' + 1 + width r) rest
        (parse_state ((D' ++ left) ++ ast_node (root r) 0 ∷ (body m r ++ Z)) P)
    ≡⟨ (rw (
      ends,
      append_assoc (body (n + 1) l) (ast_node (root r) 0 ∷ body m r) Z,
      append_assoc D' left (ast_node (root r) 0 ∷ (body m r ++ Z)),
      append_assoc D (ast_node (token TokenFn.app ch) 0 ∷ [])
          (left ++ ast_node (root r) 0 ∷ (body m r ++ Z)),
    )) ⟩
      parse_loop (i + width (app ch l r)) rest
        (parse_state (D ++ ast_node (token TokenFn.app ch) 0 ∷ (body n (app ch l r) ++ Z)) P) ∎
