-- ===== src/Codegen/Visit.antt =====
-- The loop over the nodes of a term, and a recursion on the term.
use mathlib.Core.Path.{◌≡⟨◌⟩◌, ◌∎}
use u6a.Base.{
  ℕ, suc, ◌+◌, ◌≡◌, refl, ap, sym, ◌∙◌, Bool, List, [], ◌∷◌, ◌++◌, length, length-append,
  append_assoc, append-nil, get_or-append, arith, ne→==,
}
use u6a.Defs.{token, AstNode, ast_node, blank}
use u6a.Defs.TokenFn
use u6a.Parser.Term.{Term, leaf, app, IsWellFormed, root, width, body, encode, length-body}
use u6a.Codegen.{CodegenState, codegen_state, visit, node_at, codegen_step, codegen_loop, generate}

-- What the nodes of a term do to the state.
unfoldable pub gen : Bool → Term → CodegenState → CodegenState
gen o (leaf t) st = st
gen o (app ch l r) st = gen o r (gen o l (visit o (root l) (root r) st))

loop-gen :
    (o : Bool) (t : Term) (s n k : ℕ) {j : ℕ} (ast D Z : List AstNode) (st : CodegenState)
    → IsWellFormed t
    → ast ≡ D ++ ast_node (root t) s ∷ (body n t ++ Z)
    → n ≡ length D
    → j ≡ suc (width t) + k
    → codegen_loop o ast j n st ≡ codegen_loop o ast k (n + suc (width t)) (gen o t st)
unfolding codegen_loop codegen_step gen
loop-gen o (leaf t) s n k ast D Z st w e h f =
    let here : node_at ast n ≡ ast_node t s = rw e (get_or-append D Z (ast_node t s) blank h) in
    rw (f, let q : suc 0 + k ≡ suc k = omega arith in q, here, ne→== t.fn TokenFn.app w.1)
loop-gen o (app ch l r) s n k {j} ast D Z st w e h f =
    let top : AstNode = ast_node (token TokenFn.app ch) s in
    let m : ℕ = n + 2 + width l in
    let left : List AstNode = ast_node (root l) m ∷ body (n + 1) l in
    let behind : List AstNode = ast_node (root r) 0 ∷ (body m r ++ Z) in
    let e1 : ast ≡ (D ++ top ∷ []) ++ ast_node (root l) m ∷ (body (n + 1) l ++ behind) =
      e
      ∙ rw (
        append_assoc D (top ∷ []) (left ++ behind),
        append_assoc (body (n + 1) l) (ast_node (root r) 0 ∷ body m r) Z,
      ) in
    let e2 : ast ≡ (D ++ top ∷ left) ++ behind =
      e
      ∙ rw (
        append_assoc D (top ∷ left) behind,
        append_assoc (body (n + 1) l) (ast_node (root r) 0 ∷ body m r) Z,
      ) in
    let h1 : n + 1 ≡ length (D ++ top ∷ []) = omega (arith, length-append {0} D (top ∷ [])) in
    let h2 : m ≡ length (D ++ top ∷ left) =
      omega (arith, length-append {0} D (top ∷ left), length-body (n + 1) l) in
    let at_n : node_at ast n ≡ top =
      rw e (get_or-append D (body n (app ch l r) ++ Z) top blank h) in
    let at_left : node_at ast (n + 1) ≡ ast_node (root l) m =
      rw e1
        (get_or-append (D ++ top ∷ []) (body (n + 1) l ++ behind) (ast_node (root l) m) blank h1) in
    let at_right : node_at ast m ≡ ast_node (root r) 0 =
      rw e2 (get_or-append (D ++ top ∷ left) (body m r ++ Z) (ast_node (root r) 0) blank h2) in
    let st1 : CodegenState = visit o (root l) (root r) st in
    let step : codegen_step o ast n st ≡ st1 = rw (at_n, at_left, at_right) in
    codegen_loop o ast j n st
    ≡⟨ (rw (let q : j ≡ suc (suc (width l) + (suc (width r) + k)) = omega arith in q)
        (ap (codegen_loop o ast (suc (width l) + (suc (width r) + k)) (n + 1)) step)) ⟩
      codegen_loop o ast (suc (width l) + (suc (width r) + k)) (n + 1) st1
    ≡⟨ loop-gen o l m (n + 1) (suc (width r) + k) ast (D ++ top ∷ []) behind st1 w.0 e1 h1 refl ⟩
      codegen_loop o ast (suc (width r) + k) (n + 1 + suc (width l)) (gen o l st1)
    ≡⟨ (rw (let q : n + 1 + suc (width l) ≡ m = omega arith in q)) ⟩
      codegen_loop o ast (suc (width r) + k) m (gen o l st1)
    ≡⟨ loop-gen o r 0 m k ast (D ++ top ∷ left) Z (gen o l st1) w.1 e2 h2 refl ⟩
      codegen_loop o ast k (m + suc (width r)) (gen o r (gen o l st1))
    ≡⟨ (rw
        (let q : m + suc (width r) ≡ n + suc (suc (width l) + suc (width r)) = omega arith in q)) ⟩
      codegen_loop o ast k (n + suc (width (app ch l r))) (gen o (app ch l r) st) ∎

pub generate-gen :
    (o : Bool) (t : Term)
    → IsWellFormed t
    → generate o (encode 0 0 t) ≡ gen o t (codegen_state [] [] [])
unfolding generate codegen_loop
generate-gen o t w =
    rw (let q : length (encode 0 0 t) ≡ suc (width t) + 0 = omega (arith, length-body 0 t) in q) (
      loop-gen o t 0 0 0 (encode 0 0 t) [] [] (codegen_state [] [] []) w
        (ap (λ b. ast_node (root t) 0 ∷ b) (sym (append-nil (body 0 t)))) refl refl)
