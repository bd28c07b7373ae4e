-- ===== src/Parser/Decides.antt =====
-- Which token lists the parser accepts, and with what result.
use u6a.Base.{
  suc, ◌+◌, ◌<◌, ◌^◌, ◌≡◌, ◌≢◌, refl, ap, ◌∙◌, List, [], ◌∷◌, ◌++◌, ok, err, length, length-append,
  replicate, append-nil, arith, ◌⊎◌, inl, inr, true,
}
use u6a.Defs.{Token, token, ast_node, blank, Memory}
use u6a.Defs.TokenFn
use u6a.Parser.{
  bad_syntax, parse_state, parse_step, parse_loop, finish, ast_size, pstack_size, parse,
}
use u6a.Parser.Term.{Term, IsWellFormed, flatten, width, length-args}
use u6a.Parser.Accepts.{
  replicate-append, blanks-replicate, guarded-cons, tree, loop-flatten, parse-flatten,
}
use u6a.Parser.Cut.{Cut, Valid, split, right, loop-Cut}

abbrev pub Accepted : Memory → List Token → Type 0
Accepted m ts = (t : Term) × IsWellFormed t × (ts ≡ flatten t) × (parse m ts ≡ ok (tree t))

abbrev pub Refused : Memory → List Token → Type 0
Refused m ts = ((t : Term) → IsWellFormed t → ts ≢ flatten t) × (parse m ts ≡ err bad_syntax)

-- A token behind a whole term finds the stack empty.
loop-longer :
    (t : Term) (x : Token) (rest ts : List Token)
    → IsWellFormed t
    → ts ≡ flatten t ++ x ∷ rest
    → parse_loop 0 ts (
        parse_state
          (ast_node (token TokenFn.app 0) 0
            ∷ ast_node (token TokenFn.e 0) 2
            ∷ replicate (length ts) blank)
          (0 ∷ []))
      ≡ err bad_syntax
unfolding parse_loop parse_step
loop-longer t x rest ts w e =
    let count : length ts ≡ suc (width t) + suc (length rest) = omega (
      arith,
      ap (λ (q : List Token). length q) e,
      length-append {0} (flatten t) (x ∷ rest),
      length-args t,
    ) in
    rw (replicate-append (suc (width t)) (suc (length rest)) count, blanks-replicate t, e)
      (loop-flatten t (replicate (suc (length rest)) blank) (x ∷ rest) w)

module _ (m : Memory) (ts : List Token) (valid : Valid ts) (fits : length ts + 2 < 2 ^ 29)
    (ga : m.grants (ast_size (length ts)) ≡ true)
    (gp : m.grants (pstack_size (length ts)) ≡ true) where
  parse-Cut : Cut ts → parse m ts ≡ err bad_syntax
  unfolding parse finish
  parse-Cut c =
      let (ast, n, P, e) =
        loop-Cut c 0 (length ts)
          (right (ast_node (token TokenFn.app 0) 0 ∷ []) [] (token TokenFn.e 0) 2 0 [] (omega arith)
            refl refl refl)
          (omega arith) in
      rw (ga, gp, guarded-cons (length ts) fits, e)

  parse-longer :
      (t : Term) (x : Token) (rest : List Token)
      → IsWellFormed t
      → ts ≡ flatten t ++ x ∷ rest
      → parse m ts ≡ err bad_syntax
  unfolding parse finish
  parse-longer t x rest w e =
      rw (ga, gp, guarded-cons (length ts) fits, loop-longer t x rest ts w e)

  refuse : parse m ts ≡ err bad_syntax → Refused m ts
  refuse e = (
    λ t w p.
        let accepted : parse m ts ≡ ok (tree t) =
          rw p (parse-flatten m t w (rw p at fits) (rw p at ga) (rw p at gp)) in
        cc,
    e,
  )

  -- Given tokens whose function is not 0, fewer than the limit of a 32-bit array size, and the two
  -- allocations: either they are the tokens of a well-formed term, and the parser gives its nodes,
  -- or they are the tokens of no such term, and the parser reports bad syntax.
  pub parse-decides : Accepted m ts ⊎ Refused m ts
  parse-decides = elim (split (length ts) ts (omega arith) valid) [
    | inl c ↦ inr (refuse (parse-Cut c))
    | inr (t, [], w, e) ↦
        let p : ts ≡ flatten t = e ∙ append-nil (flatten t) in
        inl (t, w, p, rw p (parse-flatten m t w (rw p at fits) (rw p at ga) (rw p at gp)))
    | inr (t, x ∷ rest, w, e) ↦ inr (refuse (parse-longer t x rest w e))
  ]
