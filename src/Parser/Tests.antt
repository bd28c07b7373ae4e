-- ===== src/Parser/Tests.antt =====
-- The parser on small token lists, and its theorems at them.
use u6a.Base.{◌≡◌, refl, true, List, [], ◌∷◌, ◌⊎◌, Result, ok, err, arith}
use u6a.Defs.{Token, token, AstNode, ast_node, Memory}
use u6a.Defs.TokenFn
use u6a.Parser.{ParseError, bad_syntax, parse, parse_loop, parse_step, guarded, finish}
use u6a.Parser.Term.{Term, leaf, app, flatten}
use u6a.Parser.Accepts.{tree, parse-flatten}
use u6a.Parser.Decides.{Accepted, Refused, parse-decides}

abbrev memory : Memory
memory = record { grants = λ _. true; fill = λ i. 0 }

parsed : List Token → Result ParseError (List AstNode)
unfolding parse parse_loop parse_step guarded finish
parsed = parse memory

-- "``si.x"
abbrev sample : Term
sample =
    app 5 (app 6 (leaf (token TokenFn.s 0)) (leaf (token TokenFn.i 0)))
      (leaf (token TokenFn.out b'x'))

parsed-sample :
    parsed (flatten sample)
    ≡ ok (
        ast_node (token TokenFn.app 0) 0
        ∷ ast_node (token TokenFn.e 0) 2
        ∷ ast_node (token TokenFn.app 5) 0
        ∷ ast_node (token TokenFn.app 6) 6
        ∷ ast_node (token TokenFn.s 0) 5
        ∷ ast_node (token TokenFn.i 0) 0
        ∷ ast_node (token TokenFn.out b'x') 0
        ∷ [])
unfolding parsed
parsed-sample = refl

parsed-short : parsed (token TokenFn.app 0 ∷ token TokenFn.i 0 ∷ []) ≡ err bad_syntax
unfolding parsed
parsed-short = refl

parse-flatten_example : parse memory (flatten sample) ≡ ok (tree sample)
parse-flatten_example = parse-flatten memory sample (omega arith) (omega arith) refl refl

parse-decides_example :
    Accepted memory (token TokenFn.app 0 ∷ token TokenFn.i 0 ∷ [])
    ⊎ Refused memory (token TokenFn.app 0 ∷ token TokenFn.i 0 ∷ [])
parse-decides_example =
    parse-decides memory (token TokenFn.app 0 ∷ token TokenFn.i 0 ∷ []) (omega arith) (omega arith)
      refl refl
