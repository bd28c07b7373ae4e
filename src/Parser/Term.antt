-- ===== src/Parser/Term.antt =====
-- What source code stands for, and its two linear forms: the tokens, and the nodes in pre-order.
use u6a.Base.{ℕ, suc, ◌+◌, ◌≡◌, ◌≢◌, refl, List, [], ◌∷◌, ◌++◌, length, length-append, arith}
use u6a.Defs.{Token, token, AstNode, ast_node}
use u6a.Defs.TokenFn

-- An application keeps the byte that its token holds in `ch`.
pub data Term : Type 0 where
  leaf : Token → Term
  app : ℕ → Term → Term → Term

-- Only an application has the function `` ` ``, and no token has function 0.
abbrev pub IsWellFormed : Term → Type 0
IsWellFormed (leaf t) = (t.fn ≢ TokenFn.placeholder) × (t.fn ≢ TokenFn.app)
IsWellFormed (app ch l r) = IsWellFormed l × IsWellFormed r

-- The first token, and the tokens behind it.
abbrev pub root : Term → Token
root (leaf t) = t
root (app ch l r) = token TokenFn.app ch

abbrev pub args : Term → List Token
args (leaf t) = []
args (app ch l r) = root l ∷ args l ++ root r ∷ args r

abbrev pub flatten : Term → List Token
flatten t = root t ∷ args t

-- The number of tokens behind the first.
abbrev pub width : Term → ℕ
width (leaf t) = 0
width (app ch l r) = suc (width l) + suc (width r)

-- The nodes behind that of the root, which stands at index `n`.
abbrev pub body : ℕ → Term → List AstNode
body n (leaf t) = []
body n (app ch l r) =
    ast_node (root l) (n + 2 + width l) ∷ body (n + 1) l
    ++ ast_node (root r) 0 ∷ body (n + 2 + width l) r

-- The nodes of a term at index `n`; the root's sibling is `s`.
abbrev pub encode : ℕ → ℕ → Term → List AstNode
encode s n t = ast_node (root t) s ∷ body n t

pub length-body : (n : ℕ) (t : Term) → length (body n t) ≡ width t
length-body n (leaf t) = refl
length-body n (app ch l r) = omega (
  arith,
  length-append {0} (body (n + 1) l) (ast_node (root r) 0 ∷ body (n + 2 + width l) r),
  length-body (n + 1) l,
  length-body (n + 2 + width l) r,
)

pub length-args : (t : Term) → length (args t) ≡ width t
length-args (leaf t) = refl
length-args (app ch l r) =
    omega (arith, length-append {0} (args l) (root r ∷ args r), length-args l, length-args r)

pub root-ne-placeholder : (t : Term) → IsWellFormed t → (root t).fn ≢ TokenFn.placeholder
root-ne-placeholder (leaf t) w = w.0
root-ne-placeholder (app ch l r) w = omega arith
