-- ===== src/Codegen/Compile.antt =====
-- The code of a term as a recursion on the term, with no stack and no patching.
use u6a.Base.{
  ℕ, suc, ◌+◌, Bool, true, false, not, ◌&&◌, List, [], ◌∷◌, ◌++◌, length, map, ltb, ◌==◌,
  if◌then◌else◌,
}
use u6a.Defs.{Token, token}
use u6a.Defs.TokenFn
use u6a.Parser.Term.{Term, leaf, app, root}
use u6a.VmDefs.{offset, VmIns, vm_ins, no_token}
use u6a.VmDefs.Opcode
use u6a.Codegen.{app_ins, la_ins, lc_ins}

abbrev pub is_app : Term → Bool
is_app (leaf t) = false
is_app (app ch l r) = true

-- The printing functions that are applied to the result of a term, the innermost first.
abbrev pub prints : List ℕ → List VmIns
prints = map (λ c. app_ins (token TokenFn.out c) no_token)

-- Whether two leaves below `n` printing functions make a constant string.
abbrev pub makes_string : Bool → ℕ → Token → Bool
makes_string o n l = (o && l.fn == TokenFn.out) && not (ltb (suc n) 4)

-- The constants of a term below the printing functions `c`.
unfoldable pub constants : Bool → List ℕ → Term → List ℕ
constants o c (leaf t) = []
constants o c (app ch l r) =
    let below = constants o ((root l).ch ∷ c) r in
    let fresh = constants o [] r in
    let first = constants o [] l in
    if is_app l
    then (if is_app r then first ++ fresh else first)
    else if is_app r
    then (if (root l).fn == TokenFn.d
        then fresh
        else if (root l).fn == TokenFn.out
        then below
        else fresh)
    else if makes_string o (length c) (root l)
    then (root l).ch ∷ c ++ 0 ∷ []
    else []

-- The code of an application below the printing functions `c`, at position `p` of the text and with
-- `q` bytes of constants before it. A leaf has none.
unfoldable pub code : Bool → (p q : ℕ) → List ℕ → Term → List VmIns
unfolding constants
code o p q c (leaf t) = []
code o p q c (app ch l r) =
    let first = code o p q [] l in
    let second = code o (suc (p + length first)) (q + length (constants o [] l)) [] r in
    let only = code o p q [] r in
    let behind = code o (suc p) q [] r in
    let below = code o p q ((root l).ch ∷ c) r in
    if is_app l
    then (if is_app r
        then first
          ++ (vm_ins Opcode.sa (offset (p + length first + length second + 2))
              ∷ (second ++ la_ins ∷ prints c))
        else first ++ app_ins no_token (root r) ∷ prints c)
    else if is_app r
    then (if (root l).fn == TokenFn.d
        then vm_ins Opcode.del (offset (p + length behind + 2)) ∷ (behind ++ la_ins ∷ prints c)
        else if (root l).fn == TokenFn.out
        then below
        else only ++ app_ins (root l) no_token ∷ prints c)
    else if makes_string o (length c) (root l)
    then lc_ins q ∷ app_ins no_token (root r) ∷ []
    else app_ins (root l) (root r) ∷ prints c
