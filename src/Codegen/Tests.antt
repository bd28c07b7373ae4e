-- ===== src/Codegen/Tests.antt =====
-- The generator on small terms, and its theorems at them.
use u6a.Base.{ℕ, ◌≤◌, ◌≡◌, refl, true, Bool, [], ◌∷◌, length, arith}
use u6a.Defs.{Token, token}
use u6a.Defs.TokenFn
use u6a.VmDefs.{offset, vm_ins, no_token}
use u6a.VmDefs.Opcode
use u6a.Parser.Term.{Term, leaf, app, encode}
use u6a.Parser.Accepts.{tree}
use u6a.Codegen.{
  CodegenState, codegen_state, app_ins, la_ins, lc_ins, generate, codegen_loop, codegen_step, visit,
}
use u6a.Codegen.Compile.{code, constants}
use u6a.Codegen.Correct.{generate-code}
use u6a.Codegen.Bounds.{generate-fits, EndsProgram, generate-EndsProgram}

generated : Bool → Term → CodegenState
unfolding generate codegen_loop codegen_step visit
generated o t = generate o (tree t)

abbrev i_leaf : Term
i_leaf = leaf (token TokenFn.i 0)

abbrev e_token : Token
e_token = token TokenFn.e 0

abbrev print_leaf : ℕ → Term
print_leaf ch = leaf (token TokenFn.out ch)

-- "`.d`.c`.b`.ai"
abbrev chain : Term
chain =
    app 0 (print_leaf b'd')
      (app 0 (print_leaf b'c') (app 0 (print_leaf b'b') (app 0 (print_leaf b'a') i_leaf)))

-- "``ii`d`ii"
abbrev delayed : Term
delayed = app 0 (app 0 i_leaf i_leaf) (app 0 (leaf (token TokenFn.d 0)) (app 0 i_leaf i_leaf))

generated-chain :
    generated true chain
    ≡ codegen_state
        (lc_ins 0 ∷ app_ins no_token (token TokenFn.i 0) ∷ app_ins e_token no_token ∷ [])
        (b'a' ∷ b'b' ∷ b'c' ∷ b'd' ∷ 0 ∷ [])
        []
unfolding generated
generated-chain = refl

generated-delayed :
    generated true delayed
    ≡ codegen_state
        (app_ins (token TokenFn.i 0) (token TokenFn.i 0)
          ∷ vm_ins Opcode.sa (offset 6)
          ∷ vm_ins Opcode.del (offset 5)
          ∷ app_ins (token TokenFn.i 0) (token TokenFn.i 0)
          ∷ la_ins
          ∷ la_ins
          ∷ app_ins e_token no_token
          ∷ [])
        []
        []
unfolding generated
generated-delayed = refl

generate-code_example :
    generate true (encode 0 0 chain)
    ≡ codegen_state (code true 0 0 [] chain) (constants true [] chain) []
generate-code_example =
    generate-code true 0 (print_leaf b'd')
      (app 0 (print_leaf b'c') (app 0 (print_leaf b'b') (app 0 (print_leaf b'a') i_leaf)))
      (omega arith)

generate-fits_example :
    (length (generate true (encode 0 0 delayed)).text ≤ length (encode 0 0 delayed))
    × (length (generate true (encode 0 0 delayed)).rodata ≤ length (encode 0 0 delayed))
    × ((generate true (encode 0 0 delayed)).stack ≡ [])
generate-fits_example =
    generate-fits true 0 (app 0 i_leaf i_leaf)
      (app 0 (leaf (token TokenFn.d 0)) (app 0 i_leaf i_leaf)) (omega arith)

generate-EndsProgram_example : EndsProgram (generate true (tree delayed)).text
generate-EndsProgram_example = generate-EndsProgram true delayed (omega arith)
