-- ===== src/Codegen/Flush.antt =====
-- The two loops of the generator that take elements from its stack.
use u6a.Base.{
  ℕ, ◌+◌, ◌≡◌, refl, ◌∙◌, Bool, false, List, [], ◌∷◌, ◌++◌, length, length-append, append_assoc,
  append-nil, modify-append, map, arith,
}
use u6a.Defs.{Token, token}
use u6a.Defs.TokenFn
use u6a.VmDefs.{offset, VmIns, vm_ins, no_token, set_offset}
use u6a.VmDefs.Opcode
use u6a.Parser.Term.{Term}
use u6a.Codegen.{
  InsWithOffset, pending, codegen_state, app_ins, la_ins, is_print, take_string, flush,
}
use u6a.Codegen.Visit.{gen}
use u6a.Codegen.Compile.{prints, constants, code}

-- The stack elements of printing functions.
abbrev pub waiting : List ℕ → List InsWithOffset
waiting = map (λ c. pending (app_ins (token TokenFn.out c) no_token) 0)

abbrev pub TopIsNoPrint : List InsWithOffset → Type 0
TopIsNoPrint [] = Unit
TopIsNoPrint (x ∷ xs) = is_print x.ins ≡ false

pub take_string-waiting :
    (c : List ℕ) (K : List InsWithOffset) → TopIsNoPrint K → take_string (waiting c ++ K) ≡ (c, K)
unfolding take_string is_print
take_string-waiting [] [] h = refl
take_string-waiting [] (x ∷ K) h = rw h
take_string-waiting (x ∷ c) K h = rw (take_string-waiting c K h)

-- `SA` aside, an element on top is moved to the text.
pub flush-app :
    (T : List VmIns) (R : List ℕ) (a b : Token) (o : ℕ) (K : List InsWithOffset)
    → flush (codegen_state T R (pending (app_ins a b) o ∷ K))
      ≡ flush (codegen_state (T ++ app_ins a b ∷ []) R K)
unfolding flush
flush-app T R a b o K = refl

pub flush-waiting :
    (c : List ℕ) (T : List VmIns) (R : List ℕ) (K : List InsWithOffset)
    → flush (codegen_state T R (waiting c ++ K)) ≡ flush (codegen_state (T ++ prints c) R K)
flush-waiting [] T R K = rw (append-nil T)
flush-waiting (x ∷ c) T R K =
    let i : VmIns = app_ins (token TokenFn.out x) no_token in
    flush-app T R (token TokenFn.out x) no_token 0 (waiting c ++ K)
    ∙ flush-waiting c (T ++ i ∷ []) R K
    ∙ rw (append_assoc T (i ∷ []) (prints c))

pub flush-sa :
    (T : List VmIns) (R : List ℕ) (K : List InsWithOffset)
    → flush (codegen_state T R (pending (vm_ins Opcode.sa (offset 0)) 0 ∷ K))
      ≡ codegen_state (T ++ vm_ins Opcode.sa (offset 0) ∷ []) R (pending la_ins (length T) ∷ K)
unfolding flush
flush-sa T R K = refl

pub flush-nil : (T : List VmIns) (R : List ℕ) → flush (codegen_state T R []) ≡ codegen_state T R []
unfolding flush
flush-nil T R = refl

-- `LA` is moved to the text, and the instruction at its offset is told the position behind it.
pub flush-la :
    (T A : List VmIns) (R : List ℕ) (i : VmIns) (K : List InsWithOffset)
    → flush (codegen_state ((T ++ i ∷ []) ++ A) R (pending la_ins (length T) ∷ K))
      ≡ flush (codegen_state (T ++ set_offset (length T + length A + 2) i ∷ (A ++ la_ins ∷ [])) R K)
unfolding flush
flush-la T A R i K =
    let count : length ((T ++ i ∷ A) ++ la_ins ∷ []) ≡ length T + length A + 2 =
      omega (arith, length-append {0} (T ++ i ∷ A) (la_ins ∷ []), length-append {0} T (i ∷ A)) in
    rw (
      append_assoc T (i ∷ []) A,
      count,
      append_assoc T (i ∷ A) (la_ins ∷ []),
      modify-append T (A ++ la_ins ∷ []) i (set_offset (length T + length A + 2)) {i = length T}
          refl,
    )

-- The state after the code of a term, when `K` is left below the printing functions.
abbrev pub Generates : Bool → Term → Type 0
Generates o t =
    (c : List ℕ) (T : List VmIns) (R : List ℕ) (K : List InsWithOffset)
    → TopIsNoPrint K
    → gen o t (codegen_state T R (waiting c ++ K))
      ≡ flush (codegen_state (T ++ code o (length T) (length R) c t) (R ++ constants o c t) K)
