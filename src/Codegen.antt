-- ===== src/Codegen.antt =====
-- codegen.c: from the nodes to the text and the constants of the bytecode.
mod Tests
pub mod Visit
pub mod Compile
pub mod Flush
pub mod Correct
pub mod Bounds
use u6a.Base.{
  ℕ, zero, suc, ◌+◌, Bool, true, false, ◌&&◌, List, [], ◌∷◌, ◌++◌, length, get_or, modify, ltb,
  ◌==◌, if◌then◌else◌,
}
use u6a.Defs.{Token, token, AstNode, blank}
use u6a.Defs.TokenFn
use u6a.VmDefs.{Operand, offset, fns, VmIns, vm_ins, no_token, set_offset}
use u6a.VmDefs.Opcode

-- `struct ins_with_offset`. Where the source leaves a field of a stack element as it was, that field
-- is not read, and is 0 here.
pub record InsWithOffset : Type 0 where
  pub ins : VmIns
  pub offset : ℕ

abbrev pub pending : VmIns → ℕ → InsWithOffset
pending i o = record { ins = i; offset = o }

-- The two buffers up to `text_len` and `rodata_len`, and the stack, last pushed first.
pub record CodegenState : Type 0 where
  pub text : List VmIns
  pub rodata : List ℕ
  pub stack : List InsWithOffset

abbrev pub codegen_state : List VmIns → List ℕ → List InsWithOffset → CodegenState
codegen_state t r s = record { text = t; rodata = r; stack = s }

abbrev pub app_ins : Token → Token → VmIns
app_ins first second = vm_ins Opcode.app (fns first second)

abbrev pub la_ins : VmIns
la_ins = vm_ins Opcode.la (offset 0)

abbrev pub lc_ins : ℕ → VmIns
lc_ins o = record { opcode = Opcode.lc; opcode_ex = Opcode.ex_print; operand = offset o }

abbrev pub first_of_operand : Operand → Token
first_of_operand (offset n) = no_token
first_of_operand (fns first second) = first

abbrev pub second_of_operand : Operand → Token
second_of_operand (offset n) = no_token
second_of_operand (fns first second) = second

abbrev pub push : InsWithOffset → CodegenState → CodegenState
push x st = record st { stack = x ∷ st.stack }

abbrev pub emit : VmIns → CodegenState → CodegenState
emit i st = record st { text = st.text ++ i ∷ [] }

-- An application of a printing function to the accumulator.
pub is_print : VmIns → Bool
is_print i =
    i.opcode == Opcode.app
    && ((first_of_operand i.operand).fn == TokenFn.out && (second_of_operand i.operand).fn == 0)

-- The loop that takes the characters of a constant string from the stack.
pub take_string : List InsWithOffset → List ℕ × List InsWithOffset
take_string [] = ([], [])
take_string (x ∷ xs) =
    let (cs, rest) = take_string xs in
    if is_print x.ins then ((first_of_operand x.ins.operand).ch ∷ cs, rest) else ([], x ∷ xs)

-- Two leaves, not optimised and optimised.
plain : Token → Token → CodegenState → CodegenState
plain l r st = emit (app_ins l r) st

optimized : Token → Token → CodegenState → CodegenState
unfolding take_string is_print plain
optimized l r st =
    let (cs, rest) = take_string st.stack in
    let string : List ℕ = l.ch ∷ cs in
    if ltb (length string) 4
    then plain l r st
    else codegen_state ((st.text ++ lc_ins (length st.rodata) ∷ []) ++ app_ins no_token r ∷ [])
        (st.rodata ++ string ++ 0 ∷ []) rest

-- The loop that empties the stack, up to an `SA`.
unwind : List VmIns → List InsWithOffset → List VmIns × List InsWithOffset
unwind text [] = (text, [])
unwind text (x ∷ xs) =
    let text' : List VmIns = text ++ x.ins ∷ [] in
    let rest =
      unwind
        (if x.ins.opcode == Opcode.la
          then modify text' x.offset (set_offset (length text'))
          else text')
        xs in
    if x.ins.opcode == Opcode.sa
    then (text ++ vm_ins Opcode.sa (offset 0) ∷ [], pending la_ins (length text) ∷ xs)
    else rest

pub flush : CodegenState → CodegenState
unfolding unwind
flush st = let (text, stack) = unwind st.text st.stack in codegen_state text st.rodata stack

-- The body of the loop at an application, given the values of its children.
pub visit : Bool → Token → Token → CodegenState → CodegenState
unfolding optimized plain flush
visit optimize_const l r st =
    if l.fn == TokenFn.app
    then (if r.fn == TokenFn.app
        then push (pending (vm_ins Opcode.sa (offset 0)) 0) st
        else push (pending (app_ins no_token r) 0) st)
    else if r.fn == TokenFn.app
    then (if l.fn == TokenFn.d
        then push (pending la_ins (length st.text)) (emit (vm_ins Opcode.del (offset 0)) st)
        else push (pending (app_ins l no_token) 0) st)
    else flush (if optimize_const && l.fn == TokenFn.out then optimized l r st else plain l r st)

abbrev pub node_at : List AstNode → ℕ → AstNode
node_at ast i = get_or ast i blank

-- A round of the loop over the nodes.
pub codegen_step : Bool → List AstNode → ℕ → CodegenState → CodegenState
codegen_step optimize_const ast idx st =
    let node = node_at ast idx in
    let lchild = node_at ast (idx + 1) in
    let rchild = node_at ast lchild.sibling in
    if node.value.fn == TokenFn.app then visit optimize_const lchild.value rchild.value st else st

pub codegen_loop : Bool → List AstNode → (rounds idx : ℕ) → CodegenState → CodegenState
codegen_loop optimize_const ast zero idx st = st
codegen_loop optimize_const ast (suc rounds) idx st =
    codegen_loop optimize_const ast rounds (idx + 1) (codegen_step optimize_const ast idx st)

pub generate : Bool → List AstNode → CodegenState
generate optimize_const ast =
    codegen_loop optimize_const ast (length ast) 0 (codegen_state [] [] [])
