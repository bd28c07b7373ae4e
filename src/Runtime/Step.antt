-- ===== src/Runtime/Step.antt =====
-- runtime.c, `u6a_runtime_execute`: a round of the loop, and the loop.
use u6a.Base.{
  u32, ℕ, zero, suc, ◌+◌, Option, none, some, List, [], ◌∷◌, Result, ok, err, ◌>>=◌, ◌==◌, ◌&&◌,
  not, if◌then◌else◌,
}
use u6a.Defs.{Token, token}
use u6a.Defs.TokenFn
use u6a.VmDefs.Opcode
use u6a.VmHeap.{VarFn, StackError, bad_pointer, out_of_fuel}
use u6a.VmPool.{Vm, fns, empty_fn}
use u6a.Bytecode.{Word4}
use u6a.Loader.{RawIns, host_word, text_subst_len}
use u6a.Runtime.{
  Program, ExecState, fn_ref, set_token, set_fn, set_acc, advance, jump, put_char, add_ref,
  stack_push, stack_pop, stack_xch, alloc_acc, check_force,
}
use u6a.Runtime.Fn
use u6a.Runtime.Apply.{
  Round, next, returned, and_advance, apply_hold, apply_s1, apply_s2, apply_k1, apply_f, apply_c,
  apply_c1, apply_d1_c, apply_d1_s, apply_d1_d, apply_p, apply_in, apply_cmp, apply_pipe,
}

-- The functions that neither the pool nor the stack is needed for.
unfoldable pub apply_simple : Program → ExecState → Result StackError Round
apply_simple pr st =
    if st.func.fn == TokenFn.i
    then ok (next (advance (set_acc st.arg st)))
    else if st.func.fn == TokenFn.out
    then ok (next (advance (put_char st.func.ch (set_acc st.arg st))))
    else if st.func.fn == Fn.j
    then ok (next (advance (jump st.func.ref (set_acc st.arg st))))
    else if st.func.fn == TokenFn.v
    then ok (next (advance (set_acc (set_fn TokenFn.v st.acc) st)))
    else if st.func.fn == TokenFn.e
    then ok (returned st.arg st)
    else check_force pr st >>= λ st1. ok (next st1)

-- The other functions. What holds elements of the pool stands under a case distinction of its own.
unfoldable pub apply_input : Program → ExecState → Result StackError Round
unfolding apply_simple
apply_input pr st =
    if st.func.fn == Fn.p
    then apply_p pr st
    else if st.func.fn == TokenFn.at
    then apply_in pr st
    else if st.func.fn == TokenFn.cmp
    then apply_cmp pr st
    else if st.func.fn == TokenFn.pipe
    then apply_pipe pr st
    else apply_simple pr st

unfoldable pub apply_control : Program → ExecState → Result StackError Round
unfolding apply_input
apply_control pr st =
    if st.func.fn == Fn.f
    then apply_f pr st
    else if st.func.fn == TokenFn.c
    then apply_c pr st
    else if st.func.fn == Fn.c1
    then apply_c1 pr st
    else if st.func.fn == Fn.d1_c
    then apply_d1_c pr st
    else if st.func.fn == Fn.d1_s
    then apply_d1_s pr st
    else if st.func.fn == Fn.d1_d
    then apply_d1_d pr st
    else apply_input pr st

-- The `switch` at `do_apply`.
unfoldable pub apply : Program → ExecState → Result StackError Round
unfolding apply_control
apply pr st =
    if st.func.fn == TokenFn.s
    then apply_hold Fn.s1 st
    else if st.func.fn == Fn.s1
    then apply_s1 st
    else if st.func.fn == Fn.s2
    then apply_s2 pr st
    else if st.func.fn == TokenFn.k
    then apply_hold Fn.k1 st
    else if st.func.fn == Fn.k1
    then apply_k1 st
    else if st.func.fn == TokenFn.d
    then apply_hold Fn.d1_c st
    else apply_control pr st

abbrev pub first_token : Word4 → Token
first_token w = token w.b0 w.b1

abbrev pub second_token : Word4 → Token
second_token w = token w.b2 w.b3

-- `func` and `arg` for an `APP`: 0 stands for the accumulator, but not twice.
unfoldable pub load_operands : Word4 → ExecState → ExecState
load_operands w st = record st {
  func = if w.b0 == 0 then st.acc else set_token (first_token w) st.func;
  arg = if w.b2 == 0 && not (w.b0 == 0) then st.acc else set_token (second_token w) st.arg;
}

-- The label `delay`.
unfoldable pub delay : Program → RawIns → ExecState → ExecState
delay pr i st =
    jump (u32 (text_subst_len + host_word pr.little i.operand))
      (set_acc (fn_ref Fn.d1_d (st.ins + 1)) st)

-- `LA`.
unfoldable pub step_la : Program → ExecState → Result StackError Round
step_la pr st = stack_pop pr st >>= λ (x, st1). apply pr (record st1 { func = x; arg = st1.acc })

unfoldable pub step_sa : Program → RawIns → ExecState → Result StackError Round
unfolding delay
step_sa pr i st =
    if st.acc.fn == TokenFn.d
    then ok (next (delay pr i st))
    else and_advance (stack_push pr (st.acc ∷ []) (add_ref st.acc st))

unfoldable pub step_xch : Program → ExecState → Result StackError Round
step_xch pr st =
    if st.acc.fn == TokenFn.d
    then (stack_pop pr st >>= λ (x, st1). stack_pop pr (add_ref x st1) >>= λ (y, st2).
        and_advance (alloc_acc Fn.d1_s (fns x y) (add_ref y (record st2 { func = x; arg = y }))))
    else stack_xch pr st.acc st >>= λ (x, st1). ok (next (advance (set_acc x st1)))

unfoldable pub step_lc : Program → RawIns → ExecState → Result StackError Round
step_lc pr i st =
    if i.opcode_ex == Opcode.ex_print
    then ok (next (advance (set_acc (fn_ref Fn.p (host_word pr.little i.operand)) st)))
    else check_force pr st >>= λ st1. ok (next st1)

-- The `switch` on the opcode.
unfoldable pub step_ins : Program → RawIns → ExecState → Result StackError Round
unfolding load_operands step_la step_sa step_xch step_lc apply
step_ins pr i st =
    if i.opcode == Opcode.app
    then apply pr (load_operands i.operand st)
    else if i.opcode == Opcode.la
    then step_la pr st
    else if i.opcode == Opcode.sa
    then step_sa pr i st
    else if i.opcode == Opcode.xch
    then step_xch pr st
    else if i.opcode == Opcode.del
    then ok (next (delay pr i st))
    else if i.opcode == Opcode.lc
    then step_lc pr i st
    else check_force pr st >>= λ st1. ok (next st1)

-- The instruction at a position; there is none behind the text.
unfoldable pub ins_at : List RawIns → ℕ → Option RawIns
ins_at [] p = none
ins_at (i ∷ text) zero = some i
ins_at (i ∷ text) (suc p) = ins_at text p

unfoldable pub step : Program → ExecState → Result StackError Round
unfolding ins_at step_ins
step pr st = elim (ins_at pr.machine.text st.ins) [
  | none ↦ err bad_pointer
  | some i ↦ step_ins pr i st
]

-- How the execution ends, with what it has written: by `e`, or at `runtime_error` with an empty value.
pub data Ending : Type 0 where
  value : VarFn → List ℕ → Ending
  runtime_error : StackError → List ℕ → Ending

-- The loop, with a unit of fuel for each round.
unfoldable pub exec_loop : ℕ → Program → ExecState → Ending
unfolding step
exec_loop zero pr st = runtime_error out_of_fuel st.ostream
exec_loop (suc fuel) pr st = elim (step pr st) [
  | err e ↦ runtime_error e st.ostream
  | ok r ↦ elim r [ returned x st1 ↦ value x st1.ostream | next st1 ↦ exec_loop fuel pr st1 ]
]

-- The variables at the start.
unfoldable pub exec_state : Vm → List ℕ → ExecState
exec_state v input = record {
  vm = v;
  acc = empty_fn;
  top = empty_fn;
  func = empty_fn;
  arg = empty_fn;
  ins = text_subst_len;
  current_char = none;
  istream = input;
  ostream = [];
}

unfoldable pub runtime_execute : ℕ → Program → Vm → List ℕ → Ending
unfolding exec_loop exec_state
runtime_execute rounds pr v input = exec_loop rounds pr (exec_state v input)
