-- ===== src/Runtime/Apply.antt =====
-- runtime.c, `u6a_runtime_execute`: the application of `func` to `arg`.
use u6a.Base.{
  ℕ, true, Option, none, some, List, [], ◌∷◌, ◌++◌, drop, Result, ok, err, ◌>>=◌, ◌==◌,
  if◌then◌else◌,
}
use u6a.Defs.{token}
use u6a.Defs.TokenFn
use u6a.VmHeap.{VarFn, StackError, activate, out_of_bounds}
use u6a.VmStack.{save}
use u6a.VmPool.{fns, cont, Vm, with_stack, empty_fn, pool_get2, pool_get2_separate, free_stack}
use u6a.Runtime.{
  Program, ExecState, fn_ref, set_token, set_fn, set_acc, advance, jump, add_ref, stack_push,
  stack_pop, alloc_acc,
}
use u6a.Runtime.Fn

-- The result of a round of the loop.
pub data Round : Type 0 where
  next : ExecState → Round
  returned : VarFn → ExecState → Round

abbrev pub and_advance : Result StackError ExecState → Result StackError Round
and_advance r = r >>= λ st. ok (next (advance st))

abbrev pub and_jump : ℕ → Result StackError ExecState → Result StackError Round
and_jump p r = r >>= λ st. ok (next (jump p st))

-- The cases `s`, `k` and `d`: `arg` is held by a new element.
unfoldable pub apply_hold : ℕ → ExecState → Result StackError Round
apply_hold f st = and_advance (alloc_acc f (fns st.arg empty_fn) (add_ref st.arg st))

unfoldable pub apply_s1 : ExecState → Result StackError Round
apply_s1 st = pool_get2 st.func.ref st.vm >>= λ (x, _).
    and_advance (alloc_acc Fn.s2 (fns x st.arg) (add_ref x (add_ref st.arg st)))

unfoldable pub apply_s2 : Program → ExecState → Result StackError Round
apply_s2 pr st = pool_get2 st.func.ref st.vm >>= λ (x, y).
    let st1 = add_ref st.arg (add_ref y (add_ref x st)) in
    let pushed : List VarFn =
      if st.ins == 3 then x ∷ y ∷ st.arg ∷ [] else x ∷ y ∷ st.arg ∷ fn_ref Fn.j st.ins ∷ [] in
    and_jump 0 (stack_push pr pushed st1 >>= λ st2. ok (set_acc st.arg st2))

unfoldable pub apply_k1 : ExecState → Result StackError Round
apply_k1 st =
    pool_get2 st.func.ref st.vm >>= λ (x, _). ok (next (advance (set_acc x (add_ref x st))))

unfoldable pub apply_f : Program → ExecState → Result StackError Round
apply_f pr st = stack_pop pr (jump st.func.ref st) >>= λ (x, st1).
    and_jump 3
      (stack_push pr (st.arg ∷ fn_ref Fn.j st.func.ref ∷ []) (add_ref st.arg (set_acc x st1)))

unfoldable pub apply_c : Program → ExecState → Result StackError Round
apply_c pr st = save pr.grants st.vm.stack >>= λ (saved, ctx). and_jump 3 (
    stack_push pr (st.arg ∷ fn_ref Fn.j st.ins ∷ [])
      (add_ref st.arg (record st { vm = with_stack ctx st.vm }))
    >>= alloc_acc Fn.c1 (cont saved st.ins))

-- `u6a_vm_stack_resume`.
unfoldable pub resume : Program → ℕ → Vm → Result StackError Vm
resume pr a v =
    free_stack pr.fuel true v.stack.active v >>= λ v1. ok (with_stack (activate a v1.stack) v1)

unfoldable pub apply_c1 : Program → ExecState → Result StackError Round
unfolding resume
apply_c1 pr st = pool_get2_separate pr.grants st.func.ref st.vm >>= λ ((saved, ins), v).
    resume pr saved v >>= λ v1.
    ok (next (advance (jump ins (set_acc st.arg (record st { vm = v1 })))))

unfoldable pub apply_d1_c : Program → ExecState → Result StackError Round
apply_d1_c pr st = pool_get2 st.func.ref st.vm >>= λ (x, _).
    and_jump 3 (
      stack_push pr (x ∷ fn_ref Fn.j st.ins ∷ []) (add_ref x st) >>= λ st1. ok (set_acc st.arg st1))

unfoldable pub apply_d1_s : Program → ExecState → Result StackError Round
apply_d1_s pr st = pool_get2 st.func.ref st.vm >>= λ (x, y). and_jump 3 (
    stack_push pr (x ∷ fn_ref Fn.f st.ins ∷ st.arg ∷ []) (add_ref x (add_ref st.arg st)) >>= λ st1.
    ok (set_acc y st1))

unfoldable pub apply_d1_d : Program → ExecState → Result StackError Round
apply_d1_d pr st =
    and_jump st.func.ref (stack_push pr (fn_ref Fn.f st.ins ∷ st.arg ∷ []) (add_ref st.arg st))

-- The bytes up to the next 0.
unfoldable pub c_string : List ℕ → Option (List ℕ)
c_string [] = none
c_string (ch ∷ bytes) =
    let rest = c_string bytes in
    if ch == 0 then some [] else elim rest [ none ↦ none | some text ↦ some (ch ∷ text) ]

unfoldable pub apply_p : Program → ExecState → Result StackError Round
unfolding c_string
apply_p pr st = elim (c_string (drop st.func.ref pr.machine.rodata)) [
  | none ↦ err out_of_bounds
  | some text ↦ ok (next (advance (set_acc st.arg (record st { ostream = st.ostream ++ text }))))
]

-- The end of the cases `@`, `?` and `|`: `arg` is applied to a function that stands for the input.
unfoldable pub apply_to : Program → (VarFn → VarFn) → ExecState → Result StackError Round
apply_to pr change st = and_jump 3 (
    stack_push pr (st.arg ∷ fn_ref Fn.j st.ins ∷ []) (add_ref st.arg st) >>= λ st1.
    ok (set_acc (change st.arg) (record st1 { arg = change st.arg })))

unfoldable pub apply_in : Program → ExecState → Result StackError Round
apply_in pr st = elim st.istream [
  | [] ↦ apply_to pr (set_fn TokenFn.v) (record st { current_char = none })
  | ch ∷ rest ↦
      apply_to pr (set_fn TokenFn.i) (record st { current_char = some ch; istream = rest })
]

unfoldable pub apply_cmp : Program → ExecState → Result StackError Round
apply_cmp pr st = elim st.current_char [
  | none ↦ apply_to pr (set_fn TokenFn.v) st
  | some ch ↦ apply_to pr (set_fn (if st.func.ch == ch then TokenFn.i else TokenFn.v)) st
]

unfoldable pub apply_pipe : Program → ExecState → Result StackError Round
apply_pipe pr st = elim st.current_char [
  | none ↦ apply_to pr (set_fn TokenFn.v) st
  | some ch ↦ apply_to pr (set_token (token TokenFn.out ch)) st
]
