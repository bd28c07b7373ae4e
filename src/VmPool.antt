-- ===== src/VmPool.antt =====
-- vm_pool.h: the pool of the functions that hold arguments, with the functions of vm_stack.c that
-- free its elements.
mod Tests
pub mod Alloc
pub mod Free
pub mod Sums
pub mod Owed
pub mod Begins
pub mod Allocs
pub mod Drops
pub mod Drains
pub mod Frees
use u6a.Base.{
  ℕ, zero, suc, ◌+◌, Bool, true, false, Option, none, some, List, [], ◌∷◌, length, Result, ok, err,
  ◌>>=◌, leb, ltb, ◌==◌, if◌then◌else◌,
}
use u6a.VmHeap.{
  VarFn, Segment, StackCtx, StackError, inc, dec, set_refcnt, segment_at, store, free, activate,
  out_of_bounds, pool_oom, invalid, bad_pointer, out_of_fuel,
}
use u6a.VmStack.{is_ref, addref, vm_stack_dup}

-- `values` and `flags` of an element: a function of one or two functions, or with
-- `U6A_VM_POOL_ELEM_HOLDS_PTR` a saved stack and a position in the text.
pub data Held : Type 0 where
  fns : VarFn → VarFn → Held
  cont : (stack ins : ℕ) → Held

abbrev pub empty_fn : VarFn
empty_fn = record { fn = 0; ch = 0; ref = 0 }

-- The context but for the reference counts, which stand in that of the stack. `used` elements have
-- been taken from the pool at some time, that is `pos + 1`; `holes` and `fstack` have the last first.
pub record PoolCtx : Type 0 where
  pub held : ℕ → Held
  pub used : ℕ
  pub holes : List ℕ
  pub fstack : List ℕ
  pub pool_len : ℕ
  pub fstack_len : ℕ

pub record Vm : Type 0 where
  pub stack : StackCtx
  pub pool : PoolCtx

abbrev pub vm : StackCtx → PoolCtx → Vm
vm s p = record { stack = s; pool = p }

abbrev pub with_stack : StackCtx → Vm → Vm
with_stack s v = record v { stack = s }

abbrev pub with_pool : PoolCtx → Vm → Vm
with_pool p v = record v { pool = p }

abbrev pub count : ℕ → Vm → ℕ
count e v = v.stack.refs e

abbrev pub set_count : ℕ → ℕ → Vm → Vm
set_count e n v = with_stack (record v.stack { refs = λ b. if e == b then n else v.stack.refs b }) v

abbrev pub set_held : ℕ → Held → Vm → Vm
set_held e h v = with_pool (record v.pool { held = λ b. if e == b then h else v.pool.held b }) v

-- `u6a_vm_pool_elem_alloc_`.
unfoldable pub elem_alloc : Vm → Result StackError (ℕ × Vm)
elem_alloc v = elim v.pool.holes [
  | e ∷ holes ↦ ok (e, set_count e 1 (with_pool (record v.pool { holes = holes }) v))
  | [] ↦
      if v.pool.used == v.pool.pool_len
      then err pool_oom
      else ok (
        v.pool.used,
        set_count v.pool.used 1 (with_pool (record v.pool { used = suc v.pool.used }) v),
      )
]

-- `u6a_vm_pool_alloc1`, `u6a_vm_pool_alloc2` and `u6a_vm_pool_alloc2_ptr`. A null pointer is read as
-- the empty function.
unfoldable pub pool_alloc : Held → Vm → Result StackError (ℕ × Vm)
unfolding elem_alloc
pool_alloc h v = elem_alloc v >>= λ (e, v1). ok (e, set_held e h v1)

abbrev pub pool_alloc1 : VarFn → Vm → Result StackError (ℕ × Vm)
pool_alloc1 v1 = pool_alloc (fns v1 empty_fn)

abbrev pub pool_alloc2 : VarFn → VarFn → Vm → Result StackError (ℕ × Vm)
pool_alloc2 v1 v2 = pool_alloc (fns v1 v2)

abbrev pub pool_alloc2_ptr : (stack ins : ℕ) → Vm → Result StackError (ℕ × Vm)
pool_alloc2_ptr s i = pool_alloc (cont s i)

-- `u6a_vm_pool_get2` where the values are read as functions. A pointer is not one.
unfoldable pub pool_get2 : ℕ → Vm → Result StackError (VarFn × VarFn)
pool_get2 e v = elim (v.pool.held e) [ fns v1 v2 ↦ ok (v1, v2) | cont s i ↦ err bad_pointer ]

-- `u6a_vm_pool_get2_separate`, for a saved stack.
unfoldable pub pool_get2_separate : (grants : ℕ → Bool) → ℕ → Vm → Result StackError ((ℕ × ℕ) × Vm)
pool_get2_separate grants e v = elim (v.pool.held e) [
  | fns v1 v2 ↦ err bad_pointer
  | cont s i ↦ elim (ltb 1 (count e v)) [
    | true ↦ vm_stack_dup grants s v.stack >>= λ (c, ctx). ok ((c, i), with_stack ctx v)
    | false ↦ ok ((s, i), v)
  ]
]

-- `u6a_vm_pool_addref`, as `vm_var_fn_addref` of runtime.c calls it.
unfoldable pub var_fn_addref : VarFn → Vm → Vm
var_fn_addref x v =
    if is_ref x then with_stack (record v.stack { refs = addref x.ref v.stack.refs }) v else v

-- `u6a_free_stack_push_`. The stack has as many places as the text has instructions.
unfoldable pub free_stack_push : VarFn → Vm → Result StackError Vm
free_stack_push x v =
    if is_ref x
    then (if ltb (length v.pool.fstack) v.pool.fstack_len
        then ok (with_pool (record v.pool { fstack = x.ref ∷ v.pool.fstack }) v)
        else err out_of_bounds)
    else ok v

-- `holes->elems[++holes->pos] = elem`.
unfoldable pub add_hole : ℕ → Vm → Result StackError Vm
add_hole e v =
    if ltb (length v.pool.holes) v.pool.pool_len
    then ok (with_pool (record v.pool { holes = e ∷ v.pool.holes }) v)
    else err out_of_bounds

-- The loop over the elements of a segment that is freed, given `u6a_vm_pool_free`.
unfoldable pub free_elems : (ℕ → Vm → Result StackError Vm) → List VarFn → Vm → Result StackError Vm
free_elems pool_free [] v = ok v
free_elems pool_free (x ∷ xs) v = elim (is_ref x) [
  | true ↦ pool_free x.ref v >>= free_elems pool_free xs
  | false ↦ free_elems pool_free xs v
]

abbrev pub clear_fstack : Vm → Vm
clear_fstack v = with_pool (record v.pool { fstack = [] }) v

-- What happens to the values of an element without references, given `u6a_vm_stack_discard`.
unfoldable pub release : (ℕ → Vm → Result StackError Vm) → Held → Vm → Result StackError Vm
unfolding free_stack_push
release discard (cont s i) v = discard s v
release discard (fns v1 v2) v = free_stack_push v2 v >>= free_stack_push v1

-- The loop of `vm_stack_free` at a segment without references, given the rest of the loop.
unfoldable pub free_segment :
    (pool_free next : ℕ → Vm → Result StackError Vm) → ℕ → Segment → Vm → Result StackError Vm
unfolding free_elems
free_segment pool_free next a s v = free_elems pool_free s.elems v >>= λ v1.
    let v2 = with_stack (free a v1.stack) v1 in elim s.prev [ none ↦ ok v2 | some p ↦ next p v2 ]

unfoldable mutual
  unfolding add_hole release free_segment segment_at

  -- The loop of `u6a_vm_pool_free`. A round spends one unit of fuel.
  pub free_loop : ℕ → ℕ → Vm → Result StackError Vm
  free_loop zero e v = err out_of_fuel
  free_loop (suc fuel) e v =
      let v1 = set_count e (dec (count e v)) v in
      elim (dec (count e v) == 0) [
        | true ↦
            add_hole e v1 >>= λ v2. release (λ a w. free_stack fuel true a w) (v2.pool.held e) v2
        | false ↦ ok v1
      ]
      >>= λ v3. elim v3.pool.fstack [
        | [] ↦ ok v3
        | x ∷ xs ↦ free_loop fuel x (with_pool (record v3.pool { fstack = xs }) v3)
      ]

  -- The loop of `vm_stack_free`, whose first round takes the reference count for 1.
  pub free_stack : ℕ → (first : Bool) → ℕ → Vm → Result StackError Vm
  free_stack zero first a v = err out_of_fuel
  free_stack (suc fuel) first a v = segment_at a v.stack >>= λ s.
      let r = if first then 0 else dec s.refcnt in
      let v1 = with_stack (store a (set_refcnt r s) v.stack) v in
      elim (r == 0) [
        | true ↦
            free_segment (λ e w. free_loop fuel e (clear_fstack w))
              (λ p w. free_stack fuel false p w) a s v1
        | false ↦ ok v1
      ]

-- `u6a_vm_pool_init`, on the memory that is given.
unfoldable pub pool_init : (held : ℕ → Held) → (pool_len ins_len : ℕ) → PoolCtx
pool_init held pool_len ins_len = record {
  held = held;
  used = 0;
  holes = [];
  fstack = [];
  pool_len = pool_len;
  fstack_len = ins_len;
}
