-- ===== src/VmStack.antt =====
-- vm_stack.c and vm_stack.h: the stack of the virtual machine, a chain of segments.
mod Tests
pub mod Chain
pub mod Init
pub mod Push
pub mod Pop
pub mod Copy
pub mod Separate
pub mod InPlace
pub mod Exchange
pub mod Grows
pub mod Removes
pub mod Exchanges
use u6a.Base.{
  ℕ, suc, ◌+◌, ◌^◌, ◌/◌, ◌%◌, Bool, true, false, Option, none, some, List, [], ◌∷◌, ◌++◌, length,
  Result, ok, err, ◌>>=◌, leb, ltb, ◌==◌, if◌then◌else◌, u32,
}
use u6a.VmHeap.{
  VarFn, Segment, segment, Heap, put, StackCtx, StackError, inc, dec, set_prev, set_elems,
  set_refcnt, segment_at, store, update, free, activate, bad_alloc, stack_underflow, vm_err,
  bad_pointer, out_of_bounds,
}

-- `vm_stack_create`, with the elements that its callers then write. `grants` says which of the
-- requests of `malloc` are granted, by the address of the segment.
unfoldable pub vm_stack_create :
    (grants : ℕ → Bool) → Option ℕ → List VarFn → StackCtx → Result StackError (ℕ × StackCtx)
vm_stack_create grants prev es ctx =
    if grants ctx.next
    then ok (
      ctx.next,
      record ctx { heap = put ctx.next (some (segment prev es 0)) ctx.heap; next = suc ctx.next },
    )
    else err bad_alloc

-- `U6A_VM_FN_REF`, bit 5 of the function.
abbrev pub is_ref : VarFn → Bool
is_ref v = v.fn / 2 ^ 5 % 2 == 1

abbrev pub addref : ℕ → (ℕ → ℕ) → ℕ → ℕ
addref r refs = λ b. if r == b then inc (refs b) else refs b

-- The loop over the elements of a copied segment.
unfoldable pub addrefs : List VarFn → (ℕ → ℕ) → ℕ → ℕ
addrefs [] refs = refs
addrefs (v ∷ es) refs = addrefs es (if is_ref v then addref v.ref refs else refs)

-- The last step of the copy: the segment below has one more reference.
unfoldable pub share_prev : Option ℕ → StackCtx → Result StackError StackCtx
unfolding update
share_prev none ctx = ok ctx
share_prev (some p) ctx = update p (λ s. set_refcnt (inc s.refcnt) s) ctx

unfoldable pub vm_stack_dup : (grants : ℕ → Bool) → ℕ → StackCtx → Result StackError (ℕ × StackCtx)
unfolding vm_stack_create addrefs share_prev
vm_stack_dup grants a ctx = segment_at a ctx >>= λ s.
    vm_stack_create grants s.prev s.elems ctx >>= λ (c, ctx1).
    share_prev s.prev (record ctx1 { refs = addrefs s.elems ctx1.refs }) >>= λ ctx2. ok (c, ctx2)

-- `u6a_vm_stack_init`, on the heap that is given.
unfoldable pub stack_init :
    (grants : ℕ → Bool) → (seg_len : ℕ) → StackCtx → Result StackError StackCtx
unfolding vm_stack_create
stack_init grants n ctx =
    vm_stack_create grants none [] (record ctx { seg_len = n }) >>= λ (c, ctx1).
    ok (activate c ctx1)

-- The functions `u6a_vm_stack_push1_split_` to `u6a_vm_stack_push4_split_`, for the pushed elements,
-- the last one first.
unfoldable pub push_split : (grants : ℕ → Bool) → List VarFn → StackCtx → Result StackError StackCtx
unfolding vm_stack_create update
push_split grants vs ctx = vm_stack_create grants (some ctx.active) vs ctx >>= λ (c, ctx1).
    update ctx.active (λ s. set_refcnt (inc s.refcnt) s) ctx1 >>= λ ctx2. ok (activate c ctx2)

-- `u6a_vm_stack_push1` to `u6a_vm_stack_push4`, likewise.
unfoldable pub push : (grants : ℕ → Bool) → List VarFn → StackCtx → Result StackError StackCtx
push grants vs ctx = segment_at ctx.active ctx >>= λ s.
    if leb (length s.elems + length vs) ctx.seg_len
    then ok (store ctx.active (set_elems (vs ++ s.elems) s) ctx)
    else push_split grants vs ctx

abbrev pub push1 : (grants : ℕ → Bool) → VarFn → StackCtx → Result StackError StackCtx
push1 grants v0 = push grants (v0 ∷ [])

abbrev pub push2 : (grants : ℕ → Bool) → VarFn → VarFn → StackCtx → Result StackError StackCtx
push2 grants v0 v1 = push grants (v1 ∷ v0 ∷ [])

abbrev pub push3 :
    (grants : ℕ → Bool) → VarFn → VarFn → VarFn → StackCtx → Result StackError StackCtx
push3 grants v0 v1 v2 = push grants (v2 ∷ v1 ∷ v0 ∷ [])

abbrev pub push4 :
    (grants : ℕ → Bool) → VarFn → VarFn → VarFn → VarFn → StackCtx → Result StackError StackCtx
push4 grants v0 v1 v2 v3 = push grants (v3 ∷ v2 ∷ v1 ∷ v0 ∷ [])

-- `u6a_vm_stack_top`.
unfoldable pub top : StackCtx → Result StackError (VarFn × StackCtx)
top ctx = segment_at ctx.active ctx >>= λ s. elim s.elems [
  | x ∷ _ ↦ ok (x, ctx)
  | [] ↦ elim s.prev [
    | none ↦ err vm_err
    | some p ↦ segment_at p ctx >>= λ s'. elim s'.elems [
      | x ∷ _ ↦ ok (x, activate p ctx)
      | [] ↦ err out_of_bounds
    ]
  ]
]

-- One reference to the segment less; if others are left, a copy of it takes its place.
unfoldable pub separate : (grants : ℕ → Bool) → ℕ → StackCtx → Result StackError (ℕ × StackCtx)
separate grants p ctx = segment_at p ctx >>= λ s.
    let ctx1 = store p (set_refcnt (dec s.refcnt) s) ctx in
    if ltb 0 (dec s.refcnt) then vm_stack_dup grants p ctx1 else ok (p, ctx1)

-- `--top` where the segment is not empty.
unfoldable pub drop_top : ℕ → StackCtx → Result StackError StackCtx
drop_top a ctx = segment_at a ctx >>= λ s. elim s.elems [
  | _ ∷ es ↦ ok (store a (set_elems es s) ctx)
  | [] ↦ err out_of_bounds
]

-- `u6a_vm_stack_pop_split_`.
unfoldable pub pop_split : (grants : ℕ → Bool) → StackCtx → Result StackError StackCtx
unfolding separate drop_top
pop_split grants ctx = segment_at ctx.active ctx >>= λ s. elim s.prev [
  | none ↦ err stack_underflow
  | some p ↦ separate grants p ctx >>= λ (q, ctx1). drop_top q (activate q (free ctx.active ctx1))
]

-- `u6a_vm_stack_pop`.
unfoldable pub pop : (grants : ℕ → Bool) → StackCtx → Result StackError StackCtx
pop grants ctx = segment_at ctx.active ctx >>= λ s. elim s.elems [
  | _ ∷ es ↦ ok (store ctx.active (set_elems es s) ctx)
  | [] ↦ pop_split grants ctx
]

-- `u6a_vm_stack_xch_split_` once the segment below, `q`, is not shared: the active segment has one
-- element, or none.
unfoldable pub xch_at : VarFn → ℕ → StackCtx → Result StackError (VarFn × StackCtx)
unfolding update
xch_at v0 q ctx = segment_at ctx.active ctx >>= λ s. elim s.elems [
  | _ ∷ _ ↦ update q (λ s'. set_refcnt (inc s'.refcnt) s') ctx >>= λ ctx1.
      update ctx.active (set_prev (some q)) ctx1 >>= λ ctx2. segment_at q ctx2 >>= λ s'.
      elim s'.elems [
        | y ∷ es ↦ ok (y, store q (set_elems (v0 ∷ es) s') ctx2)
        | [] ↦ err out_of_bounds
      ]
  | [] ↦
      let ctx1 = activate q (free ctx.active ctx) in
      segment_at q ctx1 >>= λ s'. elim s'.elems [
        | x ∷ y ∷ es ↦ ok (y, store q (set_elems (x ∷ v0 ∷ es) s') ctx1)
        | _ ↦ err out_of_bounds
      ]
]

unfoldable pub xch_split :
    (grants : ℕ → Bool) → VarFn → StackCtx → Result StackError (VarFn × StackCtx)
unfolding separate xch_at
xch_split grants v0 ctx = segment_at ctx.active ctx >>= λ s. elim s.prev [
  | none ↦ err stack_underflow
  | some p ↦ separate grants p ctx >>= λ (q, ctx1). xch_at v0 q ctx1
]

-- `u6a_vm_stack_xch`.
unfoldable pub xch : (grants : ℕ → Bool) → VarFn → StackCtx → Result StackError (VarFn × StackCtx)
xch grants v0 ctx = segment_at ctx.active ctx >>= λ s. elim s.elems [
  | x ∷ y ∷ es ↦ ok (y, store ctx.active (set_elems (x ∷ v0 ∷ es) s) ctx)
  | _ ↦ xch_split grants v0 ctx
]

-- `u6a_vm_stack_save`.
unfoldable pub save : (grants : ℕ → Bool) → StackCtx → Result StackError (ℕ × StackCtx)
unfolding vm_stack_dup
save grants ctx = vm_stack_dup grants ctx.active ctx
