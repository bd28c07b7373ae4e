-- ===== src/VmStack/Init.antt =====
-- The stack at the start.
use u6a.Base.{
  ℕ, suc, ◌≤◌, ◌≡◌, refl, ◌∙◌, Bool, true, none, some, [], ok, arith, Bool-cases, inl, inr, ◌==◌,
}
use u6a.VmHeap.{segment, StackCtx, activate, put}
use u6a.VmStack.{vm_stack_create, stack_init}
use u6a.VmStack.Grows.{Fits}
use u6a.VmStack.Chain.{bottom, Holds, put-same, put-other}

-- If a segment is granted, and has room for five elements, the new stack holds nothing, in a segment
-- of that size.
pub stack_init-Holds :
    (grants : ℕ → Bool) (n : ℕ) (ctx : StackCtx)
    → 5 ≤ n
    → ((a : ℕ) → ctx.heap a ≡ none)
    → grants ctx.next ≡ true
    → (ctx' : StackCtx) × (stack_init grants n ctx ≡ ok ctx') × Holds ctx' [] × Fits n ctx'
unfolding stack_init vm_stack_create
stack_init-Holds grants n ctx room vacant g =
    let new = segment none [] 0 in
    (
      activate ctx.next (record ctx {
        heap = put ctx.next (some new) ctx.heap;
        next = suc ctx.next;
        seg_len = n;
      }),
      rw (g, stack_init) refl,
      (
        room,
        λ a k. put-other ctx.next a (some new) ctx.heap (omega arith) ∙ vacant a,
        (new, put-same ctx.next (some new) ctx.heap, [], bottom, refl),
      ),
      (
        refl,
        λ a s h. elim (Bool-cases (ctx.next == a)) [
          | inl q ↦
              let same : some new ≡ some s = rw q at h in
              rw⁻¹ (let r : new ≡ s = cc in r) (omega arith)
          | inr q ↦ let none_there : none ≡ some s = rw (q, vacant a) at h in cc
        ],
      ),
    )
