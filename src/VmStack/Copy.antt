-- ===== src/VmStack/Copy.antt =====
-- Copying a segment, and saving the stack.
use u6a.Base.{
  ℕ, suc, ◌≤◌, ◌≡◌, ◌≢◌, refl, sym, ◌∙◌, ap, Bool, true, Option, none, some, List, ok, inl, inr,
  ◌⊎◌, arith,
}
use u6a.VmHeap.{VarFn, Segment, segment, StackCtx, Heap, put, inc, set_refcnt, store}
use u6a.VmStack.{addrefs, vm_stack_create, share_prev, vm_stack_dup, save}
use u6a.VmStack.Chain.{
  Below, bottom, above, Within, Below-mono, Within-trans, Within-less, Within-fresh, Within-count,
  Within-vacant, At, At-mono, Holds, free-put, put-same, put-other, ne-addresses, segment_at-some,
  update-some,
}
use u6a.VmStack.Pop.{put-none}

-- A pointer to a chain is null or leads to a segment.
pub linked :
    {n : ℕ} {h : Heap} {p : Option ℕ} {zs : List VarFn}
    → Below n h p zs
    → (p ≡ none) ⊎ ((r : ℕ) × (t : Segment) × (p ≡ some r) × (h r ≡ some t))
linked bottom = inl refl
linked (above {a = a} s e k b) = inr (a, s, refl, e)

-- The copy of a segment stands at the next address; all segments are as they were but for a count.
abbrev pub Copied : (ℕ → Bool) → ℕ → Segment → StackCtx → Type 0
Copied grants p s ctx =
    (h : Heap) × (rs : ℕ → ℕ) × (vm_stack_dup grants p ctx
      ≡ ok (ctx.next, record ctx { heap = h; next = suc ctx.next; refs = rs }))
    × (h ctx.next ≡ some (segment s.prev s.elems 0))
    × ((a : ℕ) → suc ctx.next ≤ a → h a ≡ none)
    × Within ctx.heap h

module _ (grants : ℕ → Bool) (p : ℕ) (s : Segment) (ctx : StackCtx)
    (f : (a : ℕ) → ctx.next ≤ a → ctx.heap a ≡ none) (e : ctx.heap p ≡ some s)
    (g : grants ctx.next ≡ true) where
  pub copy-last : s.prev ≡ none → Copied grants p s ctx
  unfolding vm_stack_dup vm_stack_create share_prev
  copy-last link =
      let c : ℕ = ctx.next in
      let new : Segment = segment s.prev s.elems 0 in
      (
        put c (some new) ctx.heap,
        addrefs s.elems ctx.refs,
        rw (segment_at-some p ctx e, vm_stack_dup, g, link) refl,
        put-same c (some new) ctx.heap,
        λ a k. put-other c a (some new) ctx.heap (omega arith) ∙ f a (omega arith),
        Within-fresh ctx.heap c (some new) (f c (omega arith)),
      )

  pub copy-shared :
      (r : ℕ) (t : Segment) → s.prev ≡ some r → ctx.heap r ≡ some t → Copied grants p s ctx
  unfolding vm_stack_dup vm_stack_create share_prev
  copy-shared r t link e' =
      let c : ℕ = ctx.next in
      let new : Segment = segment s.prev s.elems 0 in
      let h1 : Heap = put c (some new) ctx.heap in
      let t' : Segment = set_refcnt (inc t.refcnt) t in
      let vacant : ctx.heap c ≡ none = f c (omega arith) in
      let apart : r ≢ c = ne-addresses ctx.heap e' vacant in
      let e1 : h1 r ≡ some t = put-other c r (some new) ctx.heap (λ k. apart (sym k)) ∙ e' in
      let ctx1 : StackCtx = record ctx {
        heap = h1;
        next = suc c;
        refs = addrefs s.elems ctx.refs;
      } in
      let shared : share_prev s.prev ctx1 ≡ ok (store r t' ctx1) =
        ap (λ o. share_prev o ctx1) link
        ∙ update-some r (λ s. set_refcnt (inc s.refcnt) s) ctx1 e1 in
      (
        put r (some t') h1,
        addrefs s.elems ctx.refs,
        rw (segment_at-some p ctx e, vm_stack_dup, g) (rw shared refl),
        put-other r c (some t') h1 apart ∙ put-same c (some new) ctx.heap,
        free-put h1 r (suc c) (some t') e1
            (λ a k. put-other c a (some new) ctx.heap (omega arith) ∙ f a (omega arith)),
        Within-trans (Within-fresh ctx.heap c (some new) vacant)
            (Within-count h1 r (inc t.refcnt) e1),
      )

  pub copy :
      {n : ℕ} {h : Heap} {ys : List VarFn}
      → Below n h s.prev ys
      → ((a : ℕ) (t : Segment) → h a ≡ some t → ctx.heap a ≡ some t)
      → Copied grants p s ctx
  copy b w = elim (linked b) [
    | inl link ↦ copy-last link
    | inr (r, t, link, e') ↦ copy-shared r t link (w r t e')
  ]

-- If a new segment is granted, saving the stack gives a second chain with the same elements. The
-- active stack keeps them, and so does every other segment.
pub save-Holds :
    (grants : ℕ → Bool) (ctx : StackCtx) (xs : List VarFn)
    → Holds ctx xs
    → grants ctx.next ≡ true
    → (ctx' : StackCtx) × (save grants ctx ≡ ok (ctx.next, ctx'))
      × Holds ctx' xs
      × At ctx'.seg_len ctx'.heap ctx.next xs
      × Within ctx.heap ctx'.heap
unfolding save
save-Holds grants ctx xs (n, f, (s, e, ys, b, q)) g =
    let (h, rs, r, new, f', w) =
      copy grants ctx.active s ctx f e g b (λ a t. put-none ctx.heap ctx.active a) in
    (
      record ctx { heap = h; next = suc ctx.next; refs = rs },
      r,
      (n, f', At-mono ctx.active (s, e, ys, b, q) w),
      (
        segment s.prev s.elems 0,
        new,
        ys,
        Below-mono b (
            Within-trans (Within-less ctx.heap ctx.active)
              (Within-vacant ctx.next none (f ctx.next (omega arith)) w)),
        q,
      ),
      w,
    )
