-- ===== src/VmStack/Push.antt =====
-- Pushing, into the active segment or a new one.
use u6a.Base.{
  ℕ, suc, ◌+◌, ◌≤◌, ◌≡◌, ◌≢◌, refl, sym, ◌∙◌, Bool, true, false, none, some, List, ◌++◌, length,
  append_assoc, ok, leb, inl, inr, Bool-cases, arith,
}
use u6a.VmHeap.{
  VarFn, Segment, segment, StackCtx, Heap, put, inc, set_refcnt, set_elems, store, activate,
}
use u6a.VmStack.{vm_stack_create, push_split, push}
use u6a.VmStack.Chain.{
  Below, above, Within, Below-mono, put-same, put-other, ne-addresses, Within-put, Within-less,
  Within-vacant, Within-trans, Within-hidden, Within-fresh, Within-count, Holds, At-elems, free-put,
  segment_at-some, update-some,
}

-- What a change of the active stack leaves: the segments other than the active one, with their
-- elements.
abbrev pub Pushed : (ℕ → Bool) → List VarFn → StackCtx → List VarFn → Type 0
Pushed grants vs ctx xs =
    (ctx' : StackCtx) × (push grants vs ctx ≡ ok ctx')
    × Holds ctx' (vs ++ xs)
    × Within (put ctx.active none ctx.heap) ctx'.heap

module _ (grants : ℕ → Bool) (vs : List VarFn) (ctx : StackCtx) (xs : List VarFn)
    (n : 5 ≤ ctx.seg_len) (f : (a : ℕ) → ctx.next ≤ a → ctx.heap a ≡ none) (s : Segment)
    (e : ctx.heap ctx.active ≡ some s) (ys : List VarFn)
    (b : Below ctx.seg_len (put ctx.active none ctx.heap) s.prev ys) (q : xs ≡ s.elems ++ ys) where
  push-here : leb (length s.elems + length vs) ctx.seg_len ≡ true → Pushed grants vs ctx xs
  unfolding push
  push-here room = (
    store ctx.active (set_elems (vs ++ s.elems) s) ctx,
    rw (segment_at-some ctx.active ctx e, push, room) refl,
    (
      n,
      free-put ctx.heap ctx.active ctx.next (some (set_elems (vs ++ s.elems) s)) e f,
      let same : vs ++ xs ≡ (vs ++ s.elems) ++ ys = rw (q, append_assoc vs s.elems ys) in
          rw same (At-elems ctx.heap ctx.active s (vs ++ s.elems) b),
    ),
    Within-hidden ctx.heap ctx.active (some (set_elems (vs ++ s.elems) s)),
  )

  push-new :
      leb (length s.elems + length vs) ctx.seg_len ≡ false
      → length vs ≤ 4
      → grants ctx.next ≡ true
      → Pushed grants vs ctx xs
  unfolding push push_split vm_stack_create
  push-new full four g =
      let c : ℕ = ctx.next in
      let a : ℕ = ctx.active in
      let new : Segment = segment (some a) vs 0 in
      let h1 : Heap = put c (some new) ctx.heap in
      let s' : Segment = set_refcnt (inc s.refcnt) s in
      let h2 : Heap = put a (some s') h1 in
      let vacant : ctx.heap c ≡ none = f c (omega arith) in
      let apart : a ≢ c = ne-addresses ctx.heap e vacant in
      let e1 : h1 a ≡ some s = put-other c a (some new) ctx.heap (λ k. apart (sym k)) ∙ e in
      let ctx1 : StackCtx = record ctx { heap = h1; next = suc c } in
      let w : Within ctx.heap h2 =
        Within-trans (Within-fresh ctx.heap c (some new) vacant)
          (Within-count h1 a (inc s.refcnt) e1) in
      (
        activate c (store a s' ctx1),
        rw
            (
              segment_at-some a ctx e,
              push,
              full,
              g,
              update-some a (λ s. set_refcnt (inc s.refcnt) s) ctx1 e1,
              push_split,
            )
            refl,
        (
          n,
          free-put h1 a (suc c) (some s') e1
              (λ d k. put-other c d (some new) ctx.heap (omega arith) ∙ f d (omega arith)),
          (
            new,
            put-other a c (some s') h1 apart ∙ put-same c (some new) ctx.heap,
            xs,
            rw q (
                above s' (put-other c a none h2 (λ k. apart (sym k)) ∙ put-same a (some s') h1)
                  (ground arith) (Below-mono b (Within-put a (Within-vacant c none vacant w)))),
            refl,
          ),
        ),
        Within-trans (Within-less ctx.heap a) w,
      )

-- If a new segment is granted, pushing up to four elements succeeds and puts them on top of those
-- that the stack holds. All segments but the active one keep their elements.
pub push-Holds :
    (grants : ℕ → Bool) (vs : List VarFn) (ctx : StackCtx) (xs : List VarFn)
    → Holds ctx xs
    → length vs ≤ 4
    → grants ctx.next ≡ true
    → Pushed grants vs ctx xs
push-Holds grants vs ctx xs (n, f, (s, e, ys, b, q)) four g =
    elim (Bool-cases (leb (length s.elems + length vs) ctx.seg_len)) [
      | inl room ↦ push-here grants vs ctx xs n f s e ys b q room
      | inr full ↦ push-new grants vs ctx xs n f s e ys b q full four g
    ]
