-- ===== src/VmStack/InPlace.antt =====
-- The steps of an exchange of the second element of the stack.
use u6a.Base.{
  ℕ, ◌+◌, ◌≤◌, ◌≡◌, ◌≢◌, refl, sym, ◌∙◌, ap, Bool, true, Option, none, some, List, [], ◌∷◌, ◌++◌,
  length, Result, ◌⊎◌, ok, inl, inr, arith, ltb, ◌==◌, Bool-cases,
}
use u6a.VmHeap.{
  StackError, VarFn, Segment, StackCtx, Heap, put, inc, dec, set_refcnt, set_elems, set_prev, store,
  free, activate,
}
use u6a.VmStack.{separate, xch_at, xch_split, xch}
use u6a.VmStack.Chain.{
  Within-hidden, Within-vacant, Within-put, Within-trans, Below, above, Within, Below-mono, Holds,
  At-elems, free-put, put-same, put-other, segment_at-some, update-some,
}

-- The segment below the active one, if there is one, has other references.
abbrev pub SharedBelow : StackCtx → Type 0
SharedBelow ctx =
    (s t : Segment) (p : ℕ)
    → ctx.heap ctx.active ≡ some s
    → s.prev ≡ some p
    → ctx.heap p ≡ some t
    → ltb 0 (dec t.refcnt) ≡ true

-- The result of an exchange, and what it leaves if the segment below is shared.
abbrev pub Exchanges : (ℕ → Bool) → (v0 x y : VarFn) → List VarFn → StackCtx → Type 0
Exchanges grants v0 x y xs ctx =
    (ctx' : StackCtx) × (xch grants v0 ctx ≡ ok (y, ctx'))
    × Holds ctx' (x ∷ v0 ∷ xs)
    × (SharedBelow ctx → Within (put ctx.active none ctx.heap) ctx'.heap)

abbrev pub Exchanged : (ℕ → Bool) → (v0 x y : VarFn) → List VarFn → StackCtx → Type 0
Exchanged grants v0 x y xs ctx =
    (ctx' : StackCtx) × (xch grants v0 ctx ≡ ok (y, ctx')) × Holds ctx' (x ∷ v0 ∷ xs)

pub Within-both :
    (h : Heap) (a q : ℕ) (o1 o2 o3 : Option Segment)
    → Within
        (put q none (put a none h))
        (put q none (put a none (put q o3 (put a o2 (put q o1 h)))))
Within-both h a q o1 o2 o3 b s e = elim (Bool-cases (q == b)) [
  | inl i ↦ cc (rw i at e)
  | inr i ↦ elim (Bool-cases (a == b)) [
    | inl j ↦ cc (rw (i, j) at e)
    | inr j ↦ (s.refcnt, rw (i, j) (rw (i, j) at e))
  ]
]

pub Two-cases :
    (es : List VarFn) → (length es ≤ 1) ⊎ ((x y : VarFn) × (xs : List VarFn) × (es ≡ x ∷ y ∷ xs))
Two-cases [] = inl (omega arith)
Two-cases (x ∷ []) = inl (omega arith)
Two-cases (x ∷ y ∷ xs) = inr (x, y, xs, refl)

pub Holds-same : (ctx : StackCtx) {xs ys : List VarFn} → xs ≡ ys → Holds ctx xs → Holds ctx ys
Holds-same ctx p h = rw⁻¹ p h

pub free-none :
    (h : Heap) (a n : ℕ) → ((b : ℕ) → n ≤ b → h b ≡ none) → (b : ℕ) → n ≤ b → put a none h b ≡ none
free-none h a n f b k = elim (Bool-cases (a == b)) [ inl q ↦ rw q refl | inr q ↦ rw q (f b k) ]

module _ (grants : ℕ → Bool) (v0 x y : VarFn) (ctx : StackCtx) (n : 5 ≤ ctx.seg_len) where
  -- Both elements are in the active segment.
  pub xch-here :
      (s : Segment) (es ys : List VarFn)
      → ((a : ℕ) → ctx.next ≤ a → ctx.heap a ≡ none)
      → ctx.heap ctx.active ≡ some s
      → s.elems ≡ x ∷ y ∷ es
      → Below ctx.seg_len (put ctx.active none ctx.heap) s.prev ys
      → Exchanges grants v0 x y (es ++ ys) ctx
  unfolding xch
  xch-here s es ys f e q b = (
    store ctx.active (set_elems (x ∷ v0 ∷ es) s) ctx,
    rw (segment_at-some ctx.active ctx e, q, xch) refl,
    (
      n,
      free-put ctx.heap ctx.active ctx.next (some (set_elems (x ∷ v0 ∷ es) s)) e f,
      At-elems ctx.heap ctx.active s (x ∷ v0 ∷ es) b,
    ),
    λ _. Within-hidden ctx.heap ctx.active (some (set_elems (x ∷ v0 ∷ es) s)),
  )

  -- The heap of `xch_at` where each of the two segments has one of the elements.
  pub both : (s t : Segment) → (q : ℕ) → List VarFn → Heap
  both s t q es = put q (some (set_elems (v0 ∷ es) (set_refcnt (inc t.refcnt) t))) (
      put ctx.active (some (set_prev (some q) s))
        (put q (some (set_refcnt (inc t.refcnt) t)) ctx.heap))

  pub xch_at-both :
      (s t : Segment) (q : ℕ) (es : List VarFn) {z : Result StackError (VarFn × StackCtx)}
      → ok (y, record ctx { heap = both s t q es }) ≡ z
      → ctx.active ≢ q
      → ctx.heap ctx.active ≡ some s
      → s.elems ≡ x ∷ []
      → ctx.heap q ≡ some t
      → t.elems ≡ y ∷ es
      → xch_at v0 q ctx ≡ z
  unfolding xch_at both
  xch_at-both s t q es k apart e r e' r' =
      let a : ℕ = ctx.active in
      let t1 : Segment = set_refcnt (inc t.refcnt) t in
      let s1 : Segment = set_prev (some q) s in
      let h1 : Heap = put q (some t1) ctx.heap in
      let h2 : Heap = put a (some s1) h1 in
      let ctx1 : StackCtx = store q t1 ctx in
      let ctx2 : StackCtx = store a s1 ctx1 in
      let e1 : h1 a ≡ some s = put-other q a (some t1) ctx.heap (λ k. apart (sym k)) ∙ e in
      let e2 : h2 q ≡ some t1 = put-other a q (some s1) h1 apart ∙ put-same q (some t1) ctx.heap in
      rw
        (
          segment_at-some a ctx e,
          r,
          update-some q (λ s'. set_refcnt (inc s'.refcnt) s') ctx e',
          xch_at,
        )
        (rw (update-some a (set_prev (some q)) ctx1 e1) (rw (segment_at-some q ctx2 e2) (rw r' k)))

  pub xch_at-one :
      (s t : Segment) (q : ℕ) (es : List VarFn) {z : Result StackError (VarFn × StackCtx)}
      → ok (y, activate q (store q (set_elems (x ∷ v0 ∷ es) t) (free ctx.active ctx))) ≡ z
      → ctx.active ≢ q
      → ctx.heap ctx.active ≡ some s
      → s.elems ≡ []
      → ctx.heap q ≡ some t
      → t.elems ≡ x ∷ y ∷ es
      → xch_at v0 q ctx ≡ z
  unfolding xch_at
  xch_at-one s t q es k apart e r e' r' =
      let e1 : put ctx.active none ctx.heap q ≡ some t =
        put-other ctx.active q none ctx.heap apart ∙ e' in
      rw (segment_at-some ctx.active ctx e, r, xch_at)
        (rw (segment_at-some q (activate q (free ctx.active ctx)) e1) (rw r' k))

  pub both-Within :
      (s t : Segment) (q : ℕ) (es : List VarFn) (h : Heap)
      → ctx.active ≢ q
      → h q ≡ none
      → Within h ctx.heap
      → Within (put ctx.active none h) (both s t q es)
  unfolding both
  both-Within s t q es h apart vacant w =
      let t1 : Segment = set_refcnt (inc t.refcnt) t in
      Within-vacant q (some (set_elems (v0 ∷ es) t1)) (put-other ctx.active q none h apart ∙ vacant)
        (Within-trans (Within-put ctx.active (Within-vacant q (some t1) vacant w))
          (Within-hidden (put q (some t1) ctx.heap) ctx.active (some (set_prev (some q) s))))

  pub Holds-both :
      (s t : Segment) (q : ℕ) (es zs : List VarFn)
      → ctx.active ≢ q
      → ((a : ℕ) → ctx.next ≤ a → ctx.heap a ≡ none)
      → ctx.heap ctx.active ≡ some s
      → s.elems ≡ x ∷ []
      → ctx.heap q ≡ some t
      → t.elems ≡ y ∷ es
      → ctx.seg_len ≤ length t.elems + 3
      → Below ctx.seg_len (put q none (put ctx.active none ctx.heap)) t.prev zs
      → Holds (record ctx { heap = both s t q es }) (x ∷ v0 ∷ (es ++ zs))
  unfolding both
  Holds-both s t q es zs apart f e r e' r' len b =
      let a : ℕ = ctx.active in
      let t1 : Segment = set_refcnt (inc t.refcnt) t in
      let s1 : Segment = set_prev (some q) s in
      let t2 : Segment = set_elems (v0 ∷ es) t1 in
      let h1 : Heap = put q (some t1) ctx.heap in
      let h2 : Heap = put a (some s1) h1 in
      let h3 : Heap = put q (some t2) h2 in
      let e1 : h1 a ≡ some s = put-other q a (some t1) ctx.heap (λ k. apart (sym k)) ∙ e in
      let e2 : h2 q ≡ some t1 = put-other a q (some s1) h1 apart ∙ put-same q (some t1) ctx.heap in
      let f1 : (d : ℕ) → ctx.next ≤ d → h1 d ≡ none = free-put ctx.heap q ctx.next (some t1) e' f in
      let f2 : (d : ℕ) → ctx.next ≤ d → h2 d ≡ none = free-put h1 a ctx.next (some s1) e1 f1 in
      let w : Within (put q none (put a none ctx.heap)) (put q none (put a none h3)) =
        Within-both ctx.heap a q (some t1) (some s1) (some t2) in
      (
        n,
        free-put h2 q ctx.next (some t2) e2 f2,
        (
          s1,
          put-other q a (some t2) h2 (λ k. apart (sym k)) ∙ put-same a (some s1) h1,
          (v0 ∷ es) ++ zs,
          above t2 (put-other a q none h3 apart ∙ put-same q (some t2) h2)
              (omega (arith, len, ap (λ (l : List VarFn). length l) r')) (Below-mono b w),
          rw r refl,
        ),
      )

module _ (grants : ℕ → Bool) (v0 x y : VarFn) (ctx ctx1 : StackCtx) (s : Segment) (p q : ℕ)
    (e : ctx.heap ctx.active ≡ some s) (link : s.prev ≡ some p)
    (sep : separate grants p ctx ≡ ok (q, ctx1)) {z : Result StackError (VarFn × StackCtx)}
    (k : xch_at v0 q ctx1 ≡ z) where
  pub xch_split-at : xch_split grants v0 ctx ≡ z
  unfolding xch_split
  xch_split-at = rw (segment_at-some ctx.active ctx e, link, xch_split) (rw sep k)

  pub xch-one : s.elems ≡ x ∷ [] → xch grants v0 ctx ≡ z
  unfolding xch
  xch-one r = rw (segment_at-some ctx.active ctx e, r, xch) xch_split-at

  pub xch-none : s.elems ≡ [] → xch grants v0 ctx ≡ z
  unfolding xch
  xch-none r = rw (segment_at-some ctx.active ctx e, r, xch) xch_split-at
