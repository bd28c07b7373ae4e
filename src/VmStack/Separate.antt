-- ===== src/VmStack/Separate.antt =====
-- Taking the segment below the active one for the active stack alone: a copy, if it is shared.
use u6a.Base.{
  ℕ, suc, ◌≤◌, ◌≡◌, ◌≢◌, refl, sym, ◌∙◌, Bool, true, false, Option, none, some, List, ok, inl, inr,
  arith, ltb, ◌==◌, Bool-cases,
}
use u6a.VmHeap.{VarFn, Segment, segment, StackCtx, Heap, put, dec, set_refcnt, store}
use u6a.VmStack.{separate}
use u6a.VmStack.Chain.{
  Below, Within, Below-mono, Within-trans, Within-less, Within-put, Within-count, Within-vacant,
  free-put, put-same, put-other, ne-addresses, segment_at-some,
}
use u6a.VmStack.Pop.{put-none}
use u6a.VmStack.Copy.{copy}

-- What hides a segment holds of every heap that differs in that segment.
put-none-other :
    (h h' : Heap) (p b : ℕ) (o : Option Segment) {s : Segment}
    → put p none h b ≡ some s
    → (h b ≡ some s → h' b ≡ some s)
    → put p o h' b ≡ some s
put-none-other h h' p b o e w = elim (Bool-cases (p == b)) [
  | inl q ↦ cc (rw q at e)
  | inr q ↦ rw q (w (rw q at e))
]

-- After the separation of the segment `t` at `p` from its other references: the active segment `s`
-- is still there, and the segment `q` has the place and the elements of `t`.
abbrev pub Separated : (ℕ → Bool) → ℕ → (s t : Segment) → List VarFn → StackCtx → Type 0
Separated grants p s t zs ctx =
    (q : ℕ) × (h : Heap) × (next : ℕ) × (rs : ℕ → ℕ) × (t' : Segment) × (r : ℕ) × (separate grants p
        ctx
      ≡ ok (q, record ctx { heap = h; next = next; refs = rs }))
    × (h q ≡ some t')
    × (t'.elems ≡ t.elems)
    × (h ctx.active ≡ some (set_refcnt r s))
    × (ctx.active ≢ q)
    × ((a : ℕ) → next ≤ a → h a ≡ none)
    × Below ctx.seg_len (put q none (put ctx.active none h)) t'.prev zs
    × (ltb 0 (dec t.refcnt) ≡ true → (ctx.heap q ≡ none) × Within ctx.heap h)

module _ (grants : ℕ → Bool) (p : ℕ) (s t : Segment) (zs : List VarFn) (ctx : StackCtx)
    (f : (a : ℕ) → ctx.next ≤ a → ctx.heap a ≡ none) (e : ctx.heap ctx.active ≡ some s)
    (e1 : put ctx.active none ctx.heap p ≡ some t)
    (b : Below ctx.seg_len (put p none (put ctx.active none ctx.heap)) t.prev zs) where
  apart : ctx.active ≢ p
  apart q =
      ne-addresses (put ctx.active none ctx.heap) e1 (put-same ctx.active none ctx.heap) (sym q)

  pub separate-owned : ltb 0 (dec t.refcnt) ≡ false → Separated grants p s t zs ctx
  unfolding separate
  separate-owned owned =
      let e2 : ctx.heap p ≡ some t = put-none ctx.heap ctx.active p e1 in
      let t' : Segment = set_refcnt (dec t.refcnt) t in
      let h : Heap = put p (some t') ctx.heap in
      let w : Within ctx.heap h = Within-count ctx.heap p (dec t.refcnt) e2 in
      (
        p,
        h,
        ctx.next,
        ctx.refs,
        t',
        s.refcnt,
        rw (segment_at-some p ctx e2, separate, owned) refl,
        put-same p (some t') ctx.heap,
        refl,
        put-other p ctx.active (some t') ctx.heap (λ k. apart (sym k)) ∙ e,
        apart,
        free-put ctx.heap p ctx.next (some t') e2 f,
        Below-mono b (Within-put p (Within-put ctx.active w)),
        λ shared. cc,
      )

  pub separate-shared :
      ltb 0 (dec t.refcnt) ≡ true → grants ctx.next ≡ true → Separated grants p s t zs ctx
  unfolding separate
  separate-shared shared g =
      let a : ℕ = ctx.active in
      let e2 : ctx.heap p ≡ some t = put-none ctx.heap a p e1 in
      let t' : Segment = set_refcnt (dec t.refcnt) t in
      let h0 : Heap = put p (some t') ctx.heap in
      let ctx0 : StackCtx = store p t' ctx in
      let w0 : Within ctx.heap h0 = Within-count ctx.heap p (dec t.refcnt) e2 in
      let f0 : (d : ℕ) → ctx.next ≤ d → h0 d ≡ none = free-put ctx.heap p ctx.next (some t') e2 f in
      let (h, rs, same, new, f', w1) =
        copy grants p t' ctx0 f0 (put-same p (some t') ctx.heap) g b (λ d u k.
          put-none-other (put a none ctx.heap) ctx.heap p d (some t') k (put-none ctx.heap a d)) in
      let (r, e') = (Within-trans w0 w1) a s e in
      let vacant : put a none ctx.heap ctx.next ≡ none =
        put-other a ctx.next none ctx.heap (ne-addresses ctx.heap e (f ctx.next (omega arith)))
        ∙ f ctx.next (omega arith) in
      (
        ctx.next,
        h,
        suc ctx.next,
        rs,
        segment t.prev t.elems 0,
        r,
        rw (segment_at-some p ctx e2, separate, shared) same,
        new,
        refl,
        e',
        ne-addresses ctx.heap e (f ctx.next (omega arith)),
        f',
        Below-mono b (
            Within-trans (Within-less (put a none ctx.heap) p)
              (Within-vacant ctx.next none vacant (Within-put a (Within-trans w0 w1)))),
        λ _. (f ctx.next (omega arith), Within-trans w0 w1),
      )

  -- Either way, if a new segment is granted.
  pub separated : grants ctx.next ≡ true → Separated grants p s t zs ctx
  separated g = elim (Bool-cases (ltb 0 (dec t.refcnt))) [
    | inl shared ↦ separate-shared shared g
    | inr owned ↦ separate-owned owned
  ]
