-- ===== src/VmStack/Grows.antt =====
-- vm_stack.c: what pushing and the like do to the reference counts of the pool. Only a copy of
-- a segment adds to them, at most one for each of its elements.
use u6a.Base.{
  ℕ, suc, ◌+◌, ◌≤◌, ◌<◌, ◌^◌, ◌≡◌, refl, ◌∙◌, ap, Bool, Option, none, some, List, [], ◌∷◌, ◌++◌,
  length, length-append, Result, ok, err, ◌>>=◌, leb, ◌==◌, Bool-cases, Option-cases, inl, inr,
  arith,
}
use u6a.VmHeap.{
  VarFn, Segment, segment, StackCtx, StackError, inc, set_elems, set_refcnt, segment_at, store,
  update, free,
}
use u6a.VmStack.Pop.{List-cases}
use u6a.VmStack.{
  is_ref, vm_stack_create, addref, addrefs, share_prev, vm_stack_dup, push, push_split, top,
}

-- What holds of the result, if there is one.
abbrev pub Meets : {A : Type 0} → (A → Type 0) → Result StackError A → Type 0
Meets P (ok a) = P a
Meets P (err e) = Unit

pub Meets-bind :
    {A B : Type 0} (P : A → Type 0) (Q : B → Type 0) (r : Result StackError A)
    (f : A → Result StackError B)
    → Meets P r
    → ((a : A) → P a → Meets Q (f a))
    → Meets Q (r >>= f)
Meets-bind P Q (ok a) f h k = k a h
Meets-bind P Q (err e) f h k = tt

pub Meets-mono :
    {A : Type 0} (P Q : A → Type 0) (r : Result StackError A)
    → Meets P r
    → ((a : A) → P a → Q a)
    → Meets Q r
Meets-mono P Q (ok a) h k = k a h
Meets-mono P Q (err e) h k = tt

-- No segment of the heap has more elements than a segment has places.
abbrev pub Fits : ℕ → StackCtx → Type 0
Fits n ctx = (ctx.seg_len ≡ n) × ((a : ℕ) (s : Segment) → ctx.heap a ≡ some s → length s.elems ≤ n)

-- No count falls, and each grows by a bound at most, if that does not exceed a `uint32_t`.
abbrev pub Grown : ℕ → (ℕ → ℕ) → (ℕ → ℕ) → Type 0
Grown k refs refs' = (b : ℕ) → refs b + k < 2 ^ 32 → (refs b ≤ refs' b) × (refs' b ≤ refs b + k)

-- Segments that fit, with the counts as they were, or grown by the size of a segment.
abbrev pub Still : ℕ → StackCtx → StackCtx → Type 0
Still n ctx ctx' = Fits n ctx' × (ctx'.refs ≡ ctx.refs)

abbrev pub Copies : ℕ → StackCtx → StackCtx → Type 0
Copies n ctx ctx' = Fits n ctx' × Grown n ctx.refs ctx'.refs

pub Grown-same : (k : ℕ) (refs refs' : ℕ → ℕ) → refs' ≡ refs → Grown k refs refs'
Grown-same k refs refs' e b h = let at : refs' b ≡ refs b = ap (λ r. r b) e in omega arith

pub Still-Copies : (n : ℕ) (ctx ctx' : StackCtx) → Still n ctx ctx' → Copies n ctx ctx'
Still-Copies n ctx ctx' (f, e) = (f, Grown-same n ctx.refs ctx'.refs e)

addrefs-Grown : (es : List VarFn) (refs : ℕ → ℕ) → Grown (length es) refs (addrefs es refs)
unfolding addrefs
addrefs-Grown [] refs b h = omega arith
addrefs-Grown (v ∷ es) refs b h = elim (Bool-cases (is_ref v)) [
  | inr p ↦ rw p (let rest = addrefs-Grown es refs b (omega arith) in omega arith)
  | inl p ↦ elim (Bool-cases (v.ref == b)) [
    | inl q ↦
        let at : addref v.ref refs b ≡ refs b + 1 = rw q (omega arith) in
        let rest = addrefs-Grown es (addref v.ref refs) b (omega arith) in rw p (omega arith)
    | inr q ↦
        let at : addref v.ref refs b ≡ refs b = rw q refl in
        let rest = addrefs-Grown es (addref v.ref refs) b (omega arith) in rw p (omega arith)
  ]
]

module _ (n : ℕ) where
  pub Fits-store :
      (ctx : StackCtx) (a : ℕ) (s : Segment)
      → Fits n ctx
      → length s.elems ≤ n
      → Fits n (store a s ctx)
  Fits-store ctx a s (e, f) l = (
    e,
    λ b t h. elim (Bool-cases (a == b)) [
      | inl q ↦ let same : some s ≡ some t = rw q at h in rw⁻¹ (let r : s ≡ t = cc in r) l
      | inr q ↦ f b t (rw q at h)
    ],
  )

  pub Fits-free : (ctx : StackCtx) (a : ℕ) → Fits n ctx → Fits n (free a ctx)
  Fits-free ctx a (e, f) = (
    e,
    λ b t h. elim (Bool-cases (a == b)) [
      | inl q ↦ let bad : none ≡ some t = rw q at h in cc
      | inr q ↦ f b t (rw q at h)
    ],
  )

  pub segment_at-Fits :
      (ctx : StackCtx) (a : ℕ)
      → Fits n ctx
      → Meets (λ (s : Segment). length s.elems ≤ n) (segment_at a ctx)
  unfolding segment_at
  segment_at-Fits ctx a (e, f) = elim (Option-cases (ctx.heap a)) [
    | inl q ↦ rw (q, segment_at) tt
    | inr (s, q) ↦ rw (q, segment_at) (f a s q)
  ]

  pub update-Still :
      (ctx : StackCtx) (a : ℕ) (f : Segment → Segment)
      → ((s : Segment) → length (f s).elems ≡ length s.elems)
      → Fits n ctx
      → Meets (Still n ctx) (update a f ctx)
  unfolding update
  update-Still ctx a f same h =
      Meets-bind (λ (s : Segment). length s.elems ≤ n) (Still n ctx) (segment_at a ctx)
        (λ s. ok (store a (f s) ctx)) (segment_at-Fits ctx a h)
        (λ s l. (Fits-store ctx a (f s) h (omega (arith, same s)), refl))

  pub create-Still :
      (grants : ℕ → Bool) (prev : Option ℕ) (es : List VarFn) (ctx : StackCtx)
      → length es ≤ n
      → Fits n ctx
      → Meets (λ (r : ℕ × StackCtx). Still n ctx r.1) (vm_stack_create grants prev es ctx)
  unfolding vm_stack_create
  create-Still grants prev es ctx l h = elim (Bool-cases (grants ctx.next)) [
    | inl g ↦
        let ctx1 : StackCtx = record ctx { next = suc ctx.next } in
        rw g (Fits-store ctx1 ctx.next (segment prev es 0) h l, refl)
    | inr g ↦ rw g tt
  ]

  pub share_prev-Still :
      (prev : Option ℕ) (ctx : StackCtx) → Fits n ctx → Meets (Still n ctx) (share_prev prev ctx)
  unfolding share_prev
  share_prev-Still none ctx h = (h, refl)
  share_prev-Still (some p) ctx h =
      update-Still ctx p (λ s. set_refcnt (inc s.refcnt) s) (λ s. refl) h

  -- The results of a call that starts where another has ended.
  pub Still-then :
      (ctx ctx1 : StackCtx) (r : Result StackError StackCtx)
      → ctx1.refs ≡ ctx.refs
      → Meets (Still n ctx1) r
      → Meets (Still n ctx) r
  Still-then ctx ctx1 (ok ctx2) e (f, g) = (f, g ∙ e)
  Still-then ctx ctx1 (err x) e h = tt

  pub dup-Copies :
      (grants : ℕ → Bool) (a : ℕ) (ctx : StackCtx)
      → Fits n ctx
      → Meets (λ (r : ℕ × StackCtx). Copies n ctx r.1) (vm_stack_dup grants a ctx)
  unfolding vm_stack_dup
  dup-Copies grants a ctx h =
      Meets-bind (λ (s : Segment). length s.elems ≤ n) (λ (r : ℕ × StackCtx). Copies n ctx r.1)
        (segment_at a ctx) _ (segment_at-Fits ctx a h)
        (λ s l.
          Meets-bind (λ (r : ℕ × StackCtx). Still n ctx r.1)
            (λ (r : ℕ × StackCtx). Copies n ctx r.1) (vm_stack_create grants s.prev s.elems ctx) _
            (create-Still grants s.prev s.elems ctx l h)
            (λ (c, ctx1) (f, e).
              let ctx2 : StackCtx = record ctx1 { refs = addrefs s.elems ctx1.refs } in
              let grown : Grown n ctx.refs ctx2.refs = λ b small.
                let at : ctx1.refs b ≡ ctx.refs b = ap (λ (r : ℕ → ℕ). r b) e in
                let step = addrefs-Grown s.elems ctx1.refs b (omega arith) in omega arith in
              Meets-bind (Still n ctx2) (λ (r : ℕ × StackCtx). Copies n ctx r.1)
                (share_prev s.prev ctx2) _ (share_prev-Still s.prev ctx2 f)
                (λ ctx3 (f3, e3). (
                  f3,
                  λ b small.
                      let at : ctx3.refs b ≡ ctx2.refs b = ap (λ (r : ℕ → ℕ). r b) e3 in
                      let step = grown b small in omega arith,
                ))))

  -- Pushing up to four elements leaves the counts.
  pub push-Still :
      (grants : ℕ → Bool) (vs : List VarFn) (ctx : StackCtx)
      → length vs ≤ n
      → Fits n ctx
      → Meets (Still n ctx) (push grants vs ctx)
  unfolding push push_split
  push-Still grants vs ctx l h =
      Meets-bind (λ (s : Segment). length s.elems ≤ n) (Still n ctx) (segment_at ctx.active ctx) _
        (segment_at-Fits ctx ctx.active h)
        (λ s k. elim (Bool-cases (leb (length s.elems + length vs) ctx.seg_len)) [
          | inl room ↦
              let fits : length (vs ++ s.elems) ≤ n =
                ground (arith, length-append vs s.elems, room, h.0) in
              rw room (Fits-store ctx ctx.active (set_elems (vs ++ s.elems) s) h fits, refl)
          | inr full ↦ rw full (
              Meets-bind (λ (r : ℕ × StackCtx). Still n ctx r.1) (Still n ctx)
                (vm_stack_create grants (some ctx.active) vs ctx) _
                (create-Still grants (some ctx.active) vs ctx l h)
                (λ (c, ctx1) (f, e).
                  Meets-bind (Still n ctx) (Still n ctx)
                    (update ctx.active (λ s. set_refcnt (inc s.refcnt) s) ctx1) _
                    (Still-then ctx ctx1 _ e (
                      update-Still ctx1 ctx.active (λ s. set_refcnt (inc s.refcnt) s) (λ s. refl)
                        f))
                    (λ ctx2 k2. k2)))
        ])

  pub top-Still :
      (ctx : StackCtx) → Fits n ctx → Meets (λ (r : VarFn × StackCtx). Still n ctx r.1) (top ctx)
  unfolding top
  top-Still ctx h =
      Meets-bind (λ (s : Segment). length s.elems ≤ n) (λ (r : VarFn × StackCtx). Still n ctx r.1)
        (segment_at ctx.active ctx) _ (segment_at-Fits ctx ctx.active h)
        (λ s k. elim (List-cases s.elems) [
          | inr (x, es, q) ↦ rw q (h, refl)
          | inl q ↦ elim (Option-cases s.prev) [
            | inl r ↦ rw (q, r) tt
            | inr (p, r) ↦
                rw (q, r)
                  (Meets-bind (λ (s : Segment). length s.elems ≤ n)
                    (λ (r : VarFn × StackCtx). Still n ctx r.1) (segment_at p ctx) _
                    (segment_at-Fits ctx p h)
                    (λ s' k'. elim (List-cases s'.elems) [
                      | inl q' ↦ rw q' tt
                      | inr (x, es, q') ↦ rw q' (h, refl)
                    ]))
          ]
        ])
