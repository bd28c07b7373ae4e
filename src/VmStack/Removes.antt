-- ===== src/VmStack/Removes.antt =====
-- vm_stack.c: what the removal of an element does to the reference counts of the pool.
use u6a.Base.{
  ℕ, ◌≤◌, ◌≡◌, refl, ap, Bool, List, length, Result, ok, err, ltb, Bool-cases, Option-cases, inl,
  inr, arith,
}
use u6a.VmHeap.{
  VarFn, Segment, StackCtx, StackError, dec, set_elems, set_refcnt, segment_at, store, free,
  activate,
}
use u6a.VmStack.Pop.{List-cases}
use u6a.VmStack.{vm_stack_dup, separate, drop_top, pop, pop_split}
use u6a.VmStack.Grows.{
  Meets, Meets-bind, Meets-mono, Fits, Still, Still-Copies, Copies, Fits-store, Fits-free,
  segment_at-Fits, dup-Copies,
}

module _ (n : ℕ) where
  pub Copies-then :
      (ctx ctx1 : StackCtx) {A : Type 0} (of : A → StackCtx) (r : Result StackError A)
      → ctx1.refs ≡ ctx.refs
      → Meets (λ (a : A). Copies n ctx1 (of a)) r
      → Meets (λ (a : A). Copies n ctx (of a)) r
  Copies-then ctx ctx1 of (ok a) e (f, g) = (
    f,
    λ b small.
        let at : ctx1.refs b ≡ ctx.refs b = ap (λ (r : ℕ → ℕ). r b) e in
        let step = g b (omega arith) in omega arith,
  )
  Copies-then ctx ctx1 of (err x) e h = tt

  pub Copies-still :
      (ctx ctx1 ctx2 : StackCtx)
      → ctx2.refs ≡ ctx1.refs
      → Copies n ctx ctx1
      → Fits n ctx2
      → Copies n ctx ctx2
  Copies-still ctx ctx1 ctx2 e (f, g) f2 = (
    f2,
    λ b small.
        let at : ctx2.refs b ≡ ctx1.refs b = ap (λ (r : ℕ → ℕ). r b) e in
        let step = g b small in omega arith,
  )

  pub separate-Copies :
      (grants : ℕ → Bool) (p : ℕ) (ctx : StackCtx)
      → Fits n ctx
      → Meets (λ (r : ℕ × StackCtx). Copies n ctx r.1) (separate grants p ctx)
  unfolding separate
  separate-Copies grants p ctx h =
      Meets-bind (λ (s : Segment). length s.elems ≤ n) (λ (r : ℕ × StackCtx). Copies n ctx r.1)
        (segment_at p ctx) _ (segment_at-Fits n ctx p h)
        (λ s l.
          let ctx1 : StackCtx = store p (set_refcnt (dec s.refcnt) s) ctx in
          let h1 : Fits n ctx1 = Fits-store n ctx p (set_refcnt (dec s.refcnt) s) h l in
          elim (Bool-cases (ltb 0 (dec s.refcnt))) [
            | inl shared ↦ rw shared (
                Copies-then ctx ctx1 (λ (r : ℕ × StackCtx). r.1) (vm_stack_dup grants p ctx1) refl
                  (dup-Copies n grants p ctx1 h1))
            | inr alone ↦ rw alone (Still-Copies n ctx ctx1 (h1, refl))
          ])

  pub drop_top-Still : (a : ℕ) (ctx : StackCtx) → Fits n ctx → Meets (Still n ctx) (drop_top a ctx)
  unfolding drop_top
  drop_top-Still a ctx h =
      Meets-bind (λ (s : Segment). length s.elems ≤ n) (Still n ctx) (segment_at a ctx) _
        (segment_at-Fits n ctx a h)
        (λ s l. elim (List-cases s.elems) [
          | inl q ↦ rw q tt
          | inr (x, es, q) ↦ rw q (
            Fits-store n ctx a (set_elems es s) h
                (omega (arith, l, ap (λ (t : List VarFn). length t) q)),
            refl,
          )
        ])

  -- Popping an element.
  pub pop-Copies :
      (grants : ℕ → Bool) (ctx : StackCtx) → Fits n ctx → Meets (Copies n ctx) (pop grants ctx)
  unfolding pop pop_split
  pop-Copies grants ctx h =
      Meets-bind (λ (s : Segment). length s.elems ≤ n) (Copies n ctx) (segment_at ctx.active ctx) _
        (segment_at-Fits n ctx ctx.active h)
        (λ s l. elim (List-cases s.elems) [
          | inr (x, es, q) ↦
              let ctx1 : StackCtx = store ctx.active (set_elems es s) ctx in
              rw q (
                Still-Copies n ctx ctx1 (
                  Fits-store n ctx ctx.active (set_elems es s) h
                      (omega (arith, l, ap (λ (t : List VarFn). length t) q)),
                  refl,
                ))
          | inl q ↦ rw q (
              Meets-bind (λ (s : Segment). length s.elems ≤ n) (Copies n ctx)
                (segment_at ctx.active ctx) _ (segment_at-Fits n ctx ctx.active h)
                (λ s' l'. elim (Option-cases s'.prev) [
                  | inl r ↦ rw r tt
                  | inr (p, r) ↦ rw r (
                      Meets-bind (λ (r : ℕ × StackCtx). Copies n ctx r.1) (Copies n ctx)
                        (separate grants p ctx) _ (separate-Copies grants p ctx h)
                        (λ (c, ctx1) k.
                          let ctx2 : StackCtx = activate c (free ctx.active ctx1) in
                          let f2 : Fits n ctx2 = Fits-free n ctx1 ctx.active k.0 in
                          Meets-mono (Still n ctx2) (Copies n ctx) (drop_top c ctx2)
                            (drop_top-Still c ctx2 f2)
                            (λ ctx3 k3. Copies-still ctx ctx1 ctx3 k3.1 k k3.0)))
                ]))
        ])
