-- ===== src/VmStack/Exchanges.antt =====
-- vm_stack.c: what an exchange does to the reference counts of the pool.
use u6a.Base.{
  ℕ, ◌≤◌, ◌≡◌, refl, ◌∙◌, ap, Bool, some, List, [], ◌∷◌, length, Option-cases, inl, inr, arith,
}
use u6a.VmHeap.{
  VarFn, Segment, StackCtx, inc, set_prev, set_elems, set_refcnt, segment_at, store, update, free,
  activate,
}
use u6a.VmStack.Pop.{List-cases}
use u6a.VmStack.{separate, xch, xch_at, xch_split}
use u6a.VmStack.Grows.{
  Meets, Meets-bind, Meets-mono, Fits, Still, Still-Copies, Copies, Fits-store, Fits-free,
  segment_at-Fits, update-Still,
}
use u6a.VmStack.Removes.{Copies-still, separate-Copies}

data Elements (es : List VarFn) : Type 0 where
  no_element : es ≡ [] → Elements es
  one : (x : VarFn) → es ≡ x ∷ [] → Elements es
  two : (x y : VarFn) (rest : List VarFn) → es ≡ x ∷ y ∷ rest → Elements es

Two-cases : (es : List VarFn) → Elements es
Two-cases [] = no_element refl
Two-cases (x ∷ []) = one x refl
Two-cases (x ∷ y ∷ es) = two x y es refl

module _ (n : ℕ) where
  -- The second of the two top elements gets another value.
  second-length :
      (s : Segment) (x y v0 : VarFn) (es : List VarFn)
      → s.elems ≡ x ∷ y ∷ es
      → length s.elems ≤ n
      → length (x ∷ v0 ∷ es) ≤ n
  second-length s x y v0 es q l = omega (arith, l, ap (λ (t : List VarFn). length t) q)

  abbrev pub Exchanges : StackCtx → VarFn × StackCtx → Type 0
  Exchanges ctx r = Copies n ctx r.1

  abbrev pub Swaps : StackCtx → VarFn × StackCtx → Type 0
  Swaps ctx r = Still n ctx r.1

  xch_at-Still :
      (v0 : VarFn) (q : ℕ) (ctx : StackCtx) → Fits n ctx → Meets (Swaps ctx) (xch_at v0 q ctx)
  unfolding xch_at
  xch_at-Still v0 q ctx h =
      Meets-bind (λ (s : Segment). length s.elems ≤ n) (Swaps ctx) (segment_at ctx.active ctx) _
        (segment_at-Fits n ctx ctx.active h)
        (λ s l. elim (List-cases s.elems) [
          | inr (x, es, e) ↦ rw e (
              Meets-bind (Still n ctx) (Swaps ctx)
                (update q (λ s'. set_refcnt (inc s'.refcnt) s') ctx) _
                (update-Still n ctx q (λ s'. set_refcnt (inc s'.refcnt) s') (λ s'. refl) h)
                (λ ctx1 k1.
                  Meets-bind (Still n ctx1) (Swaps ctx) (update ctx.active (set_prev (some q)) ctx1)
                    _ (update-Still n ctx1 ctx.active (set_prev (some q)) (λ s'. refl) k1.0)
                    (λ ctx2 k2.
                      Meets-bind (λ (s : Segment). length s.elems ≤ n) (Swaps ctx)
                        (segment_at q ctx2) _ (segment_at-Fits n ctx2 q k2.0)
                        (λ s' l'. elim (List-cases s'.elems) [
                          | inl e' ↦ rw e' tt
                          | inr (y, es', e') ↦
                              let ctx3 : StackCtx = store q (set_elems (v0 ∷ es') s') ctx2 in
                              let fits : Fits n ctx3 =
                                Fits-store n ctx2 q (set_elems (v0 ∷ es') s') k2.0
                                  (omega (arith, l', ap (λ (t : List VarFn). length t) e')) in
                              rw e' (fits, k2.1 ∙ k1.1)
                        ]))))
          | inl e ↦
              let ctx1 : StackCtx = activate q (free ctx.active ctx) in
              let f1 : Fits n ctx1 = Fits-free n ctx ctx.active h in
              rw e (
                Meets-bind (λ (s : Segment). length s.elems ≤ n) (Swaps ctx) (segment_at q ctx1) _
                  (segment_at-Fits n ctx1 q f1)
                  (λ s' l'. elim (Two-cases s'.elems) [
                    | no_element few ↦ rw few tt
                    | one x one_only ↦ rw one_only tt
                    | two x y es two_or_more ↦
                        let ctx2 : StackCtx = store q (set_elems (x ∷ v0 ∷ es) s') ctx1 in
                        rw two_or_more (
                          Fits-store n ctx1 q (set_elems (x ∷ v0 ∷ es) s') f1
                              (second-length s' x y v0 es two_or_more l'),
                          refl,
                        )
                  ]))
        ])

  xch_split-Copies :
      (grants : ℕ → Bool) (v0 : VarFn) (ctx : StackCtx)
      → Fits n ctx
      → Meets (Exchanges ctx) (xch_split grants v0 ctx)
  unfolding xch_split
  xch_split-Copies grants v0 ctx h =
      Meets-bind (λ (s : Segment). length s.elems ≤ n) (Exchanges ctx) (segment_at ctx.active ctx) _
        (segment_at-Fits n ctx ctx.active h)
        (λ s l. elim (Option-cases s.prev) [
          | inl r ↦ rw r tt
          | inr (p, r) ↦ rw r (
              Meets-bind (λ (r : ℕ × StackCtx). Copies n ctx r.1) (Exchanges ctx)
                (separate grants p ctx) _ (separate-Copies n grants p ctx h)
                (λ (q, ctx1) k.
                  Meets-mono (Swaps ctx1) (Exchanges ctx) (xch_at v0 q ctx1)
                    (xch_at-Still v0 q ctx1 k.0)
                    (λ (y, ctx2) k2. Copies-still n ctx ctx1 ctx2 k2.1 k k2.0)))
        ])

  -- If no segment has more elements than `n`, the size of a segment, that is still so after an
  -- exchange that succeeds, and each reference count of the pool that is at most 2^32 - 1 - n does not
  -- fall by it and grows by `n` at most.
  pub xch-Copies :
      (grants : ℕ → Bool) (v0 : VarFn) (ctx : StackCtx)
      → Fits n ctx
      → Meets (Exchanges ctx) (xch grants v0 ctx)
  unfolding xch
  xch-Copies grants v0 ctx h =
      Meets-bind (λ (s : Segment). length s.elems ≤ n) (Exchanges ctx) (segment_at ctx.active ctx) _
        (segment_at-Fits n ctx ctx.active h)
        (λ s l. elim (Two-cases s.elems) [
          | no_element q ↦ rw q (xch_split-Copies grants v0 ctx h)
          | one x q ↦ rw q (xch_split-Copies grants v0 ctx h)
          | two x y es q ↦
              let ctx1 : StackCtx = store ctx.active (set_elems (x ∷ v0 ∷ es) s) ctx in
              rw q (
                Still-Copies n ctx ctx1 (
                  Fits-store n ctx ctx.active (set_elems (x ∷ v0 ∷ es) s) h
                      (second-length s x y v0 es q l),
                  refl,
                ))
        ])
