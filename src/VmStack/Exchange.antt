-- ===== src/VmStack/Exchange.antt =====
-- Exchanging the second element of the stack.
use u6a.Base.{
  ℕ, ◌≤◌, ◌≡◌, refl, sym, ◌∙◌, ap, Bool, true, none, some, List, [], ◌∷◌, ◌++◌, length, ok, inl,
  inr, arith,
}
use u6a.VmHeap.{VarFn, Segment, StackCtx, put, set_refcnt, set_elems, store, free, activate}
use u6a.VmStack.{xch}
use u6a.VmStack.Chain.{
  Within-vacant, Within-put, Below, Within, Holds, At-elems, free-put, put-other,
}
use u6a.VmStack.Pop.{put-none, first_segment, List-cases}
use u6a.VmStack.Separate.{separated}
use u6a.VmStack.InPlace.{
  SharedBelow, Exchanges, Exchanged, Two-cases, Holds-same, free-none, xch-here, both, xch_at-both,
  xch_at-one, both-Within, Holds-both, xch-one, xch-none,
}

module _ (grants : ℕ → Bool) (v0 x y : VarFn) (ctx : StackCtx) (n : 5 ≤ ctx.seg_len) (s : Segment)
    (xs ys : List VarFn) (f : (a : ℕ) → ctx.next ≤ a → ctx.heap a ≡ none)
    (e : ctx.heap ctx.active ≡ some s)
    (b : Below ctx.seg_len (put ctx.active none ctx.heap) s.prev ys)
    (g : grants ctx.next ≡ true) where
  -- The first element is the only one of the active segment.
  exchange-one : s.elems ≡ x ∷ [] → ys ≡ y ∷ xs → Exchanges grants v0 x y xs ctx
  exchange-one r r' =
      let (p, t, link, e1, len, zs, b1, q1) = first_segment y xs b r' in
      let (q, h, next, rs, t', c, sep, e2, same, e3, apart, f', b2, old) =
        separated grants p s t zs ctx f e e1 b1 g in
      let ctx1 : StackCtx = record ctx { heap = h; next = next; refs = rs } in
      elim (List-cases t.elems) [
        | inl empty ↦ absurd (omega (arith, ap (λ (l : List VarFn). length l) empty))
        | inr (y', es, te) ↦
            let head : y ≡ y' = cc (rw te at q1) in
            let tail : xs ≡ es ++ zs = cc (rw te at q1) in
            let te' : t'.elems ≡ y ∷ es = same ∙ te ∙ rw head refl in
            (
              record ctx1 { heap = both grants v0 x y ctx1 n (set_refcnt c s) t' q es },
              xch-one grants v0 x y ctx ctx1 s p q e link sep
                  (xch_at-both grants v0 x y ctx1 n (set_refcnt c s) t' q es refl apart e3 r e2 te')
                  r,
              Holds-same (record ctx1 { heap = both grants v0 x y ctx1 n (set_refcnt c s) t' q es })
                  (ap (λ (l : List VarFn). x ∷ v0 ∷ l) (sym tail))
                  (Holds-both grants v0 x y ctx1 n (set_refcnt c s) t' q es zs apart f' e3 r e2 te'
                    (omega (arith, len, ap (λ (l : List VarFn). length l) same)) b2),
              λ shared.
                  let (vacant, w) = old (shared s t p e link (put-none ctx.heap ctx.active p e1)) in
                  both-Within grants v0 x y ctx1 n (set_refcnt c s) t' q es ctx.heap apart vacant w,
            )
      ]

  -- The active segment is empty.
  exchange-none : s.elems ≡ [] → ys ≡ x ∷ y ∷ xs → Exchanges grants v0 x y xs ctx
  exchange-none r r' =
      let (p, t, link, e1, len, zs, b1, q1) = first_segment x (y ∷ xs) b r' in
      let (q, h, next, rs, t', c, sep, e2, same, e3, apart, f', b2, old) =
        separated grants p s t zs ctx f e e1 b1 g in
      let ctx1 : StackCtx = record ctx { heap = h; next = next; refs = rs } in
      elim (Two-cases t.elems) [
        | inl short ↦ absurd (omega arith)
        | inr (x', y', es, te) ↦
            let head : x ≡ x' = cc (rw te at q1) in
            let second : y ≡ y' = cc (rw te at q1) in
            let tail : xs ≡ es ++ zs = cc (rw te at q1) in
            let te' : t'.elems ≡ x ∷ y ∷ es = same ∙ te ∙ rw (head, second) refl in
            let t2 : Segment = set_elems (x ∷ v0 ∷ es) t' in
            let e4 : put ctx.active none h q ≡ some t' = put-other ctx.active q none h apart ∙ e2 in
            (
              activate q (store q t2 (free ctx.active ctx1)),
              xch-none grants v0 x y ctx ctx1 s p q e link sep
                  (xch_at-one grants v0 x y ctx1 n (set_refcnt c s) t' q es refl apart e3 r e2 te')
                  r,
              Holds-same (activate q (store q t2 (free ctx.active ctx1)))
                  (ap (λ (l : List VarFn). x ∷ v0 ∷ l) (sym tail))
                  (
                    n,
                    free-put (put ctx.active none h) q next (some t2) e4
                        (free-none h ctx.active next f'),
                    At-elems (put ctx.active none h) q t' (x ∷ v0 ∷ es) b2,
                  ),
              λ shared.
                  let (vacant, w) = old (shared s t p e link (put-none ctx.heap ctx.active p e1)) in
                  Within-vacant q (some t2) (put-other ctx.active q none ctx.heap apart ∙ vacant)
                    (Within-put ctx.active w),
            )
      ]

exchange :
    (grants : ℕ → Bool) (v0 x y : VarFn) (xs : List VarFn) (ctx : StackCtx)
    → Holds ctx (x ∷ y ∷ xs)
    → grants ctx.next ≡ true
    → Exchanges grants v0 x y xs ctx
exchange grants v0 x y xs ctx (n, f, (s, e, ys, b, q)) g = elim (Two-cases s.elems) [
  | inr (x', y', es, se) ↦
      let head : x ≡ x' = cc (rw se at q) in
      let second : y ≡ y' = cc (rw se at q) in
      let tail : xs ≡ es ++ ys = cc (rw se at q) in
      rw tail (xch-here grants v0 x y ctx n s es ys f e (se ∙ rw (head, second) refl) b)
  | inl short ↦ elim (List-cases s.elems) [
    | inl se ↦ exchange-none grants v0 x y ctx n s xs ys f e b g se (sym (q ∙ rw se refl))
    | inr (x', es, se) ↦ elim (List-cases es) [
      | inl ee ↦
          let one : s.elems ≡ x' ∷ [] = se ∙ rw ee refl in
          let head : x ≡ x' = cc (rw one at q) in
          let tail : ys ≡ y ∷ xs = cc (rw one at q) in
          exchange-one grants v0 x y ctx n s xs ys f e b g (one ∙ rw head refl) tail
      | inr (z, zs, ee) ↦
          let two : s.elems ≡ x' ∷ z ∷ zs = se ∙ rw ee refl in
          absurd (omega (arith, short, ap (λ (l : List VarFn). length l) two))
    ]
  ]
]

-- If a new segment is granted, exchanging gives the second element of the stack and puts the new
-- one into its place, also where the two elements lie in two segments or the segment is shared.
pub xch-Holds :
    (grants : ℕ → Bool) (v0 x y : VarFn) (xs : List VarFn) (ctx : StackCtx)
    → Holds ctx (x ∷ y ∷ xs)
    → grants ctx.next ≡ true
    → Exchanged grants v0 x y xs ctx
xch-Holds grants v0 x y xs ctx h g =
    let (ctx', e, holds, w) = exchange grants v0 x y xs ctx h g in (ctx', e, holds)

-- If, besides, the segment below the active one has other references, it is not written to: every
-- segment but the active one keeps its elements, also that one.
pub xch-shared :
    (grants : ℕ → Bool) (v0 x y : VarFn) (xs : List VarFn) (ctx : StackCtx)
    → Holds ctx (x ∷ y ∷ xs)
    → grants ctx.next ≡ true
    → SharedBelow ctx
    → (ctx' : StackCtx) × (xch grants v0 ctx ≡ ok (y, ctx'))
      × Within (put ctx.active none ctx.heap) ctx'.heap
xch-shared grants v0 x y xs ctx h g shared =
    let (ctx', e, holds, w) = exchange grants v0 x y xs ctx h g in (ctx', e, w shared)
