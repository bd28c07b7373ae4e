-- ===== src/VmStack/Pop.antt =====
-- Reading the top of the stack and then popping it, as the macro `STACK_POP` does.
use u6a.Base.{
  ℕ, ◌+◌, ◌≤◌, ◌≡◌, ◌≢◌, refl, sym, ◌∙◌, ap, Bool, Option, none, some, List, [], ◌∷◌, ◌++◌, length,
  length-append, ok, err, inl, inr, ◌⊎◌, arith, Bool-cases, ◌==◌,
}
use u6a.VmHeap.{VarFn, Segment, StackCtx, Heap, put, set_elems, store, activate, vm_err}
use u6a.VmStack.{top, pop}
use u6a.VmStack.Chain.{
  Below, bottom, above, Below-mono, Within-put, Within-less, Holds, At-elems, put-same, put-other,
  free-put, segment_at-some,
}

pub List-cases {ℓ} :
    {A : Type ℓ} (es : List A) → (es ≡ []) ⊎ ((x : A) × (xs : List A) × (es ≡ x ∷ xs))
List-cases [] = inl refl
List-cases (x ∷ xs) = inr (x, xs, refl)

-- What stands in a heap with a removal stands in the heap.
pub put-none : (h : Heap) (a b : ℕ) {s : Segment} → put a none h b ≡ some s → h b ≡ some s
put-none h a b e = elim (Bool-cases (a == b)) [ inl q ↦ cc (rw q at e) | inr q ↦ rw q at e ]

-- The first segment of a chain that is not empty.
pub first_segment :
    {n : ℕ} {h : Heap} {p : Option ℕ} {zs : List VarFn} (x : VarFn) (xs : List VarFn)
    → Below n h p zs
    → zs ≡ x ∷ xs
    → (a : ℕ) × (s : Segment) × (p ≡ some a)
      × (h a ≡ some s)
      × (n ≤ length s.elems + 3)
      × (ys : List VarFn) × Below n (put a none h) s.prev ys
      × (x ∷ xs ≡ s.elems ++ ys)
first_segment x xs bottom e = cc
first_segment x xs (above {a = a} s {ys} e k b) q = (a, s, refl, e, k, ys, b, sym q)

-- The active segment is not empty.
abbrev pub HasTop : StackCtx → VarFn → Type 0
HasTop ctx x =
    (s : Segment) × (es : List VarFn) × (ctx.heap ctx.active ≡ some s) × (s.elems ≡ x ∷ es)

top-active :
    (ctx : StackCtx) (x : VarFn) (es : List VarFn) (s : Segment)
    → ctx.heap ctx.active ≡ some s
    → s.elems ≡ x ∷ es
    → top ctx ≡ ok (x, ctx)
unfolding top
top-active ctx x es s e q = rw (segment_at-some ctx.active ctx e, q, top) refl

top-segment :
    (ctx : StackCtx) (x : VarFn) (es : List VarFn) (s t : Segment) (p : ℕ)
    → ctx.heap ctx.active ≡ some s
    → s.elems ≡ []
    → s.prev ≡ some p
    → ctx.heap p ≡ some t
    → t.elems ≡ x ∷ es
    → top ctx ≡ ok (x, activate p ctx)
unfolding top
top-segment ctx x es s t p e q link e2 r =
    rw (segment_at-some ctx.active ctx e, q, link, top) (rw (segment_at-some p ctx e2) (rw r refl))

-- If the active segment is empty, the one below it becomes active.
top-next_segment :
    (ctx : StackCtx) (x : VarFn) (xs ys : List VarFn) (s : Segment)
    → 5 ≤ ctx.seg_len
    → ((a : ℕ) → ctx.next ≤ a → ctx.heap a ≡ none)
    → ctx.heap ctx.active ≡ some s
    → s.elems ≡ []
    → Below ctx.seg_len (put ctx.active none ctx.heap) s.prev ys
    → ys ≡ x ∷ xs
    → (ctx' : StackCtx) × (top ctx ≡ ok (x, ctx')) × Holds ctx' (x ∷ xs) × HasTop ctx' x
unfolding top
top-next_segment ctx x xs ys s n f e q b r =
    let (p, t, link, e1, k, zs, b1, r1) = first_segment x xs b r in
    let e2 : ctx.heap p ≡ some t = put-none ctx.heap ctx.active p e1 in
    elim (List-cases t.elems) [
      | inl empty ↦ absurd (omega (arith, ap (λ (l : List VarFn). length l) empty))
      | inr (y, es, some_elems) ↦
          let same : x ≡ y = cc (rw some_elems at r1) in
          (
            activate p ctx,
            top-segment ctx x es s t p e q link e2 (some_elems ∙ rw same refl),
            (n, f, (t, e2, zs, Below-mono b1 (Within-put p (Within-less ctx.heap ctx.active)), r1)),
            (t, es, e2, some_elems ∙ rw same refl),
          )
    ]

pop-here :
    (grants : ℕ → Bool) (ctx : StackCtx) (x : VarFn) (xs : List VarFn)
    → Holds ctx (x ∷ xs)
    → HasTop ctx x
    → (ctx' : StackCtx) × (pop grants ctx ≡ ok ctx') × Holds ctx' xs
unfolding pop
pop-here grants ctx x xs (n, f, (s, e, ys, b, q)) (s', es, e', q') =
    let same : s ≡ s' = cc in
    let elems : s.elems ≡ x ∷ es = rw same q' in
    let rest : xs ≡ es ++ ys = cc (rw elems at q) in
    (
      store ctx.active (set_elems es s) ctx,
      rw (segment_at-some ctx.active ctx e, elems, pop) refl,
      (
        n,
        free-put ctx.heap ctx.active ctx.next (some (set_elems es s)) e f,
        rw rest (At-elems ctx.heap ctx.active s es b),
      ),
    )

-- On a stack that is not empty, reading the top gives the last pushed element, and popping then
-- leaves the others, across segments too. Neither needs memory.
pub top-pop :
    (grants : ℕ → Bool) (ctx : StackCtx) (x : VarFn) (xs : List VarFn)
    → Holds ctx (x ∷ xs)
    → (ctx1 ctx2 : StackCtx) × (top ctx ≡ ok (x, ctx1))
      × (pop grants ctx1 ≡ ok ctx2)
      × Holds ctx2 xs
top-pop grants ctx x xs (n, f, (s, e, ys, b, q)) = elim (List-cases s.elems) [
  | inl empty ↦
      let (ctx1, t, h1, t1) =
        top-next_segment ctx x xs ys s n f e empty b (sym (q ∙ rw empty refl)) in
      let (ctx2, p, h2) = pop-here grants ctx1 x xs h1 t1 in (ctx1, ctx2, t, p, h2)
  | inr (y, es, elems) ↦
      let same : x ≡ y = cc (rw elems at q) in
      let elems' : s.elems ≡ x ∷ es = rw same elems in
      let (ctx2, p, h2) = pop-here grants ctx x xs (n, f, (s, e, ys, b, q)) (s, es, e, elems') in
      (ctx, ctx2, top-active ctx x es s e elems', p, h2)
]

-- A chain that holds nothing has no segment.
no_segment :
    {n : ℕ} {h : Heap} {p : Option ℕ} {zs : List VarFn}
    → Below n h p zs
    → 5 ≤ n
    → zs ≡ []
    → p ≡ none
no_segment bottom k q = refl
no_segment (above s {ys} e k b) k' q =
    absurd (omega (arith, length-append {0} s.elems ys, ap (λ (l : List VarFn). length l) q))

-- Reading the top of an empty stack is an error.
pub top-empty : (ctx : StackCtx) → Holds ctx [] → top ctx ≡ err vm_err
unfolding top
top-empty ctx (n, f, (s, e, ys, b, q)) =
    let len : length s.elems + length ys ≡ 0 =
      omega (arith, length-append {0} s.elems ys, ap (λ (l : List VarFn). length l) q) in
    let link : s.prev ≡ none = no_segment b n (elim (List-cases ys) [
      | inl p ↦ p
      | inr (y, zs, p) ↦ absurd (omega (arith, len, ap (λ (l : List VarFn). length l) p))
    ]) in
    elim (List-cases s.elems) [
      | inl p ↦ rw (segment_at-some ctx.active ctx e, p, link, top) refl
      | inr (y, zs, p) ↦ absurd (omega (arith, len, ap (λ (l : List VarFn). length l) p))
    ]

-- If the active segment is empty, reading the top and popping removes the element from the segment
-- below in place, whatever number of references that one has, and the empty segment stays allocated.
pub top-pop-shared :
    (grants : ℕ → Bool) (ctx : StackCtx) (x : VarFn) (es : List VarFn) (s t : Segment) (p : ℕ)
    → ctx.heap ctx.active ≡ some s
    → s.elems ≡ []
    → s.prev ≡ some p
    → ctx.active ≢ p
    → ctx.heap p ≡ some t
    → t.elems ≡ x ∷ es
    → (ctx1 ctx2 : StackCtx) × (top ctx ≡ ok (x, ctx1))
      × (pop grants ctx1 ≡ ok ctx2)
      × (ctx2.heap p ≡ some (set_elems es t))
      × (ctx2.heap ctx.active ≡ some s)
unfolding pop
top-pop-shared grants ctx x es s t p e r link apart e' r' = (
  activate p ctx,
  store p (set_elems es t) (activate p ctx),
  top-segment ctx x es s t p e r link e' r',
  rw (segment_at-some p (activate p ctx) e', r', pop) refl,
  put-same p (some (set_elems es t)) ctx.heap,
  put-other p ctx.active (some (set_elems es t)) ctx.heap (λ q. apart (sym q)) ∙ e,
)
