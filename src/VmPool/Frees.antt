-- ===== src/VmPool/Frees.antt =====
-- `u6a_vm_pool_free`, and the invariant of the reference counts.
use u6a.Base.{
  ℕ, suc, ◌+◌, ◌<◌, ◌≤◌, ◌≡◌, refl, ap, Bool, true, false, List, [], ◌∷◌, ◌++◌, map, Result, ok,
  ◌==◌, Bool-cases, inl, inr, ==→eq, ==→ne, ne→==, eq→==, arith, ltb, length, if◌then◌else◌,
}
use u6a.VmHeap.{VarFn, StackError, dec}
use u6a.VmStack.{is_ref}
use u6a.VmPool.{
  fns, Vm, count, with_pool, add_hole, release, free_stack_push, free_loop, free_stack,
}
use u6a.VmPool.Owed.{owed, occ, held_occ, Pins, Pinned, Sound, Sound-fewer}
use u6a.VmPool.Drops.{
  dropped, one_less, count-dropped, hole_made, room_for_hole, referred, Sound-dropped, Sound-hole,
}
use u6a.VmPool.Drains.{Sound-pending, AllPinned, from_pending}

-- The references of an element that is freed, and those that are pending when it was.
abbrev refs_of : VarFn → VarFn → List VarFn
refs_of a b = (if is_ref a then a ∷ [] else []) ++ (if is_ref b then b ∷ [] else [])

abbrev pend : VarFn → List ℕ → List ℕ
pend x es = if is_ref x then x.ref ∷ es else es

pend-refs_of : (a b : VarFn) → pend a (pend b []) ≡ map (λ (d : VarFn). d.ref) (refs_of a b)
pend-refs_of a b = elim (Bool-cases (is_ref a)) [
  | inl p ↦ elim (Bool-cases (is_ref b)) [ inl q ↦ rw (p, q) refl | inr q ↦ rw (p, q) refl ]
  | inr p ↦ elim (Bool-cases (is_ref b)) [ inl q ↦ rw (p, q) refl | inr q ↦ rw (p, q) refl ]
]

owed-refs_of : (a b : VarFn) (e : ℕ) → owed e (refs_of a b) ≡ occ e a + occ e b
owed-refs_of a b e = by_kinds (is_ref a) (is_ref b) refl refl
  where
    by_kinds :
        (c d : Bool)
        → is_ref a ≡ c
        → is_ref b ≡ d
        → owed e ((if c then a ∷ [] else []) ++ (if d then b ∷ [] else [])) ≡ occ e a + occ e b
    by_kinds true true p q = omega arith
    by_kinds true false p q = let none_b : occ e b ≡ 0 = rw q refl in omega (arith, none_b)
    by_kinds false true p q = let none_a : occ e a ≡ 0 = rw p refl in omega (arith, none_a)
    by_kinds false false p q =
        let none_a : occ e a ≡ 0 = rw p refl in
        let none_b : occ e b ≡ 0 = rw q refl in omega (arith, none_a, none_b)

length-pend : (x : VarFn) (es : List ℕ) → length (pend x es) ≤ 1 + length es
length-pend x es = elim (Bool-cases (is_ref x)) [
  | inl p ↦ rw p (omega arith)
  | inr p ↦ rw p (omega arith)
]

free_stack_push-pend :
    (x : VarFn) (v : Vm) (es : List ℕ)
    → v.pool.fstack ≡ es
    → length es < v.pool.fstack_len
    → free_stack_push x v ≡ ok (with_pool (record v.pool { fstack = pend x es }) v)
unfolding free_stack_push
free_stack_push-pend x v es e l = elim (Bool-cases (is_ref x)) [
  | inl p ↦
      let room : ltb (length v.pool.fstack) v.pool.fstack_len ≡ true =
        let same : length v.pool.fstack ≡ length es = ap (λ (t : List ℕ). length t) e in
        ground arith in
      rw (p, room) (ap (λ t. ok (with_pool (record v.pool { fstack = x.ref ∷ t }) v)) e)
  | inr p ↦ rw p (ap (λ t. ok (with_pool (record v.pool { fstack = t }) v)) e)
]

released :
    (v : Vm) (a b : VarFn) (discard : ℕ → Vm → Result StackError Vm)
    → v.pool.fstack ≡ []
    → 2 ≤ v.pool.fstack_len
    → release discard (fns a b) v ≡ ok (with_pool (record v.pool { fstack = pend a (pend b []) }) v)
unfolding release
released v a b discard idle room =
    let v1 : Vm = with_pool (record v.pool { fstack = pend b [] }) v in
    rw (free_stack_push-pend b v [] idle (omega (arith, room)))
      (free_stack_push-pend a v1 (pend b []) refl (omega (arith, length-pend b [], room)))

module _ (v : Vm) (pins : Pins) (a b : VarFn) (pa : Pinned pins a) (pb : Pinned pins b) where
  refs_of-AllPinned : AllPinned pins (refs_of a b)
  refs_of-AllPinned = elim (Bool-cases (is_ref a)) [
    | inl p ↦ elim (Bool-cases (is_ref b)) [
      | inl q ↦ rw (p, q) (p, pa, (q, pb, tt))
      | inr q ↦ rw (p, q) (p, pa, tt)
    ]
    | inr p ↦ elim (Bool-cases (is_ref b)) [ inl q ↦ rw (p, q) (q, pb, tt) | inr q ↦ rw (p, q) tt ]
  ]

  length-refs_of : length (refs_of a b) ≤ 2
  length-refs_of = elim (Bool-cases (is_ref a)) [
    | inl p ↦ elim (Bool-cases (is_ref b)) [
      | inl q ↦ rw (p, q) (omega arith)
      | inr q ↦ rw (p, q) (omega arith)
    ]
    | inr p ↦ elim (Bool-cases (is_ref b)) [
      | inl q ↦ rw (p, q) (omega arith)
      | inr q ↦ rw (p, q) (omega arith)
    ]
  ]

  owed-either :
      (c d : Bool) (xs : List VarFn) (e : ℕ)
      → owed e (((if c then a ∷ [] else []) ++ (if d then b ∷ [] else [])) ++ xs)
        ≤ owed e (a ∷ b ∷ xs)
  owed-either true true xs e = omega arith
  owed-either true false xs e = omega arith
  owed-either false true xs e = omega arith
  owed-either false false xs e = omega arith

  Sound-refs_of :
      {xs : List VarFn} {cells grows : ℕ}
      → Sound v pins (a ∷ b ∷ xs) cells grows
      → Sound v pins (refs_of a b ++ xs) cells grows
  Sound-refs_of {xs} {cells} {grows} s =
      Sound-fewer (a ∷ b ∷ xs) (refs_of a b ++ xs) cells grows s
        (owed-either (is_ref a) (is_ref b) xs) (omega arith) (omega arith)

-- The counts and the holes, once a reference is dropped: if it was the last one to an element, that is a
-- hole, and the references that it held are dropped too.
abbrev pub Drops : VarFn → Vm → Vm → Type 0
Drops x v v1 =
    let last = count x.ref v == 1 in
    ((e : ℕ)
      → count e v1 + (occ e x + (if last then held_occ e (v.pool.held x.ref) else 0)) ≡ count e v)
    × (v1.pool.holes ≡ (if last then x.ref ∷ v.pool.holes else v.pool.holes))

-- The loop ends so.
abbrev pub Frees : (fuel : ℕ) → VarFn → Vm → Pins → List VarFn → (cells grows : ℕ) → Type 0
Frees fuel x v pins xs cells grows =
    (v1 : Vm) × (free_loop fuel x.ref v ≡ ok v1)
    × Sound v1 pins xs cells grows
    × (v1.pool.held ≡ v.pool.held)
    × (v1.stack ≡ record v.stack { refs = v1.stack.refs })
    × Drops x v v1

pub free_loop-Sound :
    (fuel : ℕ) (v : Vm) (pins : Pins) (x : VarFn) (xs : List VarFn) (cells grows : ℕ)
    → Sound v pins (x ∷ xs) cells grows
    → is_ref x ≡ true
    → v.pool.fstack ≡ []
    → Frees (3 + fuel) x v pins xs cells grows
unfolding free_loop add_hole
free_loop-Sound fuel v pins x xs cells grows s r idle =
    elim (Bool-cases (dec (count x.ref v) == 0)) [
      | inr others ↦
          let s1 : Sound (dropped x v) pins xs cells grows =
            Sound-dropped x xs s r (==→ne (dec (count x.ref v)) 0 others) in
          let three : 3 + fuel ≡ suc (2 + fuel) = omega arith in
          let more_left : (count x.ref v == 1) ≡ false =
            ne→== (count x.ref v) 1
              (λ e. ==→ne (dec (count x.ref v)) 0 others (omega (arith, one_less x xs s r, e))) in
          (
            dropped x v,
            rw (three, others, free_loop, idle) refl,
            s1,
            refl,
            refl,
            ((λ e. rw more_left (omega (arith, count-dropped x xs s r e))), rw more_left refl),
          )
      | inl last ↦
          let none_left : dec (count x.ref v) ≡ 0 = ==→eq (dec (count x.ref v)) 0 last in
          let (a, b, held, pa, pb) = s.holds x.ref (referred x xs s r).0 in
          let v1 : Vm = hole_made x xs s r v in
          let pending : List ℕ = pend a (pend b []) in
          let v2 : Vm = with_pool (record v1.pool { fstack = pending }) v1 in
          let three : 3 + fuel ≡ suc (2 + fuel) = omega arith in
          let room = room_for_hole x xs s r in
          let one_left : (count x.ref v == 1) ≡ true =
            eq→== (count x.ref v) 1 (omega (arith, one_less x xs s r, none_left)) in
          let (v3, ends, s3, held3, stack3, (counts, holes)) =
            from_pending (2 + fuel) v2 pins (refs_of a b) xs cells grows pending
              (refs_of-AllPinned v1 pins a b pa pb)
              (Sound-pending pending
                (Sound-refs_of v1 pins a b pa pb (Sound-hole x xs s r a b held none_left)))
              (omega (arith, length-refs_of v1 pins a b pa pb)) (pend-refs_of a b) in
          (
            v3,
            rw
                (
                  three,
                  last,
                  free_loop,
                  room,
                  held,
                  released v1 a b (λ c w. free_stack (2 + fuel) true c w) idle s.places,
                )
                ends,
            s3,
            held3,
            stack3,
            (
              (λ e.
                  rw (one_left, held)
                    (omega (arith, counts e, owed-refs_of a b e, count-dropped x xs s r e))),
              rw one_left holes,
            ),
          )
    ]
