-- ===== src/VmPool/Allocs.antt =====
-- A new element of the pool, and the invariant of the reference counts.
use u6a.Base.{
  ℕ, suc, ◌+◌, ◌≤◌, ◌<◌, ◌^◌, ◌≡◌, ◌≢◌, refl, sym, ◌∙◌, true, false, List, [], ◌∷◌, ok, ◌==◌,
  Bool-cases, inl, inr, ==-refl, ==→eq, ==→ne, ne→==, arith,
}
use u6a.VmHeap.{VarFn}
use u6a.VmStack.{is_ref}
use u6a.VmStack.Pop.{List-cases}
use u6a.VmPool.{Held, fns, Vm, count, set_count, set_held, with_pool, elem_alloc, pool_alloc}
use u6a.VmPool.Alloc.{IsValid, InUse, grow-Holes}
use u6a.VmPool.Sums.{sum-suc, sum-same, sum-change, is_hole-cons, is_hole-Apart}
use u6a.VmPool.Owed.{occ, field, fields, Pins, need, Pinned, Sound}

-- A reference to a given element, by a function of those that hold one.
abbrev pub Refers : VarFn → ℕ → Type 0
Refers x e = (is_ref x ≡ true) × (x.ref ≡ e)

-- The new element with what it holds; what the elements in use hold is as before.
abbrev pub Gives : Vm → Pins → List VarFn → (a b : VarFn) → (cells grows : ℕ) → Type 0
Gives v pins xs a b cells grows =
    (e : ℕ) × (v1 : Vm) × (pool_alloc (fns a b) v ≡ ok (e, v1))
    × (v1.stack ≡ record v.stack { refs = v1.stack.refs })
    × (v1.pool.held e ≡ fns a b)
    × ((d : ℕ) → InUse v d → v1.pool.held d ≡ v.pool.held d)
    × ((x : VarFn) → Refers x e → Sound v1 pins (x ∷ xs) cells grows)

module _ (v : Vm) (pins : Pins) (xs : List VarFn) (a b : VarFn) (cells grows : ℕ)
    (s : Sound v pins (a ∷ b ∷ xs) (1 + cells) grows) (pa : Pinned pins a)
    (pb : Pinned pins b) where
  small : 1 + grows < 2 ^ 32
  small = elim s.fits [ inl no_cell ↦ absurd (omega (arith, no_cell)) | inr few ↦ few ]

  -- There was no reference to an element that was not in use.
  unneeded : (e : ℕ) → (InUse v e → ⊥) → need v pins (a ∷ b ∷ xs) e ≡ 0
  unneeded e unused = elim (Bool-cases (need v pins (a ∷ b ∷ xs) e == 0)) [
    | inl q ↦ ==→eq (need v pins (a ∷ b ∷ xs) e) 0 q
    | inr q ↦
        let some_left : need v pins (a ∷ b ∷ xs) e ≢ 0 = ==→ne (need v pins (a ∷ b ∷ xs) e) 0 q in
        absurd (unused (s.counted e (omega arith)).0)
  ]

  -- The invariant, from what has become of the fields.
  module _ (e : ℕ) (v1 : Vm) (unused : InUse v e → ⊥) (valid : IsValid v1)
      (enough : v1.pool.used + cells ≤ v1.pool.pool_len) (places : 2 ≤ v1.pool.fstack_len)
      (own : InUse v1 e) (once : count e v1 ≡ 1) (holds : v1.pool.held e ≡ fns a b)
      (kept : (d : ℕ) → InUse v d → InUse v1 d) (old : (d : ℕ) → InUse v1 d → d ≢ e → InUse v d)
      (same : (d : ℕ) → d ≢ e → (v1.pool.held d ≡ v.pool.held d) × (count d v1 ≡ count d v))
      (total : (d : ℕ) → fields d v1 ≡ fields d v + (occ d a + occ d b)) where
    allocated : (x : VarFn) → Refers x e → Sound v1 pins (x ∷ xs) cells grows
    allocated x (r, at) = record {
      valid = valid;
      enough = enough;
      places = places;
      fits = inr small;
      counted = λ d some_left. elim (Bool-cases (e == d)) [
        | inl q ↦
            let here : e ≡ d = ==→eq e d q in
            let none_before : need v pins (a ∷ b ∷ xs) d ≡ 0 =
              unneeded d (λ u. unused (rw here u)) in
            let one : occ d x ≡ 1 = rw (r, at, q) refl in
            let count_one : count d v1 ≡ 1 = rw⁻¹ here once in
            (rw⁻¹ here own, omega (arith, total d), omega (arith, small))
        | inr q ↦
            let other : e ≢ d = ==→ne e d q in
            let nothing : occ d x ≡ 0 = rw (r, at, q) refl in
            let (used, le, fits) = s.counted d (omega (arith, total d, some_left)) in
            let (h, c) = same d (λ k. other (sym k)) in
            (kept d used, omega (arith, total d), omega arith)
      ];
      holds = λ d used. elim (Bool-cases (e == d)) [
        | inl q ↦ let here : e ≡ d = ==→eq e d q in (a, b, rw⁻¹ here holds, pa, pb)
        | inr q ↦
            let other : d ≢ e = λ k. ==→ne e d q (sym k) in
            let (f, g, h, pf, pg) = s.holds d (old d used other) in
            (f, g, (same d other).0 ∙ h, pf, pg)
      ];
    }

  from_hole : (e : ℕ) (holes : List ℕ) → v.pool.holes ≡ e ∷ holes → Gives v pins xs a b cells grows
  unfolding pool_alloc elem_alloc
  from_hole e holes q =
      let valid = s.valid in
      let (l, apart, rest) = rw q at valid.1 in
      let h : Held = fns a b in
      let v1 : Vm = set_held e h (set_count e 1 (with_pool (record v.pool { holes = holes }) v)) in
      let unused : InUse v e → ⊥ = λ u. (rw q at u.1).0 refl in
      let enough : v1.pool.used + cells ≤ v1.pool.pool_len = let k = s.enough in omega arith in
      let total : (d : ℕ) → fields d v1 ≡ fields d v + (occ d a + occ d b) = λ d.
        let before : field d v e ≡ 0 = rw (q, is_hole-cons e e holes, ==-refl e) refl in
        let after : field d v1 e ≡ occ d a + occ d b =
          rw (is_hole-Apart e holes apart, ==-refl e) refl in
        let change = sum-change v.pool.used e (field d v) (field d v1) l (λ c k other.
          let n : (e == c) ≡ false = ne→== e c (λ z. other (sym z)) in
          rw (q, is_hole-cons c e holes, n) refl) in
        omega (arith, change, before, after) in
      (
        e,
        v1,
        rw (q, pool_alloc) refl,
        refl,
        rw (==-refl e) refl,
        λ d u. let other : e ≢ d = λ z. unused (rw z u) in rw (ne→== e d other) refl,
        allocated e v1 unused (valid.0, rest) enough s.places (l, apart) (rw (==-refl e) refl)
            (rw (==-refl e) refl) (λ d u. (u.0, (rw q at u.1).1))
            (λ d u other. (u.0, rw q ((λ z. other (sym z)), u.1)))
            (λ d other.
              let n : (e == d) ≡ false = ne→== e d (λ z. other (sym z)) in (rw n refl, rw n refl))
            total,
      )

  fresh : v.pool.holes ≡ [] → Gives v pins xs a b cells grows
  unfolding pool_alloc elem_alloc
  fresh q =
      let valid = s.valid in
      let e : ℕ = v.pool.used in
      let h : Held = fns a b in
      let room : e < v.pool.pool_len = let k = s.enough in omega arith in
      let v1 : Vm = set_held e h (set_count e 1 (with_pool (record v.pool { used = suc e }) v)) in
      let (holes, apart) = grow-Holes e v.pool.holes valid.1 in
      let unused : InUse v e → ⊥ = λ u. omega (arith, u.0) in
      let enough : v1.pool.used + cells ≤ v1.pool.pool_len = let k = s.enough in omega arith in
      let total : (d : ℕ) → fields d v1 ≡ fields d v + (occ d a + occ d b) = λ d.
        let after : field d v1 e ≡ occ d a + occ d b =
          rw (is_hole-Apart e v.pool.holes apart, ==-refl e) refl in
        let same =
          sum-same v.pool.used (field d v) (field d v1)
            (λ c k. let n : (e == c) ≡ false = ne→== e c (omega arith) in rw n refl) in
        omega (arith, sum-suc e (field d v1), same, after) in
      (
        e,
        v1,
        rw (q, pool_alloc, ne→== e v.pool.pool_len (omega arith)) refl,
        refl,
        rw (==-refl e) refl,
        λ d u. rw (ne→== e d (let l = u.0 in omega arith)) refl,
        allocated e v1 unused (omega arith, holes) enough s.places (omega arith, apart)
            (rw (==-refl e) refl) (rw (==-refl e) refl) (λ d u. (let l = u.0 in omega arith, u.1))
            (λ d u other. (let l = u.0 in omega arith, u.1))
            (λ d other.
              let n : (e == d) ≡ false = ne→== e d (λ z. other (sym z)) in (rw n refl, rw n refl))
            total,
      )

  -- If the counts of the pool are right, with a reference to each of two functions that an allocation
  -- is to hold, and at least one more element may be allocated, the allocation succeeds. The new
  -- element holds the two functions, what the elements in use hold stays as it was, and the counts are
  -- right with one reference to the new element, the other two having gone into it. The elements of
  -- the two functions are to be pinned.
  pub Sound-alloc : Gives v pins xs a b cells grows
  Sound-alloc = elim (List-cases v.pool.holes) [
    | inr (e, holes, q) ↦ from_hole e holes q
    | inl q ↦ fresh q
  ]
