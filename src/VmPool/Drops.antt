-- ===== src/VmPool/Drops.antt =====
-- Dropping a reference to an element of the pool, and the invariant of the reference counts.
use u6a.Base.{
  ℕ, suc, ◌+◌, ◌≤◌, ◌<◌, ◌^◌, ◌≡◌, ◌≢◌, refl, sym, true, false, List, ◌∷◌, ◌==◌, Bool-cases, inl,
  inr, ==-refl, ==→eq, ==→ne, ne→==, arith, ltb, length,
}
use u6a.VmHeap.{VarFn, dec}
use u6a.VmStack.{is_ref}
use u6a.VmPool.{fns, Vm, count, set_count, with_pool}
use u6a.VmPool.Alloc.{InUse}
use u6a.VmPool.Free.{length-Holes}
use u6a.VmPool.Sums.{sum-change, is_hole-cons, is_hole-Apart}
use u6a.VmPool.Owed.{occ, field, fields, Pins, pin, need, Pinned, Sound}

-- One reference less, where others are left.
abbrev pub dropped : VarFn → Vm → Vm
dropped x v = set_count x.ref (dec (count x.ref v)) v

occ_self : (x : VarFn) → is_ref x ≡ true → occ x.ref x ≡ 1
occ_self x r = rw (r, ==-refl x.ref) refl

module _ {v : Vm} {pins : Pins} {cells grows : ℕ} (x : VarFn) (xs : List VarFn)
    (s : Sound v pins (x ∷ xs) cells grows) (r : is_ref x ≡ true) where
  pub referred :
      InUse v x.ref
      × (need v pins (x ∷ xs) x.ref ≤ count x.ref v)
      × (count x.ref v + grows < 2 ^ 32)
  referred = s.counted x.ref (omega (arith, occ_self x r))

  pub one_less : dec (count x.ref v) + 1 ≡ count x.ref v
  one_less = let (used, le, small) = referred in omega (arith, occ_self x r)

  pub count-dropped : (e : ℕ) → count e (dropped x v) + occ e x ≡ count e v
  count-dropped e = elim (Bool-cases (x.ref == e)) [
    | inl q ↦
        let here : x.ref ≡ e = ==→eq x.ref e q in
        let less : dec (count x.ref v) + 1 ≡ count e v = rw⁻¹ here one_less in rw (r, q) less
    | inr q ↦ rw (r, q) (omega arith)
  ]

  -- The last reference is none that is pinned.
  pub Pinned-left : Pinned pins x → dec (count x.ref v) ≢ 0
  Pinned-left p e =
      let (used, le, small) = referred in
      let one : pin x.ref pins ≡ 1 = rw (p r) refl in omega (arith, occ_self x r, one_less, one, e)

  pub Sound-dropped : dec (count x.ref v) ≢ 0 → Sound (dropped x v) pins xs cells grows
  Sound-dropped others = record {
    valid = s.valid;
    enough = s.enough;
    places = s.places;
    fits = s.fits;
    counted = λ e some_left. elim (Bool-cases (x.ref == e)) [
      | inl q ↦
          let here : x.ref ≡ e = ==→eq x.ref e q in
          let one : occ e x ≡ 1 = rw (r, q) refl in
          let (used, le, small) = s.counted e (omega (arith, one)) in
          let less : dec (count x.ref v) + 1 ≡ count e v = rw⁻¹ here one_less in
          rw q (used, omega (arith, one, less, le), omega (arith, less, small))
      | inr q ↦
          let nothing : occ e x ≡ 0 = rw (r, q) refl in
          let (used, le, small) = s.counted e (omega (arith, nothing, some_left)) in
          rw q (used, omega (arith, nothing, le), small)
    ];
    holds = s.holds;
  }

  -- The element without its last reference becomes a hole. The references that it held are left.
  abbrev pub hole_made : Vm → Vm
  hole_made w = with_pool (record w.pool { holes = x.ref ∷ w.pool.holes }) (dropped x w)

  pub room_for_hole : ltb (length v.pool.holes) v.pool.pool_len ≡ true
  room_for_hole =
      let (used, le, small) = referred in
      let few : suc (length v.pool.holes) ≤ v.pool.used =
        length-Holes v.pool.used (x.ref ∷ v.pool.holes) (used.0, used.1, s.valid.1) in
      let bound = s.valid.0 in ground arith

  pub Sound-hole :
      (a b : VarFn)
      → v.pool.held x.ref ≡ fns a b
      → dec (count x.ref v) ≡ 0
      → Sound (hole_made v) pins (a ∷ b ∷ xs) cells grows
  Sound-hole a b held last =
      let (used, le, small) = referred in
      let total : (e : ℕ) → fields e (hole_made v) + (occ e a + occ e b) ≡ fields e v = λ e.
        let before : field e v x.ref ≡ occ e a + occ e b =
          rw (is_hole-Apart x.ref v.pool.holes used.1, held) refl in
        let after : field e (hole_made v) x.ref ≡ 0 =
          rw (is_hole-cons x.ref x.ref v.pool.holes, ==-refl x.ref) refl in
        let change =
          sum-change v.pool.used x.ref (field e v) (field e (hole_made v)) used.0 (λ c k other.
            let n : (x.ref == c) ≡ false = ne→== x.ref c (λ z. other (sym z)) in
            rw (is_hole-cons c x.ref v.pool.holes, n) refl) in
        omega (arith, change, before, after) in
      record {
        valid = (s.valid.0, (used.0, used.1, s.valid.1));
        enough = s.enough;
        places = s.places;
        fits = s.fits;
        counted = λ e some_left. elim (Bool-cases (x.ref == e)) [
          | inl q ↦
              let here : x.ref ≡ e = ==→eq x.ref e q in
              let one : occ e x ≡ 1 = rw (r, q) refl in
              let (u, l, k) = s.counted e (omega (arith, one)) in
              let less : dec (count x.ref v) + 1 ≡ count e v = rw⁻¹ here one_less in
              absurd (omega (arith, one, less, l, last, total e, some_left))
          | inr q ↦
              let nothing : occ e x ≡ 0 = rw (r, q) refl in
              let (u, l, k) = s.counted e (omega (arith, nothing, some_left, total e)) in
              rw q ((u.0, (==→ne x.ref e q, u.1)), omega (arith, nothing, l, total e), k)
        ];
        holds = λ e u. s.holds e (u.0, u.1.1);
      }
