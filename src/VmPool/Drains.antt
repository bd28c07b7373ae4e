-- ===== src/VmPool/Drains.antt =====
-- `u6a_vm_pool_free`: the elements that are pending lose a reference, and none of them is freed.
use u6a.Base.{
  ℕ, zero, suc, ◌+◌, ◌≤◌, ◌≡◌, ◌≢◌, refl, true, List, [], ◌∷◌, ◌++◌, map, ok, ne→==, arith, length,
}
use u6a.VmHeap.{VarFn, dec}
use u6a.VmStack.{is_ref}
use u6a.VmPool.{Vm, count, with_pool, free_loop}
use u6a.VmPool.Owed.{owed, Pins, Pinned, Sound}
use u6a.VmPool.Drops.{dropped, count-dropped, Pinned-left, Sound-dropped}

-- Only what is pending, which does not count, is different.
pub Sound-pending :
    {v : Vm} {pins : Pins} {xs : List VarFn} {cells grows : ℕ} (pending : List ℕ)
    → Sound v pins xs cells grows
    → Sound (with_pool (record v.pool { fstack = pending }) v) pins xs cells grows
Sound-pending pending s = record {
  valid = s.valid;
  enough = s.enough;
  places = s.places;
  fits = s.fits;
  counted = s.counted;
  holds = s.holds;
}

-- From one state to another, those references are gone from the counts, and the holes are those.
abbrev pub Gone : Vm → Vm → List VarFn → (holes : List ℕ) → Type 0
Gone v v1 ds holes = ((e : ℕ) → count e v1 + owed e ds ≡ count e v) × (v1.pool.holes ≡ holes)

-- The loop ends, with the invariant and without the references; what the elements hold, and the
-- stack, are as they were.
abbrev pub Ends : (fuel e : ℕ) → Vm → Pins → (ds xs : List VarFn) → (cells grows : ℕ) → Type 0
Ends fuel e v pins ds xs cells grows =
    (v1 : Vm) × (free_loop fuel e v ≡ ok v1)
    × Sound v1 pins xs cells grows
    × (v1.pool.held ≡ v.pool.held)
    × (v1.stack ≡ record v.stack { refs = v1.stack.refs })
    × Gone v v1 ds v.pool.holes

abbrev pub AllPinned : Pins → List VarFn → Type 0
AllPinned pins [] = Unit
AllPinned pins (x ∷ xs) = (is_ref x ≡ true) × Pinned pins x × AllPinned pins xs

-- References to pinned elements are dropped, and no element is freed.
drain :
    (fuel : ℕ) (v : Vm) (pins : Pins) (x : VarFn) (ds xs : List VarFn) (cells grows : ℕ)
    → AllPinned pins (x ∷ ds)
    → Sound v pins (x ∷ (ds ++ xs)) cells grows
    → v.pool.fstack ≡ map (λ (d : VarFn). d.ref) ds
    → length ds ≤ fuel
    → Ends (suc fuel) x.ref v pins (x ∷ ds) xs cells grows
unfolding free_loop
drain fuel v pins x [] xs cells grows (r, p, rest) s e l =
    let others : dec (count x.ref v) ≢ 0 = Pinned-left x xs s r p in
    (
      dropped x v,
      rw (ne→== (dec (count x.ref v)) 0 others, free_loop, e) refl,
      Sound-dropped x xs s r others,
      refl,
      refl,
      ((λ c. omega (arith, count-dropped x xs s r c)), refl),
    )
drain zero v pins x (d ∷ ds) xs cells grows h s e l = absurd (omega (arith, l))
drain (suc fuel) v pins x (d ∷ ds) xs cells grows (r, p, rest) s e l =
    let others : dec (count x.ref v) ≢ 0 = Pinned-left x (d ∷ (ds ++ xs)) s r p in
    let pending : List ℕ = map (λ (c : VarFn). c.ref) ds in
    let v1 : Vm = with_pool (record v.pool { fstack = pending }) (dropped x v) in
    let (v2, ends, s2, held, stack, (counts, holes)) =
      drain fuel v1 pins d ds xs cells grows rest
        (Sound-pending pending (Sound-dropped x (d ∷ (ds ++ xs)) s r others)) refl
        (omega (arith, l)) in
    (
      v2,
      rw (ne→== (dec (count x.ref v)) 0 others, free_loop, e) ends,
      s2,
      held,
      stack,
      ((λ c. omega (arith, counts c, count-dropped x (d ∷ (ds ++ xs)) s r c)), holes),
    )

-- What the loop does once the values of an element are released, and their references are pending.
pub from_pending :
    (fuel : ℕ) (v : Vm) (pins : Pins) (ds xs : List VarFn) (cells grows : ℕ) (es : List ℕ)
    → AllPinned pins ds
    → Sound v pins (ds ++ xs) cells grows
    → length ds ≤ fuel
    → es ≡ map (λ (d : VarFn). d.ref) ds
    → (v1 : Vm) × ((elim es [
      | [] ↦ ok v
      | e ∷ es' ↦ free_loop fuel e (with_pool (record v.pool { fstack = es' }) v)
    ])
        ≡ ok v1)
      × Sound v1 pins xs cells grows
      × (v1.pool.held ≡ v.pool.held)
      × (v1.stack ≡ record v.stack { refs = v1.stack.refs })
      × Gone v v1 ds v.pool.holes
from_pending fuel v pins [] xs cells grows es h s l e =
    (v, rw e refl, s, refl, refl, ((λ c. omega arith), refl))
from_pending zero v pins (d ∷ ds) xs cells grows es h s l e = absurd (omega (arith, l))
from_pending (suc fuel) v pins (d ∷ ds) xs cells grows es h s l e =
    let pending : List ℕ = map (λ (c : VarFn). c.ref) ds in
    let (v1, ends, s1, held, stack, gone) =
      drain fuel (with_pool (record v.pool { fstack = pending }) v) pins d ds xs cells grows h
        (Sound-pending pending s) refl (omega (arith, l)) in
    (v1, rw e ends, s1, held, stack, gone)
