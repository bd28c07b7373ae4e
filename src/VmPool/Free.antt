-- ===== src/VmPool/Free.antt =====
-- What happens when the last reference to an element is dropped.
use u6a.Base.{
  ℕ, zero, suc, ◌+◌, ◌≤◌, ◌≡◌, ◌≢◌, refl, sym, true, false, List, [], ◌∷◌, length, ltb, ok, ◌==◌,
  Bool-cases, inl, inr, ne→==, ==→eq, ==→ne, if◌then◌else◌, arith,
}
use u6a.VmHeap.{VarFn, dec}
use u6a.VmStack.{is_ref}
use u6a.VmPool.{
  Held, fns, Vm, count, set_count, set_held, with_pool, add_hole, release, free_stack_push,
  free_loop, pool_alloc, elem_alloc,
}
use u6a.VmPool.Alloc.{Apart, Holes, IsValid, InUse, NotInUse}

-- Different numbers below a bound are no more than the bound.
remove : ℕ → List ℕ → List ℕ
remove n [] = []
remove n (x ∷ xs) = let rest = remove n xs in if x == n then xs else x ∷ rest

remove-Apart : (n x : ℕ) (xs : List ℕ) → Apart x xs → Apart x (remove n xs)
unfolding remove
remove-Apart n x [] a = tt
remove-Apart n x (y ∷ xs) (p, a) = elim (Bool-cases (y == n)) [
  | inl q ↦ rw q a
  | inr q ↦ rw q (p, remove-Apart n x xs a)
]

below_last : (n : ℕ) (xs : List ℕ) → Apart n xs → Holes (suc n) xs → Holes n xs
below_last n [] a h = tt
below_last n (x ∷ xs) (p, a) (l, b, h) = (omega (arith, p), b, below_last n xs a h)

remove-Holes : (n : ℕ) (xs : List ℕ) → Holes (suc n) xs → Holes n (remove n xs)
unfolding remove
remove-Holes n [] h = tt
remove-Holes n (x ∷ xs) (l, a, h) = elim (Bool-cases (x == n)) [
  | inl q ↦ rw q (below_last n xs (rw (==→eq x n q) at a) h)
  | inr q ↦
      let other : x ≢ n = ==→ne x n q in
      rw q (omega (arith, other), remove-Apart n x xs a, remove-Holes n xs h)
]

length-remove : (n : ℕ) (xs : List ℕ) → length xs ≤ length (remove n xs) + 1
unfolding remove
length-remove n [] = omega arith
length-remove n (x ∷ xs) = elim (Bool-cases (x == n)) [
  | inl q ↦ rw q (omega arith)
  | inr q ↦ rw q (omega (arith, length-remove n xs))
]

pub length-Holes : (n : ℕ) (xs : List ℕ) → Holes n xs → length xs ≤ n
length-Holes zero [] h = omega arith
length-Holes zero (x ∷ xs) h = absurd (omega (arith, h.0))
length-Holes (suc n) xs h =
    omega (arith, length-remove n xs, length-Holes n (remove n xs) (remove-Holes n xs h))

-- The element is a hole, and will be the next that is allocated; all others are as they were.
abbrev pub Freed : ℕ → ℕ → Vm → Type 0
Freed fuel e v =
    (v1 : Vm) × (free_loop (suc fuel) e v ≡ ok v1)
    × IsValid v1
    × NotInUse v1 e
    × ((b : ℕ) → InUse v b → b ≢ e → InUse v1 b × (count b v1 ≡ count b v))
    × ((h : Held) → (v2 : Vm) × (pool_alloc h v1 ≡ ok (e, v2)))

-- If the last reference to an element in use is dropped, it holds no other element, and none is
-- pending, the element becomes a hole, for which the stack of holes has a place, and is the next that is allocated; the
-- other elements in use stay so with their counts, and the pool stays valid.
pub free_loop-IsValid :
    (fuel e : ℕ) (v : Vm) (x y : VarFn)
    → IsValid v
    → InUse v e
    → count e v ≡ 1
    → v.pool.held e ≡ fns x y
    → is_ref x ≡ false
    → is_ref y ≡ false
    → v.pool.fstack ≡ []
    → Freed fuel e v
unfolding free_loop add_hole release free_stack_push pool_alloc elem_alloc
free_loop-IsValid fuel e v x y (bound, holes) (l, a) once held px py idle =
    let few : suc (length v.pool.holes) ≤ v.pool.used =
      length-Holes v.pool.used (e ∷ v.pool.holes) (l, a, holes) in
    let room : ltb (length v.pool.holes) v.pool.pool_len ≡ true = ground arith in
    let v1 : Vm =
      with_pool (record v.pool { holes = e ∷ v.pool.holes }) (set_count e (dec (count e v)) v) in
    let zero_left : (dec (count e v) == 0) ≡ true = rw once refl in
    (
      v1,
      rw (zero_left, free_loop, room, held, py, px, idle) refl,
      (bound, (l, a, holes)),
      λ b used_b k. used_b.1.0 (sym k),
      λ b used_b other.
          ((used_b.0, ((λ k. other (sym k)), used_b.1)), rw (ne→== e b (λ k. other (sym k))) refl),
      λ h. (
        set_held e h (set_count e 1 (with_pool (record v1.pool { holes = v.pool.holes }) v1)),
        refl,
      ),
    )
