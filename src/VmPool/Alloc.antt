-- ===== src/VmPool/Alloc.antt =====
-- Which elements of the pool are in use, and what allocation does to them.
use u6a.Base.{
  ℕ, suc, ◌≤◌, ◌<◌, ◌≡◌, ◌≢◌, ◌⊎◌, inl, inr, refl, sym, List, [], ◌∷◌, ok, err, ◌==◌, Bool-cases,
  eq→==, ==-refl, ne→==, ==→eq, ==→ne, arith,
}
use u6a.VmStack.Pop.{List-cases}
use u6a.VmHeap.{pool_oom}
use u6a.VmPool.{Held, Vm, count, set_count, set_held, with_pool, elem_alloc, pool_alloc}

-- An element is none of the holes.
abbrev pub Apart : ℕ → List ℕ → Type 0
Apart e [] = Unit
Apart e (x ∷ xs) = (x ≢ e) × Apart e xs

-- The holes are different elements, below a bound.
abbrev pub Holes : ℕ → List ℕ → Type 0
Holes n [] = Unit
Holes n (x ∷ xs) = (x < n) × Apart x xs × Holes n xs

-- The elements that were taken from the pool are no more than it has, and the holes are some of them.
abbrev pub IsValid : Vm → Type 0
IsValid v = (v.pool.used ≤ v.pool.pool_len) × Holes v.pool.used v.pool.holes

-- In use: taken at some time, and not a hole.
abbrev pub InUse : Vm → ℕ → Type 0
InUse v e = (e < v.pool.used) × Apart e v.pool.holes

-- Not taken yet, or a hole.
abbrev pub NotInUse : Vm → ℕ → Type 0
NotInUse v e = (b : ℕ) → InUse v b → b ≢ e

-- All elements in use stay so, with what they hold and with their counts.
abbrev pub Kept : Vm → Vm → Type 0
Kept v v1 =
    (b : ℕ) → InUse v b → InUse v1 b × (v1.pool.held b ≡ v.pool.held b) × (count b v1 ≡ count b v)

-- A new element, with what it is to hold and one reference.
abbrev pub Allocated : Held → Vm → Type 0
Allocated h v =
    (e : ℕ) × (v1 : Vm) × (pool_alloc h v ≡ ok (e, v1))
    × IsValid v1
    × NotInUse v e
    × InUse v1 e
    × (v1.pool.held e ≡ h)
    × (count e v1 ≡ 1)
    × Kept v v1

-- All elements are in use.
abbrev pub Exhausted : Held → Vm → Type 0
Exhausted h v = (pool_alloc h v ≡ err pool_oom) × ((b : ℕ) → b < v.pool.pool_len → InUse v b)

pub grow-Holes : (n : ℕ) (xs : List ℕ) → Holes n xs → Holes (suc n) xs × Apart n xs
grow-Holes n [] h = (tt, tt)
grow-Holes n (x ∷ xs) (l, a, h) =
    let (g, b) = grow-Holes n xs h in ((omega arith, a, g), (omega arith, b))

module _ (h : Held) (v : Vm) (valid : IsValid v) where
  from_hole : (e : ℕ) (holes : List ℕ) → v.pool.holes ≡ e ∷ holes → Allocated h v
  unfolding pool_alloc elem_alloc
  from_hole e holes q =
      let (l, a, rest) = rw q at valid.1 in
      let v1 : Vm = set_held e h (set_count e 1 (with_pool (record v.pool { holes = holes }) v)) in
      (
        e,
        v1,
        rw (q, pool_alloc) refl,
        (valid.0, rest),
        λ b used_b k. (rw q at used_b.1).0 (sym k),
        (l, a),
        rw (==-refl e) refl,
        rw (==-refl e) refl,
        λ b used_b.
            let other : e ≢ b = (rw q at used_b.1).0 in
            (
              (used_b.0, (rw q at used_b.1).1),
              rw (ne→== e b other) refl,
              rw (ne→== e b other) refl,
            ),
      )

  fresh : v.pool.holes ≡ [] → v.pool.used ≢ v.pool.pool_len → Allocated h v
  unfolding pool_alloc elem_alloc
  fresh q ne =
      let e : ℕ = v.pool.used in
      let v1 : Vm = set_held e h (set_count e 1 (with_pool (record v.pool { used = suc e }) v)) in
      let (holes, apart) = grow-Holes e v.pool.holes valid.1 in
      (
        e,
        v1,
        rw (q, pool_alloc, ne→== e v.pool.pool_len ne) refl,
        (omega (arith, valid.0), holes),
        λ b used_b. omega (arith, used_b.0),
        (omega arith, apart),
        rw (==-refl e) refl,
        rw (==-refl e) refl,
        λ b used_b.
            let other : e ≢ b = omega (arith, used_b.0) in
            (
              (omega (arith, used_b.0), used_b.1),
              rw (ne→== e b other) refl,
              rw (ne→== e b other) refl,
            ),
      )

  exhausted : v.pool.holes ≡ [] → v.pool.used ≡ v.pool.pool_len → Exhausted h v
  unfolding pool_alloc elem_alloc
  exhausted q full = (
    rw (q, pool_alloc, eq→== v.pool.used v.pool.pool_len full) refl,
    λ b l. (omega (arith, full), rw q tt),
  )

  -- In a valid pool, allocation gives an element that was not in use, with what it is to hold and one reference, and
  -- leaves all that are in use with what they hold and with their counts, and the pool valid; or all
  -- elements are in use, and it is an error.
  pub pool_alloc-IsValid : Allocated h v ⊎ Exhausted h v
  pool_alloc-IsValid = elim (List-cases v.pool.holes) [
    | inr (e, holes, q) ↦ inl (from_hole e holes q)
    | inl q ↦ elim (Bool-cases (v.pool.used == v.pool.pool_len)) [
      | inl full ↦ inr (exhausted q (==→eq v.pool.used v.pool.pool_len full))
      | inr room ↦ inl (fresh q (==→ne v.pool.used v.pool.pool_len room))
    ]
  ]
