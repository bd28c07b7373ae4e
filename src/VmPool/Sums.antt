-- ===== src/VmPool/Sums.antt =====
-- Sums over the elements of the pool.
use u6a.Base.{
  ℕ, zero, suc, ◌+◌, ◌≤◌, ◌<◌, ◌≡◌, ◌≢◌, refl, Bool, false, List, [], ◌∷◌, ◌==◌, ◌||◌, Bool-cases,
  inl, inr, ==→eq, ==→ne, ne→==, arith,
}
use u6a.VmPool.Alloc.{Apart}

pub sum : ℕ → (ℕ → ℕ) → ℕ
sum zero g = 0
sum (suc n) g = g n + sum n g

pub sum-suc : (n : ℕ) (g : ℕ → ℕ) → sum (suc n) g ≡ g n + sum n g
unfolding sum
sum-suc n g = refl

pub sum-zero : (g : ℕ → ℕ) → sum zero g ≡ 0
unfolding sum
sum-zero g = refl

pub sum-same : (n : ℕ) (g g' : ℕ → ℕ) → ((b : ℕ) → b < n → g' b ≡ g b) → sum n g' ≡ sum n g
unfolding sum
sum-same zero g g' h = refl
sum-same (suc n) g g' h =
    omega (arith, h n (omega arith), sum-same n g g' (λ b l. h b (omega arith)))

-- A summand is changed.
pub sum-change :
    (n e : ℕ) (g g' : ℕ → ℕ)
    → e < n
    → ((b : ℕ) → b < n → b ≢ e → g' b ≡ g b)
    → sum n g' + g e ≡ sum n g + g' e
unfolding sum
sum-change zero e g g' l h = absurd (omega (arith, l))
sum-change (suc n) e g g' l h = elim (Bool-cases (e == n)) [
  | inl q ↦
      let at : e ≡ n = ==→eq e n q in
      let rest : sum n g' ≡ sum n g = sum-same n g g' (λ b k. h b (omega arith) (omega arith)) in
      rw at (omega (arith, rest))
  | inr q ↦
      let other : e ≢ n = ==→ne e n q in
      omega (
        arith,
        h n (omega arith) (λ k. other (omega (arith, k))),
        sum-change n e g g' (omega (arith, l, other)) (λ b k. h b (omega arith)),
      )
]

pub le-sum : (n e : ℕ) (g : ℕ → ℕ) → e < n → g e ≤ sum n g
unfolding sum
le-sum zero e g l = absurd (omega (arith, l))
le-sum (suc n) e g l = elim (Bool-cases (e == n)) [
  | inl q ↦ let at : e ≡ n = ==→eq e n q in rw at (omega arith)
  | inr q ↦ let other : e ≢ n = ==→ne e n q in omega (arith, le-sum n e g (omega (arith, l, other)))
]

-- One of the holes.
pub is_hole : ℕ → List ℕ → Bool
is_hole e [] = false
is_hole e (x ∷ xs) = x == e || is_hole e xs

pub is_hole-cons : (e x : ℕ) (xs : List ℕ) → is_hole e (x ∷ xs) ≡ (x == e || is_hole e xs)
unfolding is_hole
is_hole-cons e x xs = refl

pub is_hole-Apart : (e : ℕ) (xs : List ℕ) → Apart e xs → is_hole e xs ≡ false
unfolding is_hole
is_hole-Apart e [] h = refl
is_hole-Apart e (x ∷ xs) (n, h) = rw (ne→== x e n, is_hole-Apart e xs h) refl
