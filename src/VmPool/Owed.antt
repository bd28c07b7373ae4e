-- ===== src/VmPool/Owed.antt =====
-- How many references there are to an element of the pool, and the invariant of their counts.
use u6a.Base.{
  ℕ, ◌+◌, ◌≤◌, ◌<◌, ◌^◌, ◌≡◌, ◌⊎◌, refl, Bool, true, false, List, [], ◌∷◌, ◌==◌, ◌&&◌, ◌||◌,
  Bool-cases, inl, inr, ==-refl, ==→eq, if◌then◌else◌, arith,
}
use u6a.VmHeap.{VarFn, StackCtx}
use u6a.VmStack.{is_ref}
use u6a.VmStack.Grows.{Grown}
use u6a.VmPool.{Held, fns, cont, Vm, count, with_stack, var_fn_addref}
use u6a.VmPool.Alloc.{IsValid, InUse}
use u6a.VmPool.Sums.{sum, is_hole}

-- The references that a function, and those that what an element holds, has to an element.
abbrev pub occ : ℕ → VarFn → ℕ
occ e x = if is_ref x && x.ref == e then 1 else 0

abbrev pub held_occ : ℕ → Held → ℕ
held_occ e (fns a b) = occ e a + occ e b
held_occ e (cont s i) = 0

-- Those from outside the pool, and those of the elements in use.
abbrev pub owed : ℕ → List VarFn → ℕ
owed e [] = 0
owed e (x ∷ xs) = occ e x + owed e xs

abbrev pub field : ℕ → Vm → ℕ → ℕ
field e v b = if is_hole b v.pool.holes then 0 else held_occ e (v.pool.held b)

abbrev pub fields : ℕ → Vm → ℕ
fields e v = sum v.pool.used (field e v)

-- One reference that is never dropped, to each element that has been in the accumulator and was
-- overwritten there.
abbrev pub Pins : Type 0
Pins = ℕ → Bool

abbrev pub pin : ℕ → Pins → ℕ
pin e pins = if pins e then 1 else 0

abbrev pub need : Vm → Pins → List VarFn → ℕ → ℕ
need v pins xs e = pin e pins + (owed e xs + fields e v)

abbrev pub Pinned : Pins → VarFn → Type 0
Pinned pins x = is_ref x ≡ true → pins x.ref ≡ true

-- Each element in use holds two functions, whose elements are pinned.
abbrev pub HoldsPinned : Vm → Pins → ℕ → Type 0
HoldsPinned v pins e =
    (a : VarFn) × (b : VarFn) × (v.pool.held e ≡ fns a b) × Pinned pins a × Pinned pins b

-- Each element that there are references to is in use and counts no fewer, and may get `grows` more.
abbrev pub Counted : Vm → Pins → List VarFn → (grows : ℕ) → ℕ → Type 0
Counted v pins xs grows e =
    (0 < need v pins xs e)
    → InUse v e × (need v pins xs e ≤ count e v) × (count e v + grows < 2 ^ 32)

-- The state of the pool, with references from outside it, `cells` elements still to be allocated,
-- and counts that may grow by `grows`.
pub record Sound (v : Vm) (pins : Pins) (xs : List VarFn) (cells grows : ℕ) : Type 0 where
  pub valid : IsValid v
  pub enough : v.pool.used + cells ≤ v.pool.pool_len
  pub places : 2 ≤ v.pool.fstack_len
  pub fits : (cells ≡ 0) ⊎ (1 + grows < 2 ^ 32)
  pub counted : (e : ℕ) → Counted v pins xs grows e
  pub holds : (e : ℕ) → InUse v e → HoldsPinned v pins e

-- References may be forgotten and told in another order.
pub Sound-fewer :
    {v : Vm} {pins : Pins} {cells grows : ℕ} (xs ys : List VarFn) (cells' grows' : ℕ)
    → Sound v pins xs cells grows
    → ((e : ℕ) → owed e ys ≤ owed e xs)
    → cells' ≤ cells
    → grows' ≤ grows
    → Sound v pins ys cells' grows'
Sound-fewer {v} {pins} xs ys cells' grows' s fewer c g = record {
  valid = s.valid;
  enough = let h = s.enough in omega arith;
  places = s.places;
  fits = elim s.fits [ inl no_cell ↦ inl (omega arith) | inr small ↦ inr (omega arith) ];
  counted = λ e some_left.
      let f = fewer e in
      let (used, le, small) = s.counted e (omega arith) in (used, omega arith, omega arith);
  holds = s.holds;
}

abbrev pub pin_also : VarFn → Pins → Pins
pin_also x pins = λ e. is_ref x && x.ref == e || pins e

pub Pinned-also : (x y : VarFn) (pins : Pins) → Pinned pins y → Pinned (pin_also x pins) y
Pinned-also x y pins h r =
    rw (h r)
      (elim (Bool-cases (is_ref x && x.ref == y.ref)) [ inl q ↦ rw q refl | inr q ↦ rw q refl ])

pub pin_also-Pinned : (x : VarFn) (pins : Pins) → Pinned (pin_also x pins) x
pin_also-Pinned x pins r = rw (r, ==-refl x.ref) refl

pin-also : (x : VarFn) (pins : Pins) (e : ℕ) → pin e (pin_also x pins) ≤ pin e pins + occ e x
pin-also x pins e = elim (Bool-cases (is_ref x && x.ref == e)) [
  | inl q ↦ rw q (omega arith)
  | inr q ↦ rw q (omega arith)
]

-- A reference that is overwritten and not dropped.
pub Sound-pin :
    {v : Vm} {pins : Pins} {cells grows : ℕ} (x : VarFn) (xs : List VarFn)
    → Sound v pins (x ∷ xs) cells grows
    → Sound v (pin_also x pins) xs cells grows
Sound-pin {v} {pins} x xs s = record {
  valid = s.valid;
  enough = s.enough;
  places = s.places;
  fits = s.fits;
  counted = λ e some_left.
      let p = pin-also x pins e in
      let (used, le, small) = s.counted e (omega arith) in (used, omega arith, small);
  holds = λ e used.
      let (a, b, h, pa, pb) = s.holds e used in
      (a, b, h, Pinned-also x a pins pa, Pinned-also x b pins pb);
}

-- The counts may grow.
pub Sound-grow :
    {v : Vm} {pins : Pins} {xs : List VarFn} {cells grows : ℕ} (n : ℕ) (ctx : StackCtx)
    → Sound v pins xs cells (n + grows)
    → Grown n v.stack.refs ctx.refs
    → Sound (with_stack ctx v) pins xs cells grows
Sound-grow {v} n ctx s g = record {
  valid = s.valid;
  enough = s.enough;
  places = s.places;
  fits = elim s.fits [ inl no_cell ↦ inl no_cell | inr small ↦ inr (omega arith) ];
  counted = λ e some_left.
      let (used, le, small) = s.counted e some_left in
      let (more, most) = g e (omega arith) in (used, omega arith, omega arith);
  holds = s.holds;
}

-- A function is live if its element has a reference.
abbrev pub Live : Vm → Pins → List VarFn → VarFn → Type 0
Live v pins xs x = is_ref x ≡ true → 0 < need v pins xs x.ref

pub occ-plain : (e : ℕ) (x : VarFn) → is_ref x ≡ false → occ e x ≡ 0
occ-plain e x h = rw h refl

pub Live-head : (v : Vm) (pins : Pins) (x : VarFn) (xs : List VarFn) → Live v pins (x ∷ xs) x
Live-head v pins x xs r =
    let one : occ x.ref x ≡ 1 = rw (r, ==-refl x.ref) refl in omega (arith, one)

pub Live-Pinned :
    (v : Vm) (pins : Pins) (x : VarFn) (xs : List VarFn) → Pinned pins x → Live v pins xs x
Live-Pinned v pins x xs p r = let one : pin x.ref pins ≡ 1 = rw (p r) refl in omega (arith, one)

-- `vm_var_fn_addref`.
pub Sound-addref :
    {v : Vm} {pins : Pins} {xs : List VarFn} {cells grows : ℕ} (x : VarFn)
    → Sound v pins xs cells (1 + grows)
    → Live v pins xs x
    → Sound (var_fn_addref x v) pins (x ∷ xs) cells grows
unfolding var_fn_addref
Sound-addref {v} {pins} {xs} x s live = elim (Bool-cases (is_ref x)) [
  | inr plain ↦
      rw plain
        (Sound-fewer xs (x ∷ xs) _ _ s (λ e. rw plain (omega arith)) (omega arith) (omega arith))
  | inl r ↦ rw r (record {
    valid = s.valid;
    enough = s.enough;
    places = s.places;
    fits = elim s.fits [ inl no_cell ↦ inl no_cell | inr small ↦ inr (omega arith) ];
    counted = λ e some_left. elim (Bool-cases (x.ref == e)) [
      | inl q ↦
          let there : 0 < need v pins xs e = rw (==→eq x.ref e q) at (live r) in
          let (used, le, small) = s.counted e there in rw (r, q) (used, omega arith, omega arith)
      | inr q ↦
          let (used, le, small) = s.counted e (omega (arith, (rw (r, q) at some_left))) in
          rw (r, q) (used, omega arith, omega arith)
    ];
    holds = s.holds;
  })
]
