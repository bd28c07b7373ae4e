-- ===== src/Runtime/Values.antt =====
-- runtime.c: which functions, with what the pool holds for them, stand for which values.
use u6a.Base.{ℕ, ◌≡◌, refl, ◌∙◌, true, false, ◌==◌}
use u6a.Defs.TokenFn
use u6a.VmHeap.{VarFn}
use u6a.VmStack.{is_ref}
use u6a.VmPool.{Held, fns}
use u6a.VmPool.Owed.{Pins, Pinned}
use u6a.Semantics.{
  Value, constant, constant_of, distribute, distribute_of, distribute_both, identity, void, printer,
  reader, compare, reprint, Stands,
}
use u6a.Runtime.Fn

-- What a function that is held stands for is pinned.
abbrev pub Represents : (ℕ → Held) → Pins → VarFn → Value → Type 0
Represents held pins x (constant_of y) =
    (x.fn ≡ Fn.k1)
    × (a : VarFn) × (b : VarFn) × (held x.ref ≡ fns a b)
    × Pinned pins a
    × Represents held pins a y
Represents held pins x (distribute_of y) =
    (x.fn ≡ Fn.s1)
    × (a : VarFn) × (b : VarFn) × (held x.ref ≡ fns a b)
    × Pinned pins a
    × Represents held pins a y
Represents held pins x (distribute_both y z) =
    (x.fn ≡ Fn.s2)
    × (a : VarFn) × (b : VarFn) × (held x.ref ≡ fns a b)
    × Pinned pins a
    × Pinned pins b
    × Represents held pins a y
    × Represents held pins b z
Represents held pins x constant = Stands x.fn x.ch constant
Represents held pins x distribute = Stands x.fn x.ch distribute
Represents held pins x identity = Stands x.fn x.ch identity
Represents held pins x void = Stands x.fn x.ch void
Represents held pins x (printer c) = Stands x.fn x.ch (printer c)
Represents held pins x reader = Stands x.fn x.ch reader
Represents held pins x (compare c) = Stands x.fn x.ch (compare c)
Represents held pins x reprint = Stands x.fn x.ch reprint

-- What a function shows of the value that it stands for.
abbrev pub Shows : VarFn → Value → Type 0
Shows x (constant_of y) = x.fn ≡ Fn.k1
Shows x (distribute_of y) = x.fn ≡ Fn.s1
Shows x (distribute_both y z) = x.fn ≡ Fn.s2
Shows x constant = Stands x.fn x.ch constant
Shows x distribute = Stands x.fn x.ch distribute
Shows x identity = Stands x.fn x.ch identity
Shows x void = Stands x.fn x.ch void
Shows x (printer c) = Stands x.fn x.ch (printer c)
Shows x reader = Stands x.fn x.ch reader
Shows x (compare c) = Stands x.fn x.ch (compare c)
Shows x reprint = Stands x.fn x.ch reprint

pub Represents-Shows :
    (held : ℕ → Held) (pins : Pins) (x : VarFn) (v : Value) → Represents held pins x v → Shows x v
Represents-Shows held pins x (constant_of y) h = h.0
Represents-Shows held pins x (distribute_of y) h = h.0
Represents-Shows held pins x (distribute_both y z) h = h.0
Represents-Shows held pins x constant h = h
Represents-Shows held pins x distribute h = h
Represents-Shows held pins x identity h = h
Represents-Shows held pins x void h = h
Represents-Shows held pins x (printer c) h = h
Represents-Shows held pins x reader h = h
Represents-Shows held pins x (compare c) h = h
Represents-Shows held pins x reprint h = h

-- A function of the source stands for a value by itself.
pub Stands-Represents :
    (held : ℕ → Held) (pins : Pins) (x : VarFn) (v : Value)
    → Stands x.fn x.ch v
    → Represents held pins x v
Stands-Represents held pins x (constant_of y) h = absurd h
Stands-Represents held pins x (distribute_of y) h = absurd h
Stands-Represents held pins x (distribute_both y z) h = absurd h
Stands-Represents held pins x constant h = h
Stands-Represents held pins x distribute h = h
Stands-Represents held pins x identity h = h
Stands-Represents held pins x void h = h
Stands-Represents held pins x (printer c) h = h
Stands-Represents held pins x reader h = h
Stands-Represents held pins x (compare c) h = h
Stands-Represents held pins x reprint h = h

-- What a function of the source stands for holds no element of the pool.
pub Stands-plain : (x : VarFn) (v : Value) → Stands x.fn x.ch v → is_ref x ≡ false
Stands-plain x (constant_of y) h = absurd h
Stands-plain x (distribute_of y) h = absurd h
Stands-plain x (distribute_both y z) h = absurd h
Stands-plain x constant h = rw h refl
Stands-plain x distribute h = rw h refl
Stands-plain x identity h = rw h refl
Stands-plain x void h = rw h refl
Stands-plain x (printer c) h = rw h.0 refl
Stands-plain x reader h = rw h refl
Stands-plain x (compare c) h = rw h.0 refl
Stands-plain x reprint h = rw h refl

-- Functions that a value stands for: none is 0, `` ` `` or `d`.
pub Shows-nonzero : (x : VarFn) (v : Value) → Shows x v → (x.fn == 0) ≡ false
Shows-nonzero x (constant_of y) h = rw h refl
Shows-nonzero x (distribute_of y) h = rw h refl
Shows-nonzero x (distribute_both y z) h = rw h refl
Shows-nonzero x constant h = rw h refl
Shows-nonzero x distribute h = rw h refl
Shows-nonzero x identity h = rw h refl
Shows-nonzero x void h = rw h refl
Shows-nonzero x (printer c) h = rw h.0 refl
Shows-nonzero x reader h = rw h refl
Shows-nonzero x (compare c) h = rw h.0 refl
Shows-nonzero x reprint h = rw h refl

pub Shows-now : (x : VarFn) (v : Value) → Shows x v → (x.fn == TokenFn.d) ≡ false
Shows-now x (constant_of y) h = rw h refl
Shows-now x (distribute_of y) h = rw h refl
Shows-now x (distribute_both y z) h = rw h refl
Shows-now x constant h = rw h refl
Shows-now x distribute h = rw h refl
Shows-now x identity h = rw h refl
Shows-now x void h = rw h refl
Shows-now x (printer c) h = rw h.0 refl
Shows-now x reader h = rw h refl
Shows-now x (compare c) h = rw h.0 refl
Shows-now x reprint h = rw h refl

-- Likewise for the functions of the source.
pub Stands-Shows : (x : VarFn) (v : Value) → Stands x.fn x.ch v → Shows x v
Stands-Shows x v h =
    Represents-Shows (λ d. fns x x) (λ d. false) x v
      (Stands-Represents (λ d. fns x x) (λ d. false) x v h)

pub Stands-nonzero : (fn ch : ℕ) (v : Value) → Stands fn ch v → (fn == 0) ≡ false
Stands-nonzero fn ch v h =
    let x : VarFn = record { fn = fn; ch = ch; ref = 0 } in Shows-nonzero x v (Stands-Shows x v h)

pub Stands-now : (fn ch : ℕ) (v : Value) → Stands fn ch v → (fn == TokenFn.d) ≡ false
Stands-now fn ch v h =
    let x : VarFn = record { fn = fn; ch = ch; ref = 0 } in Shows-now x v (Stands-Shows x v h)

-- The pool may change where nothing is pinned, but for what the function itself Refers to.
pub Represents-mono :
    {held held' : ℕ → Held} {pins pins' : Pins} (x : VarFn) (v : Value)
    → ((d : ℕ) → pins d ≡ true → held' d ≡ held d)
    → ((d : ℕ) → pins d ≡ true → pins' d ≡ true)
    → (is_ref x ≡ true → held' x.ref ≡ held x.ref)
    → Represents held pins x v
    → Represents held' pins' x v
Represents-mono x (constant_of y) k p own (fn, a, b, h, pa, ra) = (
  fn,
  a,
  b,
  own (rw fn refl) ∙ h,
  λ r. p a.ref (pa r),
  Represents-mono a y k p (λ r. k a.ref (pa r)) ra,
)
Represents-mono x (distribute_of y) k p own (fn, a, b, h, pa, ra) = (
  fn,
  a,
  b,
  own (rw fn refl) ∙ h,
  λ r. p a.ref (pa r),
  Represents-mono a y k p (λ r. k a.ref (pa r)) ra,
)
Represents-mono x (distribute_both y z) k p own (fn, a, b, h, pa, pb, ra, rb) = (
  fn,
  a,
  b,
  own (rw fn refl) ∙ h,
  λ r. p a.ref (pa r),
  λ r. p b.ref (pb r),
  Represents-mono a y k p (λ r. k a.ref (pa r)) ra,
  Represents-mono b z k p (λ r. k b.ref (pb r)) rb,
)
Represents-mono x constant k p own h = h
Represents-mono x distribute k p own h = h
Represents-mono x identity k p own h = h
Represents-mono x void k p own h = h
Represents-mono x (printer c) k p own h = h
Represents-mono x reader k p own h = h
Represents-mono x (compare c) k p own h = h
Represents-mono x reprint k p own h = h
