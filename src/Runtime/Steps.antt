-- ===== src/Runtime/Steps.antt =====
-- runtime.c, `u6a_runtime_execute`: several rounds of the loop, and the macros that use the stack.
use u6a.Base.{ℕ, suc, ◌≤◌, ◌+◌, ◌≡◌, refl, ap, some, List, ◌∷◌, ok, arith}
use u6a.VmHeap.{VarFn, StackCtx}
use u6a.VmStack.Chain.{Holds}
use u6a.VmStack.Grows.{Fits}
use u6a.VmPool.{Vm}
use u6a.VmPool.Owed.{Pins, Sound, Sound-fewer, Sound-pin, pin_also, owed}
use u6a.Loader.{RawIns}
use u6a.Semantics.{World}
use u6a.Runtime.{Program, ExecState}
use u6a.Runtime.Apply.{next}
use u6a.Runtime.Step.{step_ins, ins_at, step, exec_loop}

pub data Steps (pr : Program) : ExecState → ExecState → Type 0 where
  done : {st : ExecState} → Steps pr st st
  more : {a b c : ExecState} → step pr a ≡ ok (next b) → Steps pr b c → Steps pr a c

pub Steps-trans : {pr : Program} {a b c : ExecState} → Steps pr a b → Steps pr b c → Steps pr a c
Steps-trans done t = t
Steps-trans (more e s) t = more e (Steps-trans s t)

pub exec_loop-Steps :
    {pr : Program} {a b : ExecState}
    → Steps pr a b
    → (n : ℕ) × ((k : ℕ) → exec_loop (n + k) pr a ≡ exec_loop k pr b)
unfolding exec_loop
exec_loop-Steps {pr} {a} done =
    (0, λ k. ap (λ n. exec_loop n pr a) (let q : 0 + k ≡ k = omega arith in q))
exec_loop-Steps {pr} {a} (more e s) =
    let (n, f) = exec_loop-Steps s in
    (suc n, λ k. rw (let q : suc n + k ≡ suc (n + k) = omega arith in q, e, exec_loop) (f k))

abbrev pub world : ExecState → World
world st = record { current = st.current_char; input = st.istream; output = st.ostream }

-- The places of a segment.
abbrev pub seg_len : Program → ℕ
seg_len pr = pr.machine.stack_seg_len

-- The stack holds the elements, and the counts of the pool are right for some references.
pub record Good (pr : Program) (v : Vm) (pins : Pins) (zs xs : List VarFn) (cells grows : ℕ)
    : Type 0 where
  pub stacked : Holds v.stack zs
  pub fits : Fits (seg_len pr) v.stack
  pub sound : Sound v pins xs cells grows

-- They are those of the stack, of what was popped last, and of one more function.
abbrev pub Ready : Program → ExecState → Pins → VarFn → List VarFn → (cells grows : ℕ) → Type 0
Ready pr st pins x zs cells grows = Good pr st.vm pins zs (x ∷ st.top ∷ zs) cells grows

pub Good-fewer :
    {pr : Program} {v : Vm} {pins : Pins} {zs xs : List VarFn} {cells grows : ℕ} (ys : List VarFn)
    (cells' grows' : ℕ)
    → Good pr v pins zs xs cells grows
    → ((e : ℕ) → owed e ys ≤ owed e xs)
    → cells' ≤ cells
    → grows' ≤ grows
    → Good pr v pins zs ys cells' grows'
Good-fewer {xs} ys cells' grows' r fewer c g = record {
  stacked = r.stacked;
  fits = r.fits;
  sound = Sound-fewer xs ys cells' grows' r.sound fewer c g;
}

pub Good-pin :
    {pr : Program} {v : Vm} {pins : Pins} {zs : List VarFn} {cells grows : ℕ} (x : VarFn)
    (xs : List VarFn)
    → Good pr v pins zs (x ∷ xs) cells grows
    → Good pr v (pin_also x pins) zs xs cells grows
Good-pin x xs r = record { stacked = r.stacked; fits = r.fits; sound = Sound-pin x xs r.sound }

-- The state in which the function that an `LA` has popped is applied.
abbrev pub popped : VarFn → Vm → ExecState → ExecState
popped x v st = record st { vm = v; top = x; func = x; arg = st.acc }

pub step-at :
    (pr : Program) (st : ExecState) {i : RawIns}
    → ins_at pr.machine.text st.ins ≡ some i
    → step pr st ≡ step_ins pr i st
unfolding step
step-at pr st at = rw (at, step) refl

-- The stack with other counts.
pub Holds-refs :
    (ctx ctx' : StackCtx) (zs : List VarFn)
    → ctx' ≡ record ctx { refs = ctx'.refs }
    → Holds ctx zs
    → Holds ctx' zs
Holds-refs ctx ctx' zs e h = rw e h

pub Fits-refs :
    (n : ℕ) (ctx ctx' : StackCtx)
    → ctx' ≡ record ctx { refs = ctx'.refs }
    → Fits n ctx
    → Fits n ctx'
Fits-refs n ctx ctx' e h = rw e h
