-- ===== src/Runtime/Serving.antt =====
-- runtime.c, `u6a_runtime_execute`: the instructions `LA` and `XCH`, between applications.
use u6a.Base.{ℕ, ◌+◌, ◌≤◌, ◌≡◌, refl, ◌∙◌, true, false, List, ◌∷◌, ok, some, arith, ◌==◌, ==-refl}
use u6a.Defs.TokenFn
use u6a.VmDefs.Opcode
use u6a.VmHeap.{VarFn, StackCtx}
use u6a.VmStack.{is_ref}
use u6a.VmPool.{Held, with_stack}
use u6a.VmPool.Owed.{Pins, owed, occ}
use u6a.Bytecode.{Word4}
use u6a.Loader.{raw_ins, zero_word}
use u6a.Semantics.{Value, World, Applies, apply_cells, apply_grows}
use u6a.Runtime.{Program, ExecState, set_acc, advance}
use u6a.Runtime.Values.{Represents, Represents-mono}
use u6a.Runtime.Apply.{next}
use u6a.Runtime.Step.{step_ins, step_xch, ins_at, step}
use u6a.Runtime.Steps.{done, more, world, seg_len, Good, Ready, Good-fewer, popped, step-at}
use u6a.Runtime.Macros.{step-la, stack_xch-Good}
use u6a.Runtime.Yields.{GrantsStack, Kept, Kept-same, Yields, Yields-more, Yields-before}
use u6a.Runtime.Reads.{Serves}

-- `XCH`, if the accumulator does not hold `d`.
pub step-xch :
    (pr : Program) (st : ExecState) (x y : VarFn) (zs : List VarFn) (pins : Pins) (cells grows : ℕ)
    → GrantsStack pr
    → ins_at pr.machine.text st.ins ≡ some (raw_ins Opcode.xch 0 zero_word)
    → (st.acc.fn == TokenFn.d) ≡ false
    → Ready pr st pins st.acc (x ∷ y ∷ zs) cells (seg_len pr + grows)
    → (ctx : StackCtx) × (step pr st
        ≡ ok (next (advance (set_acc y (record st { vm = with_stack ctx st.vm })))))
      × Good pr
          (with_stack ctx st.vm)
          pins
          (x ∷ st.acc ∷ zs)
          (y ∷ st.top ∷ x ∷ st.acc ∷ zs)
          cells
          grows
unfolding step_ins step_xch
step-xch pr st x y zs pins cells grows granted at now r =
    let (ctx, e, g) = stack_xch-Good pr st.acc x y st granted r in
    (
      ctx,
      step-at pr st at ∙ rw (now, step_xch, e) refl,
      Good-fewer (y ∷ st.top ∷ x ∷ st.acc ∷ zs) cells grows g (λ d. omega arith) (omega arith)
          (omega arith),
    )

-- A value that is pinned, or referred to by the stack, is still represented.
pub Represents-Kept :
    {pins pins' : Pins} {zs : List VarFn} {held held' : ℕ → Held} (x : VarFn) (v : Value)
    → Kept pins zs held held' pins'
    → (is_ref x ≡ true → held' x.ref ≡ held x.ref)
    → Represents held pins x v
    → Represents held' pins' x v
Represents-Kept x v k own r = Represents-mono x v k.pinned k.more_pins own r

pub on_stack-own :
    {pins pins' : Pins} {held held' : ℕ → Held} (x : VarFn) (zs zs' : List VarFn)
    → Kept pins zs' held held' pins'
    → ((d : ℕ) → occ d x + owed d zs ≤ owed d zs')
    → is_ref x ≡ true
    → held' x.ref ≡ held x.ref
on_stack-own x zs zs' k wider r =
    let one : occ x.ref x ≡ 1 = rw (r, ==-refl x.ref) refl in
    k.on_stack x.ref (let w = wider x.ref in omega (arith, one))

-- `LA`, if the application serves.
pub la-Serves :
    (pr : Program) {f x y : Value} {w w' : World} (a : Applies f x w y w') (st : ExecState)
    (g : VarFn) (zs : List VarFn) (pins : Pins) (p cells grows : ℕ)
    → 3 ≤ pr.fuel
    → Serves pr a
    → ((v : Word4) × (ins_at pr.machine.text p ≡ some (raw_ins Opcode.la 0 v)))
    → st.ins ≡ p
    → Represents st.vm.pool.held pins g f
    → Represents st.vm.pool.held pins st.acc x
    → world st ≡ w
    → Ready pr st pins st.acc
        (g ∷ zs)
        (apply_cells a + cells)
        (seg_len pr + (apply_grows (seg_len pr) a + grows))
    → Yields pr st st.vm.pool.held pins (p + 1) y w' zs cells grows
la-Serves pr a st g zs pins p cells grows enough run (word, at) h rg rx ew ready =
    let (v, e, r, held) =
      step-la pr st g st.acc zs pins (apply_cells a + cells) (apply_grows (seg_len pr) a + grows)
        {w = word} (rw h at) enough ready in
    let goes = run (popped g v st) zs pins cells grows (rw held rg) (rw held rx) ew r in
    rw⁻¹ h (
      Yields-before {zs = zs} (Kept-same held) (λ d. omega arith)
        (Yields-more (more (e ∙ goes.goes) done) goes.yields))
