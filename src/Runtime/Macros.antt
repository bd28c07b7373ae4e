-- ===== src/Runtime/Macros.antt =====
-- runtime.c, `u6a_runtime_execute`: the macros that use the stack and the reference counts.
use u6a.Base.{
  ℕ, ◌≤◌, ◌++◌, length, ◌+◌, ◌-◌, ◌≡◌, refl, ◌∙◌, ap, true, false, some, List, [], ◌∷◌, ok, arith,
  Bool-cases, inl, inr, Bool, if◌then◌else◌,
}
use u6a.VmDefs.Opcode
use u6a.VmHeap.{VarFn, StackCtx}
use u6a.VmStack.{is_ref}
use u6a.VmStack.Chain.{Holds}
use u6a.VmStack.Push.{push-Holds}
use u6a.VmStack.Pop.{top-pop}
use u6a.VmStack.Exchange.{xch-Holds}
use u6a.VmStack.Grows.{Fits, Still, Copies, Grown, Grown-same, push-Still, top-Still}
use u6a.VmStack.Removes.{pop-Copies}
use u6a.VmStack.Exchanges.{xch-Copies}
use u6a.VmStack.{addref}
use u6a.VmPool.{Vm, with_stack, clear_fstack, free_loop, var_fn_addref}
use u6a.VmPool.Owed.{Pins, Sound, Sound-fewer, Sound-grow, Sound-addref, Live}
use u6a.VmPool.Drains.{Sound-pending}
use u6a.VmPool.Frees.{free_loop-Sound}
use u6a.Bytecode.{Word4}
use u6a.Loader.{raw_ins}
use u6a.Runtime.{Program, ExecState, var_fn_free, stack_pop, stack_push, stack_xch}
use u6a.Runtime.Step.{apply, step_la, step_ins, ins_at, step}
use u6a.Runtime.Steps.{seg_len, Good, Ready, popped, step-at, Holds-refs, Fits-refs}

-- `vm_var_fn_free`.
var_fn_free-Sound :
    (pr : Program) (x : VarFn) (v : Vm) (pins : Pins) (xs : List VarFn) (cells grows : ℕ)
    → 3 ≤ pr.fuel
    → Sound v pins (x ∷ xs) cells grows
    → (v1 : Vm) × (var_fn_free pr x v ≡ ok v1)
      × Sound v1 pins xs cells grows
      × (v1.pool.held ≡ v.pool.held)
      × (v1.stack ≡ record v.stack { refs = v1.stack.refs })
unfolding var_fn_free
var_fn_free-Sound pr x v pins xs cells grows enough s = elim (Bool-cases (is_ref x)) [
  | inr plain ↦ (
    v,
    rw (plain, var_fn_free) refl,
    Sound-fewer (x ∷ xs) xs cells grows s (λ e. omega arith) (omega arith) (omega arith),
    refl,
    refl,
  )
  | inl r ↦
      let more : pr.fuel ≡ 3 + (pr.fuel - 3) = omega (arith, enough) in
      let (v1, ends, s1, held, stack, _) =
        free_loop-Sound (pr.fuel - 3) (clear_fstack v) pins x xs cells grows (Sound-pending [] s) r
          refl in
      (
        v1,
        rw (r, var_fn_free) (ap (λ n. free_loop n x.ref (clear_fstack v)) more ∙ ends),
        s1,
        held,
        stack,
      )
]

-- `STACK_POP`.
pub stack_pop-Sound :
    (pr : Program) (st : ExecState) (x y : VarFn) (zs : List VarFn) (pins : Pins) (cells grows : ℕ)
    → 3 ≤ pr.fuel
    → Ready pr st pins y (x ∷ zs) cells (seg_len pr + grows)
    → (v : Vm) × (stack_pop pr st ≡ ok (x, record st { vm = v; top = x }))
      × Ready pr (record st { vm = v; top = x }) pins y zs cells grows
      × (v.pool.held ≡ st.vm.pool.held)
unfolding stack_pop
stack_pop-Sound pr st x y zs pins cells grows enough ready =
    let n : ℕ = seg_len pr in
    let (v1, freed, s1, held, stack) =
      var_fn_free-Sound pr st.top st.vm pins (y ∷ x ∷ zs) cells (n + grows) enough (
        Sound-fewer (y ∷ st.top ∷ x ∷ zs) (st.top ∷ y ∷ x ∷ zs) cells (n + grows) ready.sound
          (λ e. omega arith) (omega arith) (omega arith)) in
    let holds1 : Holds v1.stack (x ∷ zs) =
      Holds-refs st.vm.stack v1.stack (x ∷ zs) stack ready.stacked in
    let fits1 : Fits n v1.stack = Fits-refs n st.vm.stack v1.stack stack ready.fits in
    let (ctx1, ctx2, t, p, holds2) = top-pop pr.grants v1.stack x zs holds1 in
    let still : Still n v1.stack ctx1 = rw t at (top-Still n v1.stack fits1) in
    let copied : Copies n ctx1 ctx2 = rw p at (pop-Copies n pr.grants ctx1 still.0) in
    let grown : Grown n v1.stack.refs ctx2.refs = λ b small.
      let at : ctx1.refs b ≡ v1.stack.refs b = ap (λ (r : ℕ → ℕ). r b) still.1 in
      let step = copied.1 b (omega arith) in omega arith in
    (
      with_stack ctx2 v1,
      rw (freed, stack_pop, t, p) refl,
      record { stacked = holds2; fits = copied.0; sound = Sound-grow n ctx2 s1 grown },
      held,
    )

pub step-la :
    (pr : Program) (st : ExecState) (x y : VarFn) (zs : List VarFn) (pins : Pins) (cells grows : ℕ)
    {w : Word4}
    → ins_at pr.machine.text st.ins ≡ some (raw_ins Opcode.la 0 w)
    → 3 ≤ pr.fuel
    → Ready pr st pins y (x ∷ zs) cells (seg_len pr + grows)
    → (v : Vm) × (step pr st ≡ apply pr (popped x v st))
      × Ready pr (popped x v st) pins y zs cells grows
      × (v.pool.held ≡ st.vm.pool.held)
unfolding step_ins step_la
step-la pr st x y zs pins cells grows at enough ready =
    let (v, q, r, held) = stack_pop-Sound pr st x y zs pins cells grows enough ready in
    (
      v,
      step-at pr st at ∙ rw (q, step_la) refl,
      record { stacked = r.stacked; fits = r.fits; sound = r.sound },
      held,
    )

-- `vm_var_fn_addref`.
addref-same :
    (x : VarFn) (v : Vm)
    → ((var_fn_addref x v).stack ≡ record v.stack { refs = (var_fn_addref x v).stack.refs })
      × ((var_fn_addref x v).pool ≡ v.pool)
unfolding var_fn_addref
addref-same x v = added (is_ref x)
  where
    added :
        (b : Bool)
        → (let v1 : Vm =
              if b then with_stack (record v.stack { refs = addref x.ref v.stack.refs }) v else v in
            (v1.stack ≡ record v.stack { refs = v1.stack.refs }) × (v1.pool ≡ v.pool))
    added true = (refl, refl)
    added false = (refl, refl)

pub addref-pool : (x : VarFn) (v : Vm) → (var_fn_addref x v).pool ≡ v.pool
addref-pool x v = (addref-same x v).1

pub Good-addref :
    {pr : Program} {v : Vm} {pins : Pins} {zs xs : List VarFn} {cells : ℕ} (grows : ℕ) (x : VarFn)
    → Good pr v pins zs xs cells (1 + grows)
    → Live v pins xs x
    → Good pr (var_fn_addref x v) pins zs (x ∷ xs) cells grows
Good-addref {pr} {v} {zs} grows x r live = record {
  stacked = Holds-refs v.stack (var_fn_addref x v).stack zs (addref-same x v).0 r.stacked;
  fits = Fits-refs (seg_len pr) v.stack (var_fn_addref x v).stack (addref-same x v).0 r.fits;
  sound = Sound-addref x r.sound live;
}

-- `STACK_PUSH1` to `STACK_PUSH4`.
pub stack_push-Good :
    (pr : Program) (xs : List VarFn) (st : ExecState) {zs ys : List VarFn} {pins : Pins}
    {cells grows : ℕ}
    → ((a : ℕ) → pr.grants a ≡ true)
    → length xs ≤ 4
    → Good pr st.vm pins zs ys cells grows
    → (ctx : StackCtx) × (stack_push pr xs st ≡ ok (record st { vm = with_stack ctx st.vm }))
      × Good pr (with_stack ctx st.vm) pins (xs ++ zs) ys cells grows
unfolding stack_push
stack_push-Good pr xs st {zs} {ys} {cells} {grows} g few r =
    let (ctx, e, h, w) =
      push-Holds pr.grants xs st.vm.stack zs r.stacked few (g st.vm.stack.next) in
    let room : length xs ≤ seg_len pr = omega (arith, few, r.stacked.0, r.fits.0) in
    let still : Still (seg_len pr) st.vm.stack ctx =
      rw e at (push-Still (seg_len pr) pr.grants xs st.vm.stack room r.fits) in
    (
      ctx,
      rw (e, stack_push) refl,
      record {
        stacked = h;
        fits = still.0;
        sound =
            Sound-grow 0 ctx
              (Sound-fewer ys ys cells (0 + grows) r.sound (λ d. omega arith) (omega arith)
                (omega arith))
              (Grown-same 0 st.vm.stack.refs ctx.refs still.1);
      },
    )

-- `STACK_XCH`.
pub stack_xch-Good :
    (pr : Program) (v0 x y : VarFn) (st : ExecState) {zs ys : List VarFn} {pins : Pins}
    {cells grows : ℕ}
    → ((a : ℕ) → pr.grants a ≡ true)
    → Good pr st.vm pins (x ∷ y ∷ zs) ys cells (seg_len pr + grows)
    → (ctx : StackCtx) × (stack_xch pr v0 st ≡ ok (y, record st { vm = with_stack ctx st.vm }))
      × Good pr (with_stack ctx st.vm) pins (x ∷ v0 ∷ zs) ys cells grows
unfolding stack_xch
stack_xch-Good pr v0 x y st {zs} g r =
    let (ctx, e, h) = xch-Holds pr.grants v0 x y zs st.vm.stack r.stacked (g st.vm.stack.next) in
    let copied : Copies (seg_len pr) st.vm.stack ctx =
      rw e at (xch-Copies (seg_len pr) pr.grants v0 st.vm.stack r.fits) in
    (
      ctx,
      rw (e, stack_xch) refl,
      record { stacked = h; fits = copied.0; sound = Sound-grow (seg_len pr) ctx r.sound copied.1 },
    )
