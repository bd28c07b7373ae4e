-- ===== src/Runtime/Correct.antt =====
-- runtime.c: what the interpreter makes of the program that the compiler has made of a term.
use u6a.Base.{
  ℕ, suc, ◌+◌, ◌-◌, ◌≤◌, ◌<◌, ◌^◌, ◌⊎◌, ◌≡◌, refl, ◌∙◌, ap, Bool, true, false, none, some, List, [],
  ◌∷◌, ok, arith, map, length, length-append,
}
use u6a.Defs.{Token, token}
use u6a.Defs.TokenFn
use u6a.VmDefs.{VmIns, no_token}
use u6a.VmDefs.Opcode
use u6a.VmHeap.{VarFn}
use u6a.VmStack.Init.{stack_init-Holds}
use u6a.VmPool.{Held, Vm, vm, empty_fn, pool_init}
use u6a.VmPool.Begins.{no_pins, pool_init-Sound}
use u6a.Bytecode.{operand_word}
use u6a.Loader.{raw_ins, has_offset, convert, text_subst, text_subst_len, RuntimeOptions, Machine}
use u6a.Loader.RoundTrip.{raw}
use u6a.Parser.Term.{Term, leaf, app}
use u6a.Codegen.{app_ins}
use u6a.Codegen.Compile.{code}
use u6a.Codegen.Bounds.{length-code-some}
use u6a.Runtime.Legible.{IsLegible, IsLegible-Readable}
use u6a.Runtime.Strings.{Readable}
use u6a.Compiler.Outcomes.{program}
use u6a.Semantics.{Value, World, Evals, eval_leaf, cells, grows}
use u6a.Runtime.{Program, ExecState, set_token}
use u6a.Runtime.Values.{Shows, Represents-Shows, Stands-Shows, Stands-nonzero}
use u6a.Runtime.Apply.{returned}
use u6a.Runtime.Step.{
  apply, apply_control, apply_input, apply_simple, load_operands, step_ins, ins_at, step, value,
  exec_loop, exec_state, runtime_execute,
}
use u6a.Runtime.Start.{no_segments, vm_init, run}
use u6a.Runtime.Steps.{Steps, done, exec_loop-Steps, seg_len, Good, Good-fewer, step-at}
use u6a.Runtime.Yields.{Substituted, GrantsStack, Yields}
use u6a.Runtime.Code.{CodeAt, CodeAt-append}
use u6a.Runtime.Computes.{alone, code-Computes}
use u6a.Runtime.Loading.{
  CodeAt-convert, loaded-Substituted, length-convert, length-raws, execution, loaded_program,
}

exec_loop-returned :
    {pr : Program} {a b b1 : ExecState} {x : VarFn}
    → Steps pr a b
    → step pr b ≡ ok (returned x b1)
    → (n : ℕ) × ((k : ℕ) → exec_loop (n + k) pr a ≡ value x b1.ostream)
unfolding exec_loop
exec_loop-returned {pr} {a} steps e =
    let (n, f) = exec_loop-Steps steps in
    (
      n + 1,
      λ k.
          let more_rounds : n + 1 + k ≡ n + suc k = omega arith in
          rw more_rounds (f (suc k) ∙ rw (e, exec_loop) refl),
    )

-- The last round of the loop, at the application of `e`.
step-e :
    (pr : Program) (st : ExecState) (b : Token) (p : ℕ)
    → CodeAt pr.little pr.machine.text p (app_ins (token TokenFn.e 0) b ∷ [])
    → st.ins ≡ p
    → step pr st
      ≡ ok (
          let st1 = load_operands (operand_word (app_ins (token TokenFn.e 0) b).operand) st in
          returned st1.arg st1)
unfolding step_ins load_operands has_offset operand_word apply apply_control apply_input
    apply_simple
step-e pr st b p (v, e, o, c) h =
    let at : ins_at pr.machine.text st.ins ≡ some (raw_ins Opcode.app 0 v) = rw h e in
    step-at pr st at ∙ rw (o refl) refl

abbrev pub start : List ℕ → World
start input = record { current = none; input = input; output = [] }

-- The stack and the pool at the start.
vm_init-Good :
    (grants : ℕ → Bool) (held : ℕ → Held) (refs : ℕ → ℕ) (pr : Program) (n g : ℕ)
    → ((a : ℕ) → grants a ≡ true)
    → 5 ≤ pr.machine.stack_seg_len
    → n ≤ pr.machine.pool_len
    → (n ≡ 0) ⊎ (1 + g < 2 ^ 32)
    → (v : Vm) × (vm_init grants held refs pr.machine ≡ ok v)
      × ((2 ≤ length pr.machine.text - text_subst_len) → Good pr v no_pins [] [] n g)
unfolding vm_init
vm_init-Good grants held refs pr n g granted room enough fits =
    let machine : Machine = pr.machine in
    let (ctx, e, holds, sizes) =
      stack_init-Holds grants machine.stack_seg_len (no_segments refs) room (λ a. refl)
        (granted 0) in
    let ins_len : ℕ = length machine.text - text_subst_len in
    (
      vm ctx (pool_init held machine.pool_len ins_len),
      rw (e, vm_init) refl,
      λ places. record {
        stacked = holds;
        fits = sizes;
        sound = pool_init-Sound ctx held machine.pool_len ins_len n g places enough fits;
      },
    )

-- What a program ends with, if it is given that many rounds or more.
abbrev pub Returns : Program → (ℕ → Held) → (ℕ → ℕ) → (input : List ℕ) → Value → List ℕ → Type 0
Returns pr held refs input y output =
    (x : VarFn) × Shows x y × (n : ℕ) × ((k : ℕ) → run (n + k) pr held refs input ≡ value x output)

-- From the state at the start to the application of `e`.
exec-Evals :
    (pr : Program) (o : Bool) (t : Term) (y : Value) (w : World) (input : List ℕ) (v : Vm)
    (ev : Evals t (start input) y w)
    → Substituted pr
    → GrantsStack pr
    → 3 ≤ pr.fuel
    → CodeAt pr.little pr.machine.text 5 (code o 0 0 [] (program t))
    → length (code o 0 0 [] (program t)) ≤ length pr.machine.text - text_subst_len
    → Readable pr o 0 [] (program t)
    → ((2 ≤ length pr.machine.text - text_subst_len)
        → Good pr v no_pins [] [] (cells ev) (grows (seg_len pr) ev))
    → (x : VarFn) × Shows x y
      × (n : ℕ) × ((k : ℕ) → exec_loop (n + k) pr (exec_state v input) ≡ value x w.output)
unfolding code Readable load_operands operand_word exec_state
exec-Evals pr o (leaf b) y w input v (eval_leaf s) subst granted enough at len rr r =
    let st : ExecState = exec_state v input in
    let x : VarFn = (load_operands (operand_word (app_ins (token TokenFn.e 0) b).operand) st).arg in
    let (n, f) = exec_loop-returned done (step-e pr st b 5 (plain o at) refl) in
    (x, rw (Stands-nonzero b.fn b.ch y s) (Stands-Shows (set_token b empty_fn) y s), n, f)
  where
    plain :
        (o : Bool)
        → CodeAt pr.little pr.machine.text 5 (code o 0 0 [] (program (leaf b)))
        → CodeAt pr.little pr.machine.text 5 (app_ins (token TokenFn.e 0) b ∷ [])
    plain true c = c
    plain false c = c
exec-Evals pr o (app ch l r) y w input v ev subst granted enough at len rr good =
    let st : ExecState = exec_state v input in
    let only : List VmIns = code o 0 0 [] (app ch l r) in
    let last : VmIns = app_ins (token TokenFn.e 0) no_token in
    let (at1, at2) = CodeAt-append pr.little pr.machine.text 5 only (last ∷ []) at in
    let places : 2 ≤ length pr.machine.text - text_subst_len = omega (
      arith,
      len,
      length-append {0} only (last ∷ []),
      length-code-some o (app ch l r) 0 0 [] refl,
    ) in
    let g : Yields pr st v.pool.held no_pins (5 + length only) y w [] 0 0 =
      alone pr o subst granted enough (app ch l r) 0 0 5 y (start input) w st [] no_pins 0 0 ev
        (code-Computes pr o subst granted enough (app ch l r) refl) at1 rr refl refl
        (Good-fewer (empty_fn ∷ empty_fn ∷ []) (cells ev + 0) (grows (seg_len pr) ev + 0)
          (good places) (λ d. omega arith) (omega arith) (omega arith)) in
    let (n, f) =
      exec_loop-returned g.steps (step-e pr g.final no_token (5 + length only) at2 g.here) in
    (
      g.final.acc,
      Represents-Shows g.final.vm.pool.held g.pins' g.final.acc y g.represents,
      n,
      λ k. f k ∙ ap (λ (u : World). value g.final.acc u.output) g.same,
    )

-- The pool has an element for each that the evaluation takes, and if it takes any, no count leaves a
-- `uint32_t`.
abbrev pub Affords :
    {t : Term} {y : Value} {w w' : World} → RuntimeOptions → Evals t w y w' → Type 0
Affords opts ev =
    (cells ev ≤ opts.pool_size) × ((cells ev ≡ 0) ⊎ (1 + grows opts.stack_segment_size ev < 2 ^ 32))

-- If a term has a value by the rules of `Semantics`, the program that the compiler makes of it, with
-- optimisation or without, ends with a function that shows the value, with the output that the rules
-- give, in some number of rounds and in every larger one. No constant string is to be made of the
-- program, or the host is to store the most significant byte of an integer first, nothing that `.`
-- prints is to be 0, and the constants are to be fewer than 2^32. A segment is to have room for five
-- elements, and the segments are to be granted. The pool is to have as many elements as `cells` says,
-- and if that is more than none, `grows` is to be less than 2^32 - 1; three rounds are to be allowed
-- for the release of an element.
pub run-Evals :
    (o little : Bool) (opts : RuntimeOptions) (grants : ℕ → Bool) (fuel : ℕ) (held : ℕ → Held)
    (refs : ℕ → ℕ) (t : Term) (rest input : List ℕ) (y : Value) (w : World)
    (ev : Evals t (start input) y w)
    → ((a : ℕ) → grants a ≡ true)
    → 5 ≤ opts.stack_segment_size
    → 3 ≤ fuel
    → Affords opts ev
    → IsLegible o little t
    → Returns
        (execution little grants fuel (loaded_program o little opts t rest))
        held
        refs
        input
        y
        w.output
unfolding run runtime_execute
run-Evals o little opts grants fuel held refs t rest input y w ev g room enough (fewer, fits)
      legible =
    let pr : Program = execution little grants fuel (loaded_program o little opts t rest) in
    let text : List VmIns = code o 0 0 [] (program t) in
    let (v, e, r) =
      vm_init-Good grants held refs pr (cells ev) (grows opts.stack_segment_size ev) g room fewer
        fits in
    let (x, s, n, f) =
      exec-Evals pr o t y w input v ev (loaded-Substituted o little opts t rest grants fuel) g
        enough (CodeAt-convert little (length text) 5 5 text_subst pr.machine.text text refl refl)
        (omega (
          arith,
          length-append {0} text_subst (convert little (length text) 5 (map raw text)),
          length-convert little (length text) 5 (map raw text),
          length-raws text,
        ))
        (IsLegible-Readable pr o t refl legible) r in
    (x, s, n, λ k. rw (e, run) (f k))
