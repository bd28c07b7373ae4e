-- ===== src/Runtime/Code.antt =====
-- runtime.c, `u6a_runtime_execute`, on the code that the compiler makes of a term.
use u6a.Base.{
  ℕ, Bool, ok, suc, ◌+◌, ◌≤◌, ◌≡◌, refl, ◌∙◌, sym, ap, false, some, List, [], ◌∷◌, ◌++◌, arith,
  length, if◌then◌else◌, ◌==◌, append_assoc, append-nil, ◌&&◌, not,
}
use u6a.Defs.{Token, token}
use u6a.Defs.TokenFn
use u6a.VmDefs.{VmIns, vm_ins, offset, no_token}
use u6a.VmDefs.Opcode
use u6a.VmHeap.{VarFn}
use u6a.VmPool.{Held, PoolCtx, Vm, with_stack}
use u6a.VmPool.Owed.{Pins, occ, occ-plain, Live-head}
use u6a.Bytecode.{Word4, operand_word}
use u6a.Loader.{RawIns, raw_ins, has_offset}
use u6a.Codegen.{app_ins}
use u6a.Codegen.Compile.{prints}
use u6a.Semantics.{
  Value, printer, World, emit, Stands, Applies, apply_printer, apply_cells, apply_grows,
}
use u6a.Runtime.{Program, ExecState, set_token, advance, add_ref}
use u6a.Runtime.Values.{Represents, Represents-Shows, Shows-now, Stands-Represents, Stands-plain}
use u6a.Runtime.Apply.{next}
use u6a.Runtime.Step.{apply, load_operands, step_ins, step_sa, ins_at, step}
use u6a.Runtime.Steps.{done, world, seg_len, Ready, Good-fewer, step-at}
use u6a.Runtime.Macros.{Good-addref, addref-pool, stack_push-Good}
use u6a.Runtime.Yields.{Substituted, GrantsStack, Kept-same, Yields, Yields-then, Yields-Goes}
use u6a.Runtime.Applications.{Goes-by, apply-Serves}

-- The instructions stand in the memory of the virtual machine at the position, but for the bytes of
-- offsets on a host that stores the least significant byte first.
abbrev pub CodeAt : (little : Bool) → List RawIns → ℕ → List VmIns → Type 0
CodeAt little text p [] = Unit
CodeAt little text p (i ∷ is) =
    (w : Word4) × (ins_at text p ≡ some (raw_ins i.opcode i.opcode_ex w))
    × ((has_offset i.opcode && little) ≡ false → w ≡ operand_word i.operand)
    × CodeAt little text (p + 1) is

pub CodeAt-append :
    (little : Bool) (text : List RawIns) (p : ℕ) (is js : List VmIns)
    → CodeAt little text p (is ++ js)
    → CodeAt little text p is × CodeAt little text (p + length is) js
CodeAt-append little text p [] js c = (tt, rw (let q : p + 0 ≡ p = omega arith in q) c)
CodeAt-append little text p (i ∷ is) js (w, e, o, c) =
    let (a, b) = CodeAt-append little text (p + 1) is js c in
    ((w, e, o, a), rw (let q : p + suc (length is) ≡ p + 1 + length is = omega arith in q) b)

pub emit-nil : (w : World) → emit [] w ≡ w
emit-nil w = ap (λ (l : List ℕ). record w { output = l }) (append-nil w.output)

pub emit-emit : (c d : List ℕ) (w : World) → emit d (emit c w) ≡ emit (c ++ d) w
emit-emit c d w = ap (λ (l : List ℕ). record w { output = l }) (append_assoc w.output c d)

-- An operand of `APP`, and nothing that the accumulator does not refer to.
abbrev pub Loads : ExecState → Pins → VarFn → Value → Type 0
Loads st pins x v = Represents st.vm.pool.held pins x v × ((d : ℕ) → occ d x ≤ occ d st.acc)

pub token-Loads :
    (st : ExecState) (pins : Pins) (a : Token) (x : VarFn) (v : Value)
    → Stands a.fn a.ch v
    → Loads st pins (set_token a x) v
token-Loads st pins a x v h = (
  Stands-Represents st.vm.pool.held pins (set_token a x) v h,
  λ d. omega (arith, occ-plain d (set_token a x) (Stands-plain (set_token a x) v h)),
)

pub acc-Loads :
    (st : ExecState) (pins : Pins) (v : Value)
    → Represents st.vm.pool.held pins st.acc v
    → Loads st pins st.acc v
acc-Loads st pins v h = (h, λ d. omega arith)

-- An instruction `SA` puts a value on the stack.
pub step-sa :
    (pr : Program) (st : ExecState) (zs : List VarFn) (pins : Pins) (p n cells grows : ℕ)
    (f : Value)
    → GrantsStack pr
    → CodeAt pr.little pr.machine.text p (vm_ins Opcode.sa (offset n) ∷ [])
    → st.ins ≡ p
    → Ready pr st pins st.acc zs cells (1 + grows)
    → Represents st.vm.pool.held pins st.acc f
    → (v : Vm) × (step pr st ≡ ok (next (advance (record st { vm = v }))))
      × Ready pr (record st { vm = v }) pins st.acc (st.acc ∷ zs) cells grows
      × (v.pool.held ≡ st.vm.pool.held)
unfolding step_ins step_sa
step-sa pr st zs pins p n cells grows f granted (v, e, o, c) h ready rf =
    let at : ins_at pr.machine.text st.ins ≡ some (raw_ins Opcode.sa 0 v) = rw h e in
    let added = Good-addref grows st.acc ready (Live-head st.vm pins st.acc (st.top ∷ zs)) in
    let (ctx, pushed, good) =
      stack_push-Good pr (st.acc ∷ []) (add_ref st.acc st) granted (omega arith) added in
    let now : (st.acc.fn == TokenFn.d) ≡ false =
      Shows-now st.acc f (Represents-Shows st.vm.pool.held pins st.acc f rf) in
    (
      with_stack ctx (add_ref st.acc st).vm,
      step-at pr st at ∙ rw (now, step_sa, pushed) refl,
      Good-fewer (st.acc ∷ st.top ∷ st.acc ∷ zs) cells grows good (λ d. omega arith) (omega arith)
          (omega arith),
      ap (λ (q : PoolCtx). q.held) (addref-pool st.acc st.vm),
    )

module _ (pr : Program) (subst : Substituted pr) (granted : GrantsStack pr)
    (enough : 3 ≤ pr.fuel) where
  -- An instruction `APP`.
  pub app-Yields :
      (st : ExecState) (zs : List VarFn) (pins : Pins) (a b : Token) (p cells grows : ℕ)
      {f x y : Value} {w w' : World} (applies : Applies f x w y w')
      → CodeAt pr.little pr.machine.text p (app_ins a b ∷ [])
      → st.ins ≡ p
      → world st ≡ w
      → Ready pr st pins st.acc zs
          (apply_cells applies + cells)
          (apply_grows (seg_len pr) applies + grows)
      → Loads st pins (if a.fn == 0 then st.acc else set_token a st.func) f
      → Loads st pins (if b.fn == 0 && not (a.fn == 0) then st.acc else set_token b st.arg) x
      → Yields pr st st.vm.pool.held pins (p + 1) y w' zs cells grows
  unfolding load_operands step_ins has_offset operand_word
  app-Yields st zs pins a b p cells grows applies (v, e, o, c) h world_is ready (rf, _)
        (rx, fewer) =
      let st1 : ExecState = load_operands (operand_word (app_ins a b).operand) st in
      let at : ins_at pr.machine.text st.ins ≡ some (raw_ins Opcode.app 0 v) = rw h e in
      let same : step pr st ≡ apply pr st1 = step-at pr st at ∙ rw (o refl) refl in
      let n : ℕ = seg_len pr in
      let goes =
        apply-Serves pr subst granted enough applies st1 zs pins cells grows rf rx world_is (
          Good-fewer (st1.arg ∷ st.top ∷ zs) (apply_cells applies + cells)
            (apply_grows n applies + grows) ready (λ d. omega (arith, fewer d)) (omega arith)
            (omega arith)) in
      rw⁻¹ h (Yields-Goes (Goes-by same goes))

  -- The instructions that print what is waiting.
  pub prints-Yields :
      (c : List ℕ) (st : ExecState) (zs : List VarFn) (pins : Pins) (p cells grows : ℕ) (y : Value)
      (w : World)
      → CodeAt pr.little pr.machine.text p (prints c)
      → st.ins ≡ p
      → Represents st.vm.pool.held pins st.acc y
      → world st ≡ w
      → Ready pr st pins st.acc zs cells grows
      → Yields pr st st.vm.pool.held pins (p + length (prints c)) y (emit c w) zs cells grows
  prints-Yields [] st zs pins p cells grows y w at h s e r = record {
    final = st;
    pins' = pins;
    steps = done;
    here = h ∙ omega arith;
    represents = s;
    same = e ∙ sym (emit-nil w);
    ready = r;
    kept = Kept-same refl;
  }
  prints-Yields (ch ∷ c) st zs pins p cells grows y w (v, i, o, at) h s e r =
      let first : Yields pr st st.vm.pool.held pins (p + 1) y (emit (ch ∷ []) w) zs cells grows =
        app-Yields st zs pins (token TokenFn.out ch) no_token p cells grows
          (apply_printer {c = ch} {x = y} {w = w}) (v, i, o, tt) h e
          (Good-fewer (st.acc ∷ st.top ∷ zs) (0 + cells) (0 + grows) r (λ d. omega arith)
            (omega arith) (omega arith))
          (token-Loads st pins (token TokenFn.out ch) st.func (printer ch) (refl, refl))
          (acc-Loads st pins y s) in
      let rest : Yields pr st st.vm.pool.held pins (p + 1 + length (prints c)) y
          (emit c (emit (ch ∷ []) w)) zs cells grows =
        Yields-then first (λ d. omega arith)
          (prints-Yields c first.final zs first.pins' (p + 1) cells grows y (emit (ch ∷ []) w) at
            first.here first.represents first.same first.ready) in
      rw⁻¹ (emit-emit (ch ∷ []) c w) (
        let q : p + 1 + length (prints c) ≡ p + suc (length (prints c)) = omega arith in
        rw⁻¹ q rest)

  -- Behind an application, what is waiting is printed.
  pub then_prints :
      (c : List ℕ) (st : ExecState) (zs : List VarFn) (held : ℕ → Held) (pins : Pins)
      (p n cells grows : ℕ) (y : Value) (w : World)
      → Yields pr st held pins p y w zs cells grows
      → CodeAt pr.little pr.machine.text p (prints c)
      → p + length (prints c) ≡ n
      → Yields pr st held pins n y (emit c w) zs cells grows
  then_prints c st zs held pins p n cells grows y w r at len = rw⁻¹ len (
      Yields-then r (λ d. omega arith)
        (prints-Yields c r.final zs r.pins' p cells grows y w at r.here r.represents r.same
          r.ready))

  -- An application of a function is the last instruction but for the printing.
  pub app_last :
      (st : ExecState) (zs : List VarFn) (pins : Pins) (a b : Token) (c : List ℕ)
      (p n cells grows : ℕ) {f x y : Value} {w w' : World} (applies : Applies f x w y w')
      → CodeAt pr.little pr.machine.text p (app_ins a b ∷ prints c)
      → st.ins ≡ p
      → world st ≡ w
      → Ready pr st pins st.acc zs
          (apply_cells applies + cells)
          (apply_grows (seg_len pr) applies + grows)
      → Loads st pins (if a.fn == 0 then st.acc else set_token a st.func) f
      → Loads st pins (if b.fn == 0 && not (a.fn == 0) then st.acc else set_token b st.arg) x
      → p + suc (length (prints c)) ≡ n
      → Yields pr st st.vm.pool.held pins n y (emit c w') zs cells grows
  app_last st zs pins a b c p n cells grows {y = y} {w' = w'} applies (v, i, o, at) h e r sf sx
        len =
      then_prints c st zs st.vm.pool.held pins (p + 1) n cells grows y w'
        (app-Yields st zs pins a b p cells grows applies (v, i, o, tt) h e r sf sx) at
        (len_step ∙ len)
    where
      len_step : p + 1 + length (prints c) ≡ p + suc (length (prints c))
      len_step = omega arith
