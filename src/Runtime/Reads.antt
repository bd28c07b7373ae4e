-- ===== src/Runtime/Reads.antt =====
-- runtime.c, `u6a_runtime_execute`: the application of a function that reads, up to the instruction
-- behind it.
use u6a.Base.{
  ℕ, ◌+◌, ◌≤◌, ◌≡◌, refl, ◌∙◌, ap, false, Option, none, some, List, [], ◌∷◌, arith, Bool-cases, inl,
  inr, if◌then◌else◌, ◌==◌,
}
use u6a.Defs.{token}
use u6a.Defs.TokenFn
use u6a.VmHeap.{VarFn}
use u6a.VmStack.{is_ref}
use u6a.VmPool.{Held, PoolCtx, Vm, with_stack}
use u6a.VmPool.Owed.{Pins, Live-head, occ-plain}
use u6a.Loader.{zero_word}
use u6a.Semantics.{
  Value, World, read_char, if_read, if_same, print_read, Stands, Applies, apply_cells, apply_grows,
}
use u6a.Runtime.{Program, ExecState, fn_ref, set_fn, set_acc, set_token, jump, advance, add_ref}
use u6a.Runtime.Fn
use u6a.Runtime.Values.{Represents, Stands-plain}
use u6a.Runtime.Apply.{apply_to, apply_in, apply_cmp, apply_pipe}
use u6a.Runtime.Steps.{done, more, Steps-trans, world, seg_len, Ready, Good-fewer, popped}
use u6a.Runtime.Macros.{Good-addref, addref-pool, step-la, stack_push-Good}
use u6a.Runtime.Yields.{
  Substituted, GrantsStack, Kept-same, Kept-trans, Yields, Yields-more, Yields-before, Goes,
  Applied,
}
use u6a.Runtime.Cases.{apply-j}

-- An application takes so many elements, and the counts grow by so much.
abbrev pub Serves : (pr : Program) {f x y : Value} {w w' : World} → Applies f x w y w' → Type 0
Serves pr {f} {x} {y} {w} {w'} a =
    (st : ExecState) (zs : List VarFn) (pins : Pins) (cells grows : ℕ)
    → Represents st.vm.pool.held pins st.func f
    → Represents st.vm.pool.held pins st.arg x
    → world st ≡ w
    → Ready pr st pins st.arg zs (apply_cells a + cells) (apply_grows (seg_len pr) a + grows)
    → Applied pr st pins y w' zs cells grows

-- The state behind an `apply_to`, but for the stack.
abbrev pub changed : (VarFn → VarFn) → ExecState → ExecState
changed change st = jump 3 (set_acc (change st.arg) (record st { arg = change st.arg }))

module _ (pr : Program) (subst : Substituted pr) (granted : GrantsStack pr)
    (enough : 3 ≤ pr.fuel) where
  -- A jump that was put on the stack.
  pub jump-Goes :
      (st : ExecState) (p : ℕ) (zs : List VarFn) (held : ℕ → Held) (pins : Pins) (y : Value)
      (w : World) (cells grows : ℕ)
      → Yields pr st held pins 4 y w (fn_ref Fn.j p ∷ zs) cells (seg_len pr + grows)
      → Yields pr st held pins (p + 1) y w zs cells grows
  jump-Goes st p zs held pins y w cells grows r =
      let st3 : ExecState = r.final in
      let (v4, e4, r4, held4) =
        step-la pr st3 (fn_ref Fn.j p) st3.acc zs r.pins' cells grows {w = zero_word}
          (rw r.here subst.4) enough r.ready in
      let st4 : ExecState = popped (fn_ref Fn.j p) v4 st3 in
      record {
        final = advance (jump p (set_acc st3.acc st4));
        pins' = r.pins';
        steps = Steps-trans r.steps (more (e4 ∙ apply-j pr st4 refl) done);
        here = refl;
        represents = rw held4 r.represents;
        same = r.same;
        ready = r4;
        kept = Kept-trans r.kept (λ d. omega arith) (Kept-same held4);
      }

  -- The rounds behind it: if the argument is then applied to what stands for the input, and gives a
  -- value, so does the application.
  apply_to-Goes :
      (change : VarFn → VarFn) (st : ExecState) (zs : List VarFn) (pins : Pins) (y : Value)
      (w : World) (cells cells' grows grows' : ℕ)
      → is_ref (change st.arg) ≡ false
      → Ready pr st pins st.arg zs cells (1 + (seg_len pr + grows))
      → ((v : Vm)
          → v.pool.held ≡ st.vm.pool.held
          → Ready pr
              (popped st.arg v (changed change st))
              pins
              (change st.arg)
              (fn_ref Fn.j st.ins ∷ zs)
              cells
              grows
          → Applied pr
              (popped st.arg v (changed change st))
              pins
              y
              w
              (fn_ref Fn.j st.ins ∷ zs)
              cells'
              (seg_len pr + grows'))
      → Goes pr (apply_to pr change st) st.vm.pool.held pins (st.ins + 1) y w zs cells' grows'
  unfolding apply_to
  apply_to-Goes change st zs pins y w cells cells' grows grows' plain ready run =
      let n : ℕ = seg_len pr in
      let j : VarFn = fn_ref Fn.j st.ins in
      let added =
        Good-addref (n + grows) st.arg ready (Live-head st.vm pins st.arg (st.top ∷ zs)) in
      let listed =
        Good-fewer (change st.arg ∷ st.top ∷ st.arg ∷ j ∷ zs) cells (n + grows) added
          (λ d. omega (arith, occ-plain d (change st.arg) plain)) (omega arith) (omega arith) in
      let (ctx1, e1, g1) =
        stack_push-Good pr (st.arg ∷ j ∷ []) (add_ref st.arg st) granted (omega arith) listed in
      let st1 : ExecState = record (changed change st) {
        vm = with_stack ctx1 (add_ref st.arg st).vm;
      } in
      let (v2, e2, r2, held2) =
        step-la pr st1 st.arg (change st.arg) (j ∷ zs) pins cells grows subst.3 enough g1 in
      let held_same : v2.pool.held ≡ st.vm.pool.held =
        held2 ∙ ap (λ (c : PoolCtx). c.held) (addref-pool st.arg st.vm) in
      let inner = run v2 held_same r2 in
      record {
        after = st1;
        goes = rw (e1, apply_to) refl;
        yields = jump-Goes st1 st.ins zs st.vm.pool.held pins y w cells' grows' (
            Yields-before {zs = j ∷ zs} (Kept-same held_same) (λ d. omega arith)
              (Yields-more (more (e2 ∙ inner.goes) done) inner.yields));
      }

  -- What is left to show of a case that reads: the argument, applied to a function that stands for
  -- `z`, after the input is that of `w`.
  abbrev pub Continues :
      ExecState
      → List VarFn
      → Pins
      → Value
      → World
      → Value
      → World
      → (cells cells' grows grows' : ℕ) → Type 0
  Continues st zs pins z w y w' cells cells' grows grows' =
      (st1 : ExecState)
      → st1.func ≡ st.arg
      → Stands st1.arg.fn st1.arg.ch z
      → world st1 ≡ w
      → st1.vm.pool.held ≡ st.vm.pool.held
      → Ready pr st1 pins st1.arg (fn_ref Fn.j st.ins ∷ zs) cells grows
      → Applied pr st1 pins y w' (fn_ref Fn.j st.ins ∷ zs) cells' (seg_len pr + grows')

  module _ (st : ExecState) (zs : List VarFn) (pins : Pins) (y : Value) (w' : World)
      (cells cells' grows grows' : ℕ)
      (ready : Ready pr st pins st.arg zs cells (1 + (seg_len pr + grows))) where
    pub apply_in-Goes :
        (current : Option ℕ) (input output : List ℕ)
        → (let w : World = record { current = current; input = input; output = output } in
            (world st ≡ w)
            → Continues st zs pins
                (if_read (read_char w).current)
                (read_char w)
                y
                w'
                cells
                cells'
                grows
                grows'
            → Goes pr (apply_in pr st) st.vm.pool.held pins (st.ins + 1) y w' zs cells' grows')
    unfolding apply_in
    apply_in-Goes current [] output e run =
        let at_end : ExecState = record st { current_char = none } in
        let change : VarFn → VarFn = set_fn TokenFn.v in
        rw (ap (λ u. u.input) e, apply_in)
          (apply_to-Goes change at_end zs pins y w' cells cells' grows grows' refl ready (λ v h r.
            run (popped st.arg v (changed change at_end)) refl refl
              (ap {B = World} (λ (u : World). record u { current = none }) e) h r))
    apply_in-Goes current (ch ∷ rest) output e run =
        let at_char : ExecState = record st { current_char = some ch; istream = rest } in
        let change : VarFn → VarFn = set_fn TokenFn.i in
        rw (ap (λ u. u.input) e, apply_in)
          (apply_to-Goes change at_char zs pins y w' cells cells' grows grows' refl ready (λ v h r.
            run (popped st.arg v (changed change at_char)) refl refl
              (ap {B = World} (λ (u : World). record u { current = some ch; input = rest }) e) h r))

    pub apply_cmp-Goes :
        (w : World) (current : Option ℕ)
        → world st ≡ w
        → st.current_char ≡ current
        → Continues st zs pins (if_same st.func.ch current) w y w' cells cells' grows grows'
        → Goes pr (apply_cmp pr st) st.vm.pool.held pins (st.ins + 1) y w' zs cells' grows'
    unfolding apply_cmp
    apply_cmp-Goes w none e h run =
        let change : VarFn → VarFn = set_fn TokenFn.v in
        rw (h, apply_cmp)
          (apply_to-Goes change st zs pins y w' cells cells' grows grows' refl ready
            (λ v k r. run (popped st.arg v (changed change st)) refl refl e k r))
    apply_cmp-Goes w (some ch) e h run =
        let change : VarFn → VarFn = set_fn (if st.func.ch == ch then TokenFn.i else TokenFn.v) in
        let stands : Stands (change st.arg).fn (change st.arg).ch (if_same st.func.ch (some ch)) =
          elim (Bool-cases (st.func.ch == ch)) [
            | inl same ↦ rw same refl
            | inr other ↦ rw other refl
          ] in
        rw (h, apply_cmp)
          (apply_to-Goes change st zs pins y w' cells cells' grows grows'
            (Stands-plain (change st.arg) (if_same st.func.ch (some ch)) stands) ready
            (λ v k r. run (popped st.arg v (changed change st)) refl stands e k r))

    pub apply_pipe-Goes :
        (w : World) (current : Option ℕ)
        → world st ≡ w
        → st.current_char ≡ current
        → Continues st zs pins (print_read current) w y w' cells cells' grows grows'
        → Goes pr (apply_pipe pr st) st.vm.pool.held pins (st.ins + 1) y w' zs cells' grows'
    unfolding apply_pipe
    apply_pipe-Goes w none e h run =
        let change : VarFn → VarFn = set_fn TokenFn.v in
        rw (h, apply_pipe)
          (apply_to-Goes change st zs pins y w' cells cells' grows grows' refl ready
            (λ v k r. run (popped st.arg v (changed change st)) refl refl e k r))
    apply_pipe-Goes w (some ch) e h run =
        let change : VarFn → VarFn = set_token (token TokenFn.out ch) in
        rw (h, apply_pipe)
          (apply_to-Goes change st zs pins y w' cells cells' grows grows' refl ready
            (λ v k r. run (popped st.arg v (changed change st)) refl (refl, refl) e k r))
