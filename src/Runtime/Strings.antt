-- ===== src/Runtime/Strings.antt =====
-- runtime.c, `u6a_runtime_execute`: the constant strings of optimised code.
use u6a.Base.{
  ℕ, ◌+◌, ◌<◌, ◌^◌, ◌≡◌, refl, ◌∙◌, ap, Bool, false, some, List, [], ◌∷◌, ◌++◌, drop, ok, arith,
  length, if◌then◌else◌, ◌==◌,
}
use u6a.Defs.{Token}
use u6a.Defs.TokenFn
use u6a.VmDefs.{no_token}
use u6a.VmDefs.Opcode
use u6a.VmHeap.{VarFn}
use u6a.Bytecode.{operand_word, network}
use u6a.Loader.{raw_ins, has_offset, host_word, swap_word}
use u6a.Loader.RoundTrip.{net_word-network}
use u6a.Parser.Term.{Term, leaf, app, root}
use u6a.Codegen.{app_ins, lc_ins}
use u6a.Codegen.Compile.{is_app, makes_string, constants}
use u6a.Semantics.{Value, World, emit, Stands}
use u6a.VmPool.Owed.{Pins, occ-plain}
use u6a.Runtime.{Program, ExecState, fn_ref, set_acc, set_token, advance}
use u6a.Runtime.Values.{Stands-Represents, Stands-plain, Stands-nonzero}
use u6a.Runtime.Fn
use u6a.Runtime.Apply.{next, c_string, apply_p}
use u6a.Runtime.Step.{
  apply, apply_control, apply_input, load_operands, step_ins, step_lc, ins_at, step,
}
use u6a.Runtime.Steps.{done, more, world, Ready, Good-fewer, step-at}
use u6a.Runtime.Yields.{Kept-same, Yields}
use u6a.Runtime.Code.{CodeAt}

-- A constant string can be read: the host stores the most significant byte of its offset first, and
-- the characters stand at the offset.
abbrev pub StringAt : Program → ℕ → List ℕ → Type 0
StringAt pr q chars =
    (pr.little ≡ false) × (q < 2 ^ 32) × (c_string (drop q pr.machine.rodata) ≡ some chars)

host_word-network : (q : ℕ) → q < 2 ^ 32 → host_word false (network q) ≡ q
unfolding swap_word
host_word-network q h = net_word-network false q h

apply_p-string :
    (pr : Program) (st : ExecState) (chars : List ℕ)
    → c_string (drop st.func.ref pr.machine.rodata) ≡ some chars
    → apply_p pr st
      ≡ ok (next (advance (set_acc st.arg (record st { ostream = st.ostream ++ chars }))))
unfolding apply_p
apply_p-string pr st chars e = rw (e, apply_p) refl

apply-p : (pr : Program) (st : ExecState) → st.func.fn ≡ Fn.p → apply pr st ≡ apply_p pr st
unfolding apply apply_control apply_input
apply-p pr st h = rw h refl

-- The two instructions that print a constant string and give the value.
pub string-Yields :
    (pr : Program) (st : ExecState) (zs : List VarFn) (pins : Pins) (b : Token) (p q : ℕ)
    (chars : List ℕ) (x : Value) (w : World) (cells grows : ℕ)
    → CodeAt pr.little pr.machine.text p (lc_ins q ∷ app_ins no_token b ∷ [])
    → StringAt pr q chars
    → st.ins ≡ p
    → world st ≡ w
    → Ready pr st pins st.acc zs cells grows
    → Stands b.fn b.ch x
    → Yields pr st st.vm.pool.held pins (p + 2) x (emit chars w) zs cells grows
unfolding step_ins step_lc load_operands has_offset operand_word
string-Yields pr st zs pins b p q chars x w cells grows (v, i, o, (v2, i2, o2, c2))
      (big, small, string) h e r sb =
    let at : ins_at pr.machine.text st.ins ≡ some (raw_ins Opcode.lc Opcode.ex_print v) = rw h i in
    let word : v ≡ network q = o big in
    let offset_read : host_word pr.little v ≡ q = rw (big, word) (host_word-network q small) in
    let st1 : ExecState = advance (set_acc (fn_ref Fn.p q) st) in
    let at1 : ins_at pr.machine.text st1.ins ≡ some (raw_ins Opcode.app 0 v2) = rw h i2 in
    let st2 : ExecState = load_operands (operand_word (app_ins no_token b).operand) st1 in
    let st3 : ExecState =
      advance (set_acc st2.arg (record st2 { ostream = st.ostream ++ chars })) in
    let loaded_ins : step pr st ≡ ok (next st1) =
      step-at pr st at ∙ ap (λ n. ok (next (advance (set_acc (fn_ref Fn.p n) st)))) offset_read in
    let printed : step pr st1 ≡ ok (next st3) =
      step-at pr st1 at1
      ∙ (rw (o2 refl) refl ∙ (apply-p pr st2 refl ∙ apply_p-string pr st2 chars string)) in
    let kept : st3.acc ≡ set_token b st.arg = rw (Stands-nonzero b.fn b.ch x sb) refl in
    record {
      final = st3;
      pins' = pins;
      steps = more loaded_ins (more printed done);
      here = ap (λ n. n + 1 + 1) h ∙ omega arith;
      represents = rw kept (Stands-Represents st.vm.pool.held pins (set_token b st.arg) x sb);
      same = ap (emit chars) e;
      ready = rw kept (
          Good-fewer (set_token b st.arg ∷ st.top ∷ zs) cells grows r
            (λ d.
              omega
                (arith, occ-plain d (set_token b st.arg) (Stands-plain (set_token b st.arg) x sb)))
            (omega arith) (omega arith));
      kept = Kept-same refl;
    }

-- The constant strings of the code of a term can be read, with the constants from `q` on.
unfoldable pub Readable : Program → (o : Bool) → (q : ℕ) → List ℕ → Term → Type 0
Readable pr o q c (leaf t) = Unit
Readable pr o q c (app ch l r) =
    let first = Readable pr o q [] l in
    let second = Readable pr o (q + length (constants o [] l)) [] r in
    let only = Readable pr o q [] r in
    let below = Readable pr o q ((root l).ch ∷ c) r in
    if is_app l
    then (if is_app r then first × second else first)
    else if is_app r
    then (if (root l).fn == TokenFn.out then below else only)
    else if makes_string o (length c) (root l)
    then StringAt pr q ((root l).ch ∷ c)
    else Unit
