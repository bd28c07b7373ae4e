-- ===== src/Runtime/Computes.antt =====
-- runtime.c, `u6a_runtime_execute`, on the code that the compiler makes of a term: the cases of a
-- term, and all terms.
use u6a.Base.{
  ℕ, Bool, suc, ◌+◌, ◌≤◌, ◌≡◌, refl, ◌∙◌, sym, ap, true, false, List, [], ◌∷◌, ◌++◌, arith, length,
  length-append, ◌==◌, ==→eq, Bool-cases, inl, inr,
}
use u6a.Defs.{Token}
use u6a.Defs.TokenFn
use u6a.VmDefs.{VmIns, vm_ins, offset, no_token}
use u6a.VmDefs.Opcode
use u6a.VmHeap.{VarFn}
use u6a.Parser.Term.{Term, leaf, app}
use u6a.Codegen.{app_ins, la_ins, lc_ins}
use u6a.Codegen.Compile.{is_app, prints, makes_string, constants, code}
use u6a.VmPool.{Held}
use u6a.VmPool.Owed.{Pins}
use u6a.Semantics.{
  Value, constant, constant_of, distribute, distribute_of, distribute_both, identity, void, printer,
  reader, compare, reprint, World, emit, Stands, Applies, apply_printer, apply_cells, apply_grows,
  Evals, eval_leaf, eval_app, cells, grows,
}
use u6a.Runtime.{Program, ExecState, advance}
use u6a.Runtime.Values.{Represents, Stands-nonzero, Stands-now}
use u6a.Runtime.Steps.{done, more, world, seg_len, Ready, Good-fewer}
use u6a.Runtime.Yields.{
  Substituted, GrantsStack, Kept-same, Yields, Yields-more, Yields-then, Yields-before,
}
use u6a.Runtime.Serving.{la-Serves, Represents-Kept, on_stack-own}
use u6a.Runtime.Applications.{apply-Serves}
use u6a.Runtime.Strings.{Readable, string-Yields}
use u6a.Runtime.Code.{
  CodeAt, CodeAt-append, emit-nil, emit-emit, token-Loads, acc-Loads, step-sa, then_prints,
  app_last,
}

same_value :
    {pr : Program} {st : ExecState} {held : ℕ → Held} {pins : Pins} {p : ℕ} {x y : Value}
    {w w' : World} {zs : List VarFn} {c g : ℕ}
    → Yields pr st held pins p x w zs c g
    → x ≡ y
    → w ≡ w'
    → Yields pr st held pins p y w' zs c g
same_value r ex ew = record {
  final = r.final;
  pins' = r.pins';
  steps = r.steps;
  here = r.here;
  represents = rw⁻¹ ex r.represents;
  same = r.same ∙ ew;
  ready = r.ready;
  kept = r.kept;
}

-- Less of the budget.
less :
    {pr : Program} (st : ExecState) {pins : Pins} {zs : List VarFn} {c g : ℕ} (c' g' : ℕ)
    → Ready pr st pins st.acc zs c g
    → c' ≤ c
    → g' ≤ g
    → Ready pr st pins st.acc zs c' g'
less st {zs = zs} c' g' r fewer smaller =
    Good-fewer (st.acc ∷ st.top ∷ zs) c' g' r (λ d. omega arith) fewer smaller

pub makes_string-out :
    (o : Bool) (n : ℕ) (a : Token) → makes_string o n a ≡ true → a.fn ≡ TokenFn.out
makes_string-out true n a h = elim (Bool-cases (a.fn == TokenFn.out)) [
  | inl out ↦ ==→eq a.fn TokenFn.out out
  | inr other ↦ cc (rw other at h)
]
makes_string-out false n a h = cc

module _ (pr : Program) (o : Bool) (subst : Substituted pr) (granted : GrantsStack pr)
    (enough : 3 ≤ pr.fuel) where
  -- The code of the term below the printing functions computes its value and prints what they print.
  abbrev pub Computes : Term → Type 0
  Computes t =
      (p q s : ℕ) (c : List ℕ) (y : Value) (w w' : World) (st : ExecState) (zs : List VarFn)
      (pins : Pins) (n g : ℕ) (ev : Evals t w y w')
      → CodeAt pr.little pr.machine.text s (code o p q c t)
      → Readable pr o q c t
      → st.ins ≡ s
      → world st ≡ w
      → Ready pr st pins st.acc zs (cells ev + n) (grows (seg_len pr) ev + g)
      → Yields pr st st.vm.pool.held pins (s + length (code o p q c t)) y (emit c w') zs n g

  -- The code of a term below no printing function.
  pub alone :
      (t : Term) (p q s : ℕ) (y : Value) (w w' : World) (st : ExecState) (zs : List VarFn)
      (pins : Pins) (n g : ℕ) (ev : Evals t w y w')
      → Computes t
      → CodeAt pr.little pr.machine.text s (code o p q [] t)
      → Readable pr o q [] t
      → st.ins ≡ s
      → world st ≡ w
      → Ready pr st pins st.acc zs (cells ev + n) (grows (seg_len pr) ev + g)
      → Yields pr st st.vm.pool.held pins (s + length (code o p q [] t)) y w' zs n g
  alone t p q s y w w' st zs pins n g ev ih at rd h e r =
      rw (emit-nil w') at (ih p q s [] y w w' st zs pins n g ev at rd h e r)

  -- What a printing function that is not applied at once does.
  printed :
      {f x y : Value} {w w' : World} (a : Token)
      → Stands a.fn a.ch f
      → a.fn ≡ TokenFn.out
      → Applies f x w y w'
      → (x ≡ y) × (emit (a.ch ∷ []) w ≡ w')
  printed {f = constant} a s o ap = absurd (omega arith)
  printed {f = constant_of x} a s o ap = absurd s
  printed {f = distribute} a s o ap = absurd (omega arith)
  printed {f = distribute_of x} a s o ap = absurd s
  printed {f = distribute_both x y} a s o ap = absurd s
  printed {f = identity} a s o ap = absurd (omega arith)
  printed {f = void} a s o ap = absurd (omega arith)
  printed {f = printer c} a s o apply_printer = (refl, rw s.1 refl)
  printed {f = reader} a s o ap = absurd (omega arith)
  printed {f = compare c} a s o ap = absurd (omega arith)
  printed {f = reprint} a s o ap = absurd (omega arith)

  leaves : (ch : ℕ) (a b : Token) → Computes (app ch (leaf a) (leaf b))
  unfolding code Readable
  leaves ch a b p q s c y w w' st zs pins n g
        (eval_app (eval_leaf {v = f} sa) (eval_leaf {v = x} sb) applies) at rd h e r =
      elim (Bool-cases (makes_string o (length c) a)) [
        | inl makes ↦
            let string : List VmIns = lc_ins q ∷ app_ins no_token b ∷ [] in
            let same : code o p q c (app ch (leaf a) (leaf b)) ≡ string = rw makes refl in
            let (ex, ew) = printed a sa (makes_string-out o (length c) a makes) applies in
            rw same (
              same_value
                (string-Yields pr st zs pins b s q (a.ch ∷ c) x w n g (rw same at at)
                  (rw makes at rd) h e (less st n g r (omega arith) (omega arith)) sb)
                ex (sym (emit-emit (a.ch ∷ []) c w) ∙ ap (emit c) ew))
        | inr plain ↦
            let text : List VmIns = app_ins a b ∷ prints c in
            let same : code o p q c (app ch (leaf a) (leaf b)) ≡ text = rw plain refl in
            rw same (
              app_last pr subst granted enough st zs pins a b c s (s + suc (length (prints c))) n g
                applies (rw same at at) h e
                (less st (apply_cells applies + n) (apply_grows (seg_len pr) applies + g) r
                  (omega arith) (omega arith))
                (rw (Stands-nonzero a.fn a.ch f sa) (token-Loads st pins a st.func f sa))
                (rw (Stands-nonzero b.fn b.ch x sb) (token-Loads st pins b st.arg x sb)) refl)
      ]

  left_only :
      (ch : ℕ) (l : Term) (b : Token) → is_app l ≡ true → Computes l → Computes (app ch l (leaf b))
  unfolding code Readable
  left_only ch l b is ih p q s c y w w' st zs pins n g
        (eval_app {f = f} {w1 = w1} el (eval_leaf {v = x} sb) applies) at rr h e r =
      let first : List VmIns = code o p q [] l in
      let text : List VmIns = first ++ app_ins no_token b ∷ prints c in
      let same : code o p q c (app ch l (leaf b)) ≡ text = rw is refl in
      let (at1, at2) =
        CodeAt-append pr.little pr.machine.text s first (app_ins no_token b ∷ prints c)
          (rw same at at) in
      let n1 : ℕ = apply_cells applies + n in
      let g1 : ℕ = apply_grows (seg_len pr) applies + g in
      let r1 =
        alone l p q s f w w1 st zs pins n1 g1 el ih at1 (rw is at rr) h e
          (less st (cells el + n1) (grows (seg_len pr) el + g1) r (omega arith) (omega arith)) in
      let st1 : ExecState = r1.final in
      rw same (
        Yields-then r1 (λ d. omega arith)
          (app_last pr subst granted enough st1 zs r1.pins' no_token b c (s + length first)
            (s + length text) n g applies at2 r1.here r1.same r1.ready
            (acc-Loads st1 r1.pins' f r1.represents)
            (rw (Stands-nonzero b.fn b.ch x sb) (token-Loads st1 r1.pins' b st1.arg x sb))
            (omega (arith, length-append {0} first (app_ins no_token b ∷ prints c)))))

  -- A value is kept on the stack while that of the argument is computed, and applied to it.
  saved_applied :
      (r : Term) (p q s off : ℕ) {f x y : Value} {w1 w2 w' : World} (st : ExecState)
      (zs : List VarFn) (pins : Pins) (n g : ℕ) (er : Evals r w1 x w2)
      (applies : Applies f x w2 y w')
      → Computes r
      → CodeAt pr.little pr.machine.text s (vm_ins Opcode.sa (offset off) ∷ [])
      → CodeAt pr.little pr.machine.text (s + 1) (code o p q [] r)
      → CodeAt pr.little pr.machine.text (s + 1 + length (code o p q [] r)) (la_ins ∷ [])
      → Readable pr o q [] r
      → st.ins ≡ s
      → Represents st.vm.pool.held pins st.acc f
      → world st ≡ w1
      → (let k : ℕ = seg_len pr in
          Ready pr st pins st.acc zs
            (cells er + (apply_cells applies + n))
            (1 + (grows k er + (k + (apply_grows k applies + g)))))
      → Yields pr st st.vm.pool.held pins (s + 1 + length (code o p q [] r) + 1) y w' zs n g
  saved_applied r p q s off {f} {x} {y} {w1} {w2} {w'} st zs pins n g er applies ih at1 at2
        (v3, i3, o3, at3) rr h rf e ready =
      let k : ℕ = seg_len pr in
      let n1 : ℕ = apply_cells applies + n in
      let g1 : ℕ = k + (apply_grows k applies + g) in
      let (v, saved, ready1, held1) =
        step-sa pr st zs pins s off (cells er + n1) (grows k er + g1) f granted at1 h ready rf in
      let st1 : ExecState = advance (record st { vm = v }) in
      let r1 =
        alone r p q (s + 1) x w1 w2 st1 (st.acc ∷ zs) pins n1 g1 er ih at2 rr (ap (λ i. i + 1) h) e
          ready1 in
      let st2 : ExecState = r1.final in
      let rf2 : Represents st2.vm.pool.held r1.pins' st.acc f =
        Represents-Kept st.acc f r1.kept
          (on_stack-own st.acc zs (st.acc ∷ zs) r1.kept (λ d. omega arith)) (rw held1 rf) in
      let r2 =
        la-Serves pr applies st2 st.acc zs r1.pins' (s + 1 + length (code o p q [] r)) n g enough
          (apply-Serves pr subst granted enough applies) (v3, i3) r1.here rf2 r1.represents r1.same
          r1.ready in
      Yields-more {st1 = st1} (more saved done) (
        Yields-before {zs = zs} (Kept-same held1) (λ d. omega arith)
          (Yields-then r1 (λ d. omega arith) r2))

  both :
      (ch : ℕ) (l r : Term)
      → is_app l ≡ true
      → is_app r ≡ true
      → Computes l
      → Computes r
      → Computes (app ch l r)
  unfolding code Readable
  both ch l r il ir ihl ihr p q s c y w w' st zs pins n g
        (eval_app {f = f} {x = x} {w1 = w1} {w2 = w2} el er applies) at rr h e rd =
      let (rl, rr2) = rw (il, ir) at rr in
      let first : List VmIns = code o p q [] l in
      let p' : ℕ = suc (p + length first) in
      let q' : ℕ = q + length (constants o [] l) in
      let second : List VmIns = code o p' q' [] r in
      let sa : VmIns = vm_ins Opcode.sa (offset (p + length first + length second + 2)) in
      let text : List VmIns = first ++ sa ∷ (second ++ la_ins ∷ prints c) in
      let same : code o p q c (app ch l r) ≡ text = rw (il, ir) refl in
      let (at1, at2) =
        CodeAt-append pr.little pr.machine.text s first (sa ∷ (second ++ la_ins ∷ prints c))
          (rw same at at) in
      let (v2, i2, o2, at3) = at2 in
      let (at4, at5) =
        CodeAt-append pr.little pr.machine.text (s + length first + 1) second (la_ins ∷ prints c)
          at3 in
      let (v5, i5, o5, at6) = at5 in
      let s2 : ℕ = s + length first + 1 + length second in
      let len : s2 + 1 + length (prints c) ≡ s + length text = omega (
        arith,
        length-append {0} first (sa ∷ (second ++ la_ins ∷ prints c)),
        length-append {0} second (la_ins ∷ prints c),
      ) in
      let k : ℕ = seg_len pr in
      let n2 : ℕ = cells er + (apply_cells applies + n) in
      let g2 : ℕ = 1 + (grows k er + (k + (apply_grows k applies + g))) in
      let r1 =
        alone l p q s f w w1 st zs pins n2 g2 el ihl at1 rl h e
          (less st (cells el + n2) (grows k el + g2) rd (omega arith) (omega arith)) in
      let applied : Yields pr st st.vm.pool.held pins (s2 + 1) y w' zs n g =
        Yields-then r1 (λ d. omega arith)
          (saved_applied r p' q' (s + length first) (p + length first + length second + 2) r1.final
            zs r1.pins' n g er applies ihr (v2, i2, o2, tt) at4 (v5, i5, o5, tt) rr2 r1.here
            r1.represents r1.same r1.ready) in
      rw same (
        then_prints pr subst granted enough c st zs st.vm.pool.held pins (s2 + 1) (s + length text)
          n g y w' applied at6 len)

  right_only :
      (ch : ℕ) (a : Token) (r : Term) → is_app r ≡ true → Computes r → Computes (app ch (leaf a) r)
  unfolding code Readable
  right_only ch a r is ih p q s c y w w' st zs pins n g
        (eval_app {x = x} {w2 = w2} (eval_leaf {v = f} sa) er applies) at rr h e rd =
      elim (Bool-cases (a.fn == TokenFn.out)) [
        | inl out ↦
            let same : code o p q c (app ch (leaf a) r) ≡ code o p q (a.ch ∷ c) r =
              rw (is, Stands-now a.fn a.ch f sa, out) refl in
            let (ex, ew) = printed a sa (==→eq a.fn TokenFn.out out) applies in
            rw same (
              same_value
                (ih p q s (a.ch ∷ c) x w w2 st zs pins n g er (rw same at at) (rw (is, out) at rr) h
                  e
                  (less st (cells er + n) (grows (seg_len pr) er + g) rd (omega arith)
                    (omega arith)))
                ex (sym (emit-emit (a.ch ∷ []) c w2) ∙ ap (emit c) ew))
        | inr other ↦
            let only : List VmIns = code o p q [] r in
            let text : List VmIns = only ++ app_ins a no_token ∷ prints c in
            let same : code o p q c (app ch (leaf a) r) ≡ text =
              rw (is, Stands-now a.fn a.ch f sa, other) refl in
            let (at1, at2) =
              CodeAt-append pr.little pr.machine.text s only (app_ins a no_token ∷ prints c)
                (rw same at at) in
            let n1 : ℕ = apply_cells applies + n in
            let g1 : ℕ = apply_grows (seg_len pr) applies + g in
            let r1 = alone r p q s x w w2 st zs pins n1 g1 er ih at1 (rw (is, other) at rr) h e (
              less st (cells er + n1) (grows (seg_len pr) er + g1) rd (omega arith)
                (omega arith)) in
            let st1 : ExecState = r1.final in
            rw same (
              Yields-then r1 (λ d. omega arith)
                (app_last pr subst granted enough st1 zs r1.pins' a no_token c (s + length only)
                  (s + length text) n g applies at2 r1.here r1.same r1.ready
                  (rw (Stands-nonzero a.fn a.ch f sa) (token-Loads st1 r1.pins' a st1.func f sa))
                  (rw (Stands-nonzero a.fn a.ch f sa) (acc-Loads st1 r1.pins' x r1.represents))
                  (omega (arith, length-append {0} only (app_ins a no_token ∷ prints c)))))
      ]

  pub code-Computes : (t : Term) → is_app t ≡ true → Computes t
  code-Computes (leaf a) h = cc
  code-Computes (app ch (leaf a) (leaf b)) h = leaves ch a b
  code-Computes (app ch (leaf a) (app ch' l r)) h =
      right_only ch a (app ch' l r) refl (code-Computes (app ch' l r) refl)
  code-Computes (app ch (app ch' l r) (leaf b)) h =
      left_only ch (app ch' l r) b refl (code-Computes (app ch' l r) refl)
  code-Computes (app ch (app ch' l r) (app ch'' l' r')) h =
      both ch (app ch' l r) (app ch'' l' r') refl refl (code-Computes (app ch' l r) refl)
        (code-Computes (app ch'' l' r') refl)
