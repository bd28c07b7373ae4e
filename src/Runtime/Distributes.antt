-- ===== src/Runtime/Distributes.antt =====
-- runtime.c, `u6a_runtime_execute`: the application of `s` with two arguments, by the instructions of
-- the runtime.
use u6a.Base.{
  ℕ, ◌+◌, ◌≤◌, ◌≡◌, refl, ◌∙◌, ap, List, [], ◌∷◌, ◌++◌, length, arith, Bool-cases, inl, inr, ◌==◌,
  ==→eq, if◌then◌else◌,
}
use u6a.VmHeap.{VarFn}
use u6a.VmPool.{Held, PoolCtx, Vm, with_stack, var_fn_addref}
use u6a.VmPool.Owed.{Pins, Pinned, owed, Live-head, Live-Pinned}
use u6a.Loader.{zero_word}
use u6a.Semantics.{
  Value, World, distribute_both, Applies, apply_cells, apply_grows, apply_distribute_both,
}
use u6a.Runtime.{Program, ExecState, fn_ref, set_acc, jump, advance, add_ref}
use u6a.Runtime.Fn
use u6a.Runtime.Values.{Represents, Represents-Shows, Shows-now}
use u6a.Runtime.Apply.{apply_s2}
use u6a.Runtime.Steps.{done, more, world, seg_len, Good, Ready, Good-fewer}
use u6a.Runtime.Macros.{Good-addref, addref-pool, stack_push-Good}
use u6a.Runtime.Yields.{
  Substituted, GrantsStack, Kept-same, Yields, Yields-more, Yields-then, Yields-before, Goes,
}
use u6a.Runtime.Holding.{pool_get2-fns}
use u6a.Runtime.Reads.{Serves, jump-Goes}
use u6a.Runtime.Serving.{step-xch, Represents-Kept, on_stack-own, la-Serves}

-- A reference to each of the three functions is added.
refs_added :
    {pr : Program} (st : ExecState) (p q : VarFn) (ys zs : List VarFn) (pins : Pins)
    (cells grows : ℕ)
    → Pinned pins p
    → Pinned pins q
    → ((d : ℕ) → owed d ys ≤ owed d zs)
    → Ready pr st pins st.arg zs cells (3 + grows)
    → Good pr
        (var_fn_addref st.arg (var_fn_addref q (var_fn_addref p st.vm)))
        pins
        zs
        (st.arg ∷ st.top ∷ p ∷ q ∷ st.arg ∷ ys)
        cells
        grows
refs_added {pr} st p q ys zs pins cells grows pp pq fewer ready =
    let g0 =
      Good-fewer (st.arg ∷ st.top ∷ zs) cells (1 + (1 + (1 + grows))) ready (λ d. omega arith)
        (omega arith) (omega arith) in
    let v1 : Vm = var_fn_addref p st.vm in
    let g1 =
      Good-addref (1 + (1 + grows)) p g0 (Live-Pinned st.vm pins p (st.arg ∷ st.top ∷ zs) pp) in
    let g2 = Good-addref (1 + grows) q g1 (Live-Pinned v1 pins q (p ∷ st.arg ∷ st.top ∷ zs) pq) in
    let v2 : Vm = var_fn_addref q v1 in
    let g3 =
      Good-addref grows st.arg
        (Good-fewer (st.arg ∷ q ∷ p ∷ st.top ∷ zs) cells (1 + grows) g2 (λ d. omega arith)
          (omega arith) (omega arith))
        (Live-head v2 pins st.arg (q ∷ p ∷ st.top ∷ zs)) in
    Good-fewer (st.arg ∷ st.top ∷ p ∷ q ∷ st.arg ∷ ys) cells grows g3 (λ d. omega (arith, fewer d))
      (omega arith) (omega arith)

module _ (pr : Program) (subst : Substituted pr) (granted : GrantsStack pr) (enough : 3 ≤ pr.fuel)
    {x y z f a r : Value} {w w1 w2 w3 : World} (xz : Applies x z w f w1) (yz : Applies y z w1 a w2)
    (fa : Applies f a w2 r w3) (run1 : Serves pr xz) (run2 : Serves pr yz)
    (run3 : Serves pr fa) where
  -- Three applications, from the first instruction of the runtime to the one behind the fourth.
  three :
      (st : ExecState) (p q : VarFn) (rest : List VarFn) (pins : Pins) (cells grows : ℕ)
      → st.ins ≡ 0
      → Pinned pins q
      → Represents st.vm.pool.held pins p x
      → Represents st.vm.pool.held pins q y
      → Represents st.vm.pool.held pins st.acc z
      → world st ≡ w
      → (let n : ℕ = seg_len pr in
          Ready pr st pins st.acc
            (p ∷ q ∷ st.acc ∷ rest)
            (apply_cells xz + (apply_cells yz + (apply_cells fa + cells)))
            (n
              + (apply_grows n xz
                  + (n + (n + (apply_grows n yz + (n + (apply_grows n fa + grows))))))))
      → Yields pr st st.vm.pool.held pins 4 r w3 rest cells grows
  three st p q rest pins cells grows i0 pq rp rq rg ew ready =
      let n : ℕ = seg_len pr in
      let grows3 : ℕ = apply_grows n fa + grows in
      let grows2 : ℕ = apply_grows n yz + (n + grows3) in
      let cells3 : ℕ = apply_cells fa + cells in
      let cells2 : ℕ = apply_cells yz + cells3 in
      let g : VarFn = st.acc in
      let r1 =
        la-Serves pr xz st p (q ∷ g ∷ rest) pins 0 cells2 (n + (n + grows2)) enough run1
          (zero_word, subst.0) i0 rp rg ew ready in
      let st1 : ExecState = r1.final in
      let now =
        Shows-now st1.acc f (Represents-Shows st1.vm.pool.held r1.pins' st1.acc f r1.represents) in
      let (ctx, e, g1) =
        step-xch pr st1 q g rest r1.pins' cells2 (n + grows2) granted (rw r1.here subst.1) now
          r1.ready in
      let st2 : ExecState = advance (set_acc g (record st1 { vm = with_stack ctx st1.vm })) in
      let r2 =
        la-Serves pr yz st2 q (st1.acc ∷ rest) r1.pins' 2 cells3 (n + grows3) enough run2
          (zero_word, subst.2) (ap suc_of r1.here)
          (Represents-Kept q y r1.kept (λ k. r1.kept.pinned q.ref (pq k)) rq)
          (Represents-Kept g z r1.kept
            (on_stack-own g rest (q ∷ g ∷ rest) r1.kept (λ d. omega arith)) rg)
          r1.same g1 in
      let st3 : ExecState = r2.final in
      let r3 =
        la-Serves pr fa st3 st1.acc rest r2.pins' 3 cells grows enough run3 (zero_word, subst.3)
          r2.here
          (Represents-Kept st1.acc f r2.kept
            (on_stack-own st1.acc rest (st1.acc ∷ rest) r2.kept (λ d. omega arith)) r1.represents)
          r2.represents r2.same r2.ready in
      Yields-then r1 (λ d. omega arith)
        (Yields-more (more e done) (Yields-then r2 (λ d. omega arith) r3))
    where
      suc_of : ℕ → ℕ
      suc_of k = k + 1

  -- The jump back is left out in front of the fourth instruction of the runtime.
  abbrev back : ℕ → List VarFn
  back p = if p == 3 then [] else fn_ref Fn.j p ∷ []

  owed-back : (p d : ℕ) (zs : List VarFn) → owed d (back p ++ zs) ≡ owed d zs
  owed-back p d zs = elim (Bool-cases (p == 3)) [ inl q ↦ rw q refl | inr q ↦ rw q (omega arith) ]

  length-back : (p : ℕ) (b c d : VarFn) → length (b ∷ c ∷ d ∷ back p) ≤ 4
  length-back p b c d = elim (Bool-cases (p == 3)) [
    | inl q ↦ rw q (omega arith)
    | inr q ↦ rw q (omega arith)
  ]

  pushed-back :
      (p : ℕ) (b c d : VarFn)
      → (if p == 3 then b ∷ c ∷ d ∷ [] else b ∷ c ∷ d ∷ fn_ref Fn.j p ∷ []) ≡ b ∷ c ∷ d ∷ back p
  pushed-back p b c d = elim (Bool-cases (p == 3)) [ inl q ↦ rw q refl | inr q ↦ rw q refl ]

  -- Back at the instruction behind the application.
  come_back :
      (st : ExecState) (p : ℕ) (zs : List VarFn) (held : ℕ → Held) (pins : Pins) (cells grows : ℕ)
      → Yields pr st held pins 4 r w3 (back p ++ zs) cells (seg_len pr + grows)
      → Yields pr st held pins (p + 1) r w3 zs cells grows
  come_back st p zs held pins cells grows y = elim (Bool-cases (p == 3)) [
    | inl q ↦
        let at : 4 ≡ p + 1 = omega (arith, ==→eq p 3 q) in
        let y' : Yields pr st held pins 4 r w3 zs cells (seg_len pr + grows) = rw q at y in
        rw⁻¹ at (record {
          final = y'.final;
          pins' = y'.pins';
          steps = y'.steps;
          here = y'.here;
          represents = y'.represents;
          same = y'.same;
          ready =
              Good-fewer (y'.final.acc ∷ y'.final.top ∷ zs) cells grows y'.ready (λ d. omega arith)
                (omega arith) (omega arith);
          kept = y'.kept;
        })
    | inr q ↦ jump-Goes pr subst granted enough st p zs held pins r w3 cells grows (
        let y' : Yields pr st held pins 4 r w3 (fn_ref Fn.j p ∷ zs) cells (seg_len pr + grows) =
          rw q at y in
        y')
  ]

  pub apply_s2-Goes :
      (st : ExecState) (zs : List VarFn) (pins : Pins) (cells grows : ℕ)
      → Represents st.vm.pool.held pins st.func (distribute_both x y)
      → Represents st.vm.pool.held pins st.arg z
      → world st ≡ w
      → (let all : Applies (distribute_both x y) z w r w3 = apply_distribute_both xz yz fa in
          Ready pr st pins st.arg zs
            (apply_cells all + cells)
            (apply_grows (seg_len pr) all + grows))
      → Goes pr (apply_s2 pr st) st.vm.pool.held pins (st.ins + 1) r w3 zs cells grows
  unfolding apply_s2
  apply_s2-Goes st zs pins cells grows (fn, p, q, h, pp, pq, rp, rq) rg ew ready =
      let n : ℕ = seg_len pr in
      let cells1 : ℕ = apply_cells xz + (apply_cells yz + (apply_cells fa + cells)) in
      let grows1 : ℕ =
        n
        + (apply_grows n xz
            + (n + (n + (apply_grows n yz + (n + (apply_grows n fa + (n + grows))))))) in
      let v3 : Vm = var_fn_addref st.arg (var_fn_addref q (var_fn_addref p st.vm)) in
      let st1 : ExecState = add_ref st.arg (add_ref q (add_ref p st)) in
      let rest : List VarFn = back st.ins ++ zs in
      let g4 =
        refs_added st p q rest zs pins cells1 grows1 pp pq
          (λ d. omega (arith, owed-back st.ins d zs))
          (Good-fewer (st.arg ∷ st.top ∷ zs) cells1 (3 + grows1) ready (λ d. omega arith)
            (omega arith) (omega arith)) in
      let (ctx, e, g5) =
        stack_push-Good pr (p ∷ q ∷ st.arg ∷ back st.ins) st1 granted
          (length-back st.ins p q st.arg) g4 in
      let st2 : ExecState = jump 0 (set_acc st.arg (record st1 { vm = with_stack ctx v3 })) in
      let same : v3.pool.held ≡ st.vm.pool.held =
        ap (λ (c : PoolCtx). c.held)
          (addref-pool st.arg (var_fn_addref q (var_fn_addref p st.vm))
            ∙ (addref-pool q (var_fn_addref p st.vm) ∙ addref-pool p st.vm)) in
      let applied =
        three st2 p q rest pins cells (n + grows) refl pq (rw same rp) (rw same rq) (rw same rg) ew
          g5 in
      record {
        after = st2;
        goes =
            rw (pool_get2-fns st.func.ref st.vm h, apply_s2, pushed-back st.ins p q st.arg, e) refl;
        yields =
            come_back st2 st.ins zs st.vm.pool.held pins cells grows
              (Yields-before {zs = rest} (Kept-same same) (λ d. omega arith) applied);
      }
