-- ===== src/Runtime/Applications.antt =====
-- runtime.c, `u6a_runtime_execute`: the application of one value to another, by the rules of
-- `Semantics`.
use u6a.Base.{ℕ, ◌+◌, ◌≤◌, ◌≡◌, refl, ◌∙◌, ap, List, [], ◌∷◌, Result, arith}
use u6a.Defs.TokenFn
use u6a.VmHeap.{VarFn, StackError}
use u6a.VmPool.{Held, empty_fn}
use u6a.VmPool.Owed.{Pins}
use u6a.Semantics.{
  Value, World, emit, Applies, apply_constant, apply_constant_of, apply_distribute,
  apply_distribute_of, apply_distribute_both, apply_identity, apply_void, apply_printer,
  apply_reader, apply_compare, apply_reprint, apply_cells, apply_grows, constant_of, distribute_of,
}
use u6a.Runtime.{Program, ExecState, fn_ref, set_fn, set_acc, put_char, advance}
use u6a.Runtime.Fn
use u6a.Runtime.Values.{Represents, Stands-Represents}
use u6a.Runtime.Apply.{Round}
use u6a.Runtime.Steps.{seg_len, Ready, Good-fewer}
use u6a.Runtime.Yields.{Substituted, GrantsStack, Kept-same, Goes}
use u6a.Runtime.Holding.{at_once, apply_hold-Goes, apply_s1-Goes, apply_k1-Goes}
use u6a.Runtime.Distributes.{apply_s2-Goes}
use u6a.Runtime.Reads.{Serves, Continues, apply_in-Goes, apply_cmp-Goes, apply_pipe-Goes}
use u6a.Runtime.Cases.{
  apply-at, apply-cmp, apply-pipe, apply-i, apply-v, apply-out, apply-k, apply-s, apply-s1,
  apply-s2, apply-k1,
}

-- Another way to the same round.
pub Goes-by :
    {pr : Program} {r r' : Result StackError Round} {held : ℕ → Held} {pins : Pins} {p : ℕ}
    {y : Value} {w : World} {zs : List VarFn} {cells grows : ℕ}
    → r ≡ r'
    → Goes pr r' held pins p y w zs cells grows
    → Goes pr r held pins p y w zs cells grows
Goes-by e g = record { after = g.after; goes = e ∙ g.goes; yields = g.yields }

module _ (pr : Program) (subst : Substituted pr) (granted : GrantsStack pr)
    (enough : 3 ≤ pr.fuel) where
  -- What is applied next takes the rest of the budget.
  continue :
      {x z y : Value} {w1 w' : World} (a : Applies x z w1 y w') (st : ExecState) (zs : List VarFn)
      (pins : Pins) (cells grows : ℕ)
      → Serves pr a
      → Represents st.vm.pool.held pins st.arg x
      → Continues pr subst granted enough st zs pins z w1 y w'
          (apply_cells a + cells)
          cells
          (apply_grows (seg_len pr) a + (seg_len pr + grows))
          grows
  continue {z = z} a st zs pins cells grows serves rx st1 func stands e held ready =
      serves st1 (fn_ref Fn.j st.ins ∷ zs) pins cells (seg_len pr + grows) (rw (held, func) rx)
        (Stands-Represents st1.vm.pool.held pins st1.arg z stands) e ready

  -- The budget of a function that reads.
  reads :
      {x z y : Value} {w1 w' : World} (a : Applies x z w1 y w') (st : ExecState) (zs : List VarFn)
      (pins : Pins) (cells grows : ℕ)
      → (let n : ℕ = seg_len pr in
          Ready pr st pins st.arg zs (apply_cells a + cells) (1 + n + (apply_grows n a + n) + grows)
          → Ready pr st pins st.arg zs
              (apply_cells a + cells)
              (1 + (n + (apply_grows n a + (n + grows)))))
  reads a st zs pins cells grows r =
      let n : ℕ = seg_len pr in
      Good-fewer (st.arg ∷ st.top ∷ zs) (apply_cells a + cells)
        (1 + (n + (apply_grows n a + (n + grows)))) r (λ d. omega arith) (omega arith) (omega arith)

  no_cells :
      (st : ExecState) (zs : List VarFn) (pins : Pins) (cells grows : ℕ)
      → Ready pr st pins st.arg zs (0 + cells) grows
      → Ready pr st pins st.arg zs cells grows
  no_cells st zs pins cells grows r =
      Good-fewer (st.arg ∷ st.top ∷ zs) cells grows r (λ d. omega arith) (omega arith) (omega arith)

  none_taken :
      (st : ExecState) (zs : List VarFn) (pins : Pins) (cells grows : ℕ)
      → Ready pr st pins st.arg zs (0 + cells) (0 + grows)
      → Ready pr st pins st.arg zs cells grows
  none_taken st zs pins cells grows r =
      Good-fewer (st.arg ∷ st.top ∷ zs) cells grows r (λ d. omega arith) (omega arith) (omega arith)

  pub apply-Serves : {f x y : Value} {w w' : World} (a : Applies f x w y w') → Serves pr a
  apply-Serves (apply_constant {x}) st zs pins cells grows rf rx e r = Goes-by (apply-k pr st rf) (
      apply_hold-Goes Fn.k1 st x (constant_of x) (λ d. refl) r rx e
        (λ d held' pins' here pinned rep. (refl, st.arg, empty_fn, here, pinned, rep)))
  apply-Serves apply_constant_of st zs pins cells grows rf rx e r =
      Goes-by (apply-k1 pr st rf.0)
        (apply_k1-Goes st _ (no_cells st zs pins cells (1 + grows) r) rf e)
  apply-Serves (apply_distribute {x}) st zs pins cells grows rf rx e r =
      Goes-by (apply-s pr st rf) (
        apply_hold-Goes Fn.s1 st x (distribute_of x) (λ d. refl) r rx e
          (λ d held' pins' here pinned rep. (refl, st.arg, empty_fn, here, pinned, rep)))
  apply-Serves apply_distribute_of st zs pins cells grows rf rx e r =
      Goes-by (apply-s1 pr st rf.0) (apply_s1-Goes st _ _ r rf rx e)
  apply-Serves (apply_distribute_both a b c) st zs pins cells grows rf rx e r =
      Goes-by (apply-s2 pr st rf.0) (
        apply_s2-Goes pr subst granted enough a b c (apply-Serves a) (apply-Serves b)
          (apply-Serves c) st zs pins cells grows rf rx e r)
  apply-Serves apply_identity st zs pins cells grows rf rx e r =
      at_once (advance (set_acc st.arg st)) pins (apply-i pr st rf) refl rx e
        (none_taken st zs pins cells grows r) (Kept-same refl)
  apply-Serves apply_void st zs pins cells grows rf rx e r =
      at_once (advance (set_acc (set_fn TokenFn.v st.acc) st)) pins (apply-v pr st rf) refl refl e
        (Good-fewer (set_fn TokenFn.v st.acc ∷ st.top ∷ zs) cells grows r (λ d. omega arith)
          (omega arith) (omega arith))
        (Kept-same refl)
  apply-Serves (apply_printer {c}) st zs pins cells grows rf rx e r =
      at_once (advance (put_char c (set_acc st.arg st))) pins (apply-out pr st rf.0 ∙ rw rf.1 refl)
        refl rx (ap (emit (c ∷ [])) e) (none_taken st zs pins cells grows r) (Kept-same refl)
  apply-Serves (apply_reader {w} a) st zs pins cells grows rf rx e r = Goes-by (apply-at pr st rf) (
      apply_in-Goes pr subst granted enough st zs pins _ _ (apply_cells a + cells) cells
        (apply_grows (seg_len pr) a + (seg_len pr + grows)) grows (reads a st zs pins cells grows r)
        w.current w.input w.output e (continue a st zs pins cells grows (apply-Serves a) rx))
  apply-Serves (apply_compare {c} {w} a) st zs pins cells grows rf rx e r =
      let run = continue a st zs pins cells grows (apply-Serves a) rx in
      Goes-by (apply-cmp pr st rf.0) (
        apply_cmp-Goes pr subst granted enough st zs pins _ _ (apply_cells a + cells) cells
          (apply_grows (seg_len pr) a + (seg_len pr + grows)) grows
          (reads a st zs pins cells grows r) w w.current e (ap (λ (u : World). u.current) e)
          (λ st1 func stands. run st1 func (rw rf.1 at stands)))
  apply-Serves (apply_reprint {w} a) st zs pins cells grows rf rx e r =
      Goes-by (apply-pipe pr st rf) (
        apply_pipe-Goes pr subst granted enough st zs pins _ _ (apply_cells a + cells) cells
          (apply_grows (seg_len pr) a + (seg_len pr + grows)) grows
          (reads a st zs pins cells grows r) w w.current e (ap (λ (u : World). u.current) e)
          (continue a st zs pins cells grows (apply-Serves a) rx))
