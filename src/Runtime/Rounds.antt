-- ===== src/Runtime/Rounds.antt =====
-- runtime.c: how many rounds of the loop of `u6a_runtime_execute` an execution is given.
use u6a.Base.{
  ℕ, zero, suc, ◌+◌, ◌≡◌, ◌≢◌, refl, sym, ◌∙◌, subst, List, Result, ok, err, arith, Result-cases,
  inl, inr,
}
use u6a.VmHeap.{VarFn, StackError, out_of_fuel}
use u6a.VmPool.{Held}
use u6a.Runtime.{Program, ExecState}
use u6a.Runtime.Apply.{Round, next, returned}
use u6a.Runtime.Step.{Ending, value, runtime_error, step, exec_loop, exec_state, runtime_execute}
use u6a.Runtime.Start.{vm_init, run}

-- The execution has ended, and not for a lack of rounds.
abbrev pub Ended : Ending → Type 0
Ended (value x output) = Unit
Ended (runtime_error e output) = e ≢ out_of_fuel

data Stepped (r : Result StackError Round) : Type 0 where
  failed : (e : StackError) → r ≡ err e → Stepped r
  finished : (x : VarFn) (st : ExecState) → r ≡ ok (returned x st) → Stepped r
  goes_on : (st : ExecState) → r ≡ ok (next st) → Stepped r

step_cases : (r : Result StackError Round) → Stepped r
step_cases (err e) = failed e refl
step_cases (ok (returned x st)) = finished x st refl
step_cases (ok (next st)) = goes_on st refl

exec_loop-more :
    (n k : ℕ) (pr : Program) (st : ExecState)
    → Ended (exec_loop n pr st)
    → exec_loop (n + k) pr st ≡ exec_loop n pr st
unfolding exec_loop
exec_loop-more zero k pr st h = absurd (h refl)
exec_loop-more (suc n) k pr st h =
    let more : suc n + k ≡ suc (n + k) = omega arith in
    elim (step_cases (step pr st)) [
      | failed e q ↦ rw (more, q, exec_loop) refl
      | finished x st1 q ↦ rw (more, q, exec_loop) refl
      | goes_on st1 q ↦
          let same : (m : ℕ) → exec_loop (suc m) pr st ≡ exec_loop m pr st1 =
            λ m. rw (q, exec_loop) refl in
          rw more (
            same (n + k)
            ∙ exec_loop-more n k pr st1 (subst (λ e. Ended e) (same n) h)
            ∙ sym (same n))
    ]

-- If a run ends with a number of rounds, and not for a lack of rounds, it ends in the same way with
-- every larger number.
pub run-more :
    (n k : ℕ) (pr : Program) (held : ℕ → Held) (refs : ℕ → ℕ) (input : List ℕ)
    → Ended (run n pr held refs input)
    → run (n + k) pr held refs input ≡ run n pr held refs input
unfolding run runtime_execute
run-more n k pr held refs input h = elim (Result-cases (vm_init pr.grants held refs pr.machine)) [
  | inl (v, q) ↦
      let same : (m : ℕ) → run m pr held refs input ≡ exec_loop m pr (exec_state v input) =
        λ m. rw (q, run) refl in
      same (n + k)
      ∙ exec_loop-more n k pr (exec_state v input) (subst (λ e. Ended e) (same n) h)
      ∙ sym (same n)
  | inr (e, q) ↦ rw (q, run) refl
]
