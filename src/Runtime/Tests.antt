-- ===== src/Runtime/Tests.antt =====
-- Runs of small programs, and the theorems on runs at one.
use u6a.Runtime.Start.{vm_init, run}
use u6a.VmStack.{
  stack_init, vm_stack_create, addrefs, share_prev, vm_stack_dup, push_split, push, top, separate,
  drop_top, pop_split, pop, xch_at, xch_split, xch, save,
}
use u6a.VmHeap.{segment_at, update}
use u6a.VmPool.{
  elem_alloc, pool_alloc, pool_get2, pool_get2_separate, var_fn_addref, free_stack_push, add_hole,
  free_elems, release, free_segment, free_loop, free_stack, pool_init,
}
use u6a.Runtime.{stack_push, var_fn_free, stack_pop, stack_xch, alloc_acc, check_force}
use u6a.Runtime.Apply.{
  apply_hold, apply_s1, apply_s2, apply_k1, apply_f, apply_c, resume, apply_c1, apply_d1_c,
  apply_d1_s, apply_d1_d, c_string, apply_p, apply_to, apply_in, apply_cmp, apply_pipe,
}
use u6a.Runtime.Step.{
  runtime_execute, exec_loop, exec_state, step, ins_at, step_ins, load_operands, apply,
  apply_control, apply_input, apply_simple, delay, step_la, step_sa, step_xch, step_lc,
}
use u6a.Loader.{convert, host_word, swap_word, has_offset}
use u6a.Loader.RoundTrip.{raw}
use u6a.Bytecode.{operand_word, network}
use u6a.Codegen.Compile.{code, constants}
use u6a.Base.{
  subst, sym, ℕ, ◌+◌, ◌<◌, ◌^◌, length, ◌≡◌, refl, Bool, true, false, none, List, [], ◌∷◌, inr,
  arith,
}
use u6a.Defs.{token}
use u6a.Defs.TokenFn
use u6a.VmHeap.{VarFn}
use u6a.VmPool.{Held, fns, empty_fn}
use u6a.Runtime.Values.{Shows}
use u6a.Parser.Term.{Term, leaf, app}
use u6a.Compiler.Outcomes.{program}
use u6a.Loader.{RuntimeOptions}
use u6a.Loader.RoundTrip.{loaded}
use u6a.Semantics.{
  Value, constant, constant_of, distribute, identity, printer, World, emit, Evals, eval_leaf,
  eval_app, apply_constant, apply_constant_of, apply_distribute, apply_distribute_of,
  apply_distribute_both, apply_identity, apply_printer,
}
use u6a.Runtime.Step.{Ending, value, runtime_error}
use u6a.Runtime.Legible.{IsPrintable}
use u6a.Runtime.Correct.{Returns, run-Evals, start}
use u6a.Runtime.Agrees.{optimised-plain, run-only}
use u6a.Runtime.Rounds.{Ended}
use u6a.Runtime.Loading.{execution, loaded_program}

abbrev options : RuntimeOptions
options = record { stack_segment_size = 64; pool_size = 16; force_exec = false }

abbrev unwritten : ℕ → Held
unwritten e = fns empty_fn empty_fn

abbrev granted : ℕ → Bool
granted a = true

abbrev ends : (optimize : Bool) → Term → List ℕ → Ending
ends o t input =
    run 100
      (execution false granted 100
        (loaded false options (code o 0 0 [] (program t)) (constants o [] (program t)) input))
      unwritten (λ e. 0) input

abbrev fun : ℕ → Term
fun f = leaf (token f 0)

abbrev print : ℕ → Term
print c = leaf (token TokenFn.out c)

abbrev app_of : Term → Term → Term
app_of = app 0

abbrev output_of : Ending → List ℕ
output_of (value x output) = output
output_of (runtime_error e output) = output

-- The outputs of "```s.a.bi", "``c.ai", "``d`.xi`.yi", "```@i`|ii" before "q", and "```k.a`.bic", and of
-- "``.d`.c`.b`.ai`.zi" with its characters in a string.
runs :
    (output_of (
        ends false
          (app_of (app_of (app_of (fun TokenFn.s) (print b'a')) (print b'b')) (fun TokenFn.i))
          [])
      ≡ b'a' ∷ b'b' ∷ [])
    × (output_of (ends false (app_of (app_of (fun TokenFn.c) (print b'a')) (fun TokenFn.i)) [])
        ≡ b'a' ∷ [])
    × (output_of (
          ends false
            (app_of
              (app_of (fun TokenFn.d) (app_of (print b'x') (fun TokenFn.i)))
              (app_of (print b'y') (fun TokenFn.i)))
            [])
        ≡ b'y' ∷ b'x' ∷ [])
    × (output_of (
          ends false
            (app_of
              (app_of
                (app_of (fun TokenFn.at) (fun TokenFn.i))
                (app_of (fun TokenFn.pipe) (fun TokenFn.i)))
              (fun TokenFn.i))
            (b'q' ∷ []))
        ≡ b'q' ∷ [])
    × (output_of (
          ends false
            (app_of
              (app_of (app_of (fun TokenFn.k) (print b'a')) (app_of (print b'b') (fun TokenFn.i)))
              (fun TokenFn.c))
            [])
        ≡ b'b' ∷ b'a' ∷ [])
    × (output_of (
          ends true
            (app_of
              (app_of
                (print b'd')
                (app_of (print b'c') (app_of (print b'b') (app_of (print b'a') (fun TokenFn.i)))))
              (app_of (print b'z') (fun TokenFn.i)))
            [])
        ≡ b'a' ∷ b'b' ∷ b'c' ∷ b'd' ∷ b'z' ∷ [])
unfolding vm_init run stack_init vm_stack_create addrefs share_prev vm_stack_dup push_split push top
    separate drop_top pop_split pop xch_at xch_split xch save segment_at update elem_alloc
    pool_alloc pool_get2 pool_get2_separate var_fn_addref free_stack_push add_hole free_elems
    release free_segment free_loop free_stack pool_init stack_push var_fn_free stack_pop stack_xch
    alloc_acc check_force apply_hold apply_s1 apply_s2 apply_k1 apply_f apply_c resume apply_c1
    apply_d1_c apply_d1_s apply_d1_d c_string apply_p apply_to apply_in apply_cmp apply_pipe
    runtime_execute exec_loop exec_state step ins_at step_ins load_operands apply apply_control
    apply_input apply_simple delay step_la step_sa step_xch step_lc convert host_word swap_word
    has_offset raw operand_word network code constants
runs = (refl, refl, refl, refl, refl, refl)

-- "`.d`.c`.b`.ai", whose characters are put in a string.
abbrev word : Term
word =
    app_of (print b'd')
      (app_of (print b'c') (app_of (print b'b') (app_of (print b'a') (fun TokenFn.i))))

-- "```s`k.x`k.yi"
abbrev held_printers : Term
held_printers =
    app_of
      (app_of (app_of (fun TokenFn.s) (app_of (fun TokenFn.k) (print b'x')))
        (app_of (fun TokenFn.k) (print b'y')))
      (fun TokenFn.i)

abbrev sample : Term
sample = app_of word held_printers

abbrev behind_word : World
behind_word = record { current = none; input = []; output = b'a' ∷ b'b' ∷ b'c' ∷ b'd' ∷ [] }

abbrev print-Evals :
    (c : ℕ) {t : Term} {v : Value} {w w' : World}
    → Evals t w v w'
    → Evals (app_of (print c) t) w v (emit (c ∷ []) w')
print-Evals c {t} {v} ev =
    eval_app {f = printer c} {x = v} (eval_leaf (refl, refl)) ev apply_printer

abbrev word-Evals : Evals word (start []) identity behind_word
word-Evals =
    print-Evals b'd' (print-Evals b'c' (print-Evals b'b' (print-Evals b'a' (eval_leaf refl))))

abbrev held-Evals :
    (c : ℕ) (w : World) → Evals (app_of (fun TokenFn.k) (print c)) w (constant_of (printer c)) w
held-Evals c w =
    eval_app {f = constant} {x = printer c} (eval_leaf refl) (eval_leaf (refl, refl)) apply_constant

abbrev sample-Evals : Evals sample (start []) (printer b'y') (emit (b'x' ∷ []) behind_word)
sample-Evals =
    eval_app word-Evals
      (eval_app
        (eval_app
          (eval_app {f = distribute} (eval_leaf refl) (held-Evals b'x' behind_word)
            apply_distribute)
          (held-Evals b'y' behind_word) apply_distribute_of)
        (eval_leaf {v = identity} refl)
        (apply_distribute_both apply_constant_of apply_constant_of apply_printer))
      apply_identity

sample-IsPrintable : IsPrintable sample
sample-IsPrintable = (
  (
    (λ e h. omega (arith, h)),
    (
      (λ e h. omega (arith, h)),
      ((λ e h. omega (arith, h)), ((λ e h. omega (arith, h)), (λ e h. omega (arith, e)))),
    ),
  ),
  (
    (
      ((λ e h. omega (arith, e)), ((λ e h. omega (arith, e)), (λ e h. omega (arith, h)))),
      ((λ e h. omega (arith, e)), (λ e h. omega (arith, h))),
    ),
    (λ e h. omega (arith, e)),
  ),
)

few_constants : length (constants true [] (program sample)) < 2 ^ 32
unfolding constants
few_constants = omega arith

run-Evals_example :
    Returns
      (execution false granted 100 (loaded_program true false options sample []))
      unwritten
      (λ e. 0)
      []
      (printer b'y')
      (b'a' ∷ b'b' ∷ b'c' ∷ b'd' ∷ b'x' ∷ [])
run-Evals_example =
    run-Evals true false options granted 100 unwritten (λ e. 0) sample [] [] (printer b'y')
      (emit (b'x' ∷ []) behind_word) sample-Evals (λ a. refl) (omega arith) (omega arith)
      (omega arith, inr (omega arith)) (inr (refl, sample-IsPrintable, few_constants))

optimised-plain_example :
    (x x' : VarFn) × Shows x (printer b'y')
    × Shows x' (printer b'y')
    × (n : ℕ) × ((k : ℕ)
        → (run
              (n + k)
              (execution false granted 100 (loaded_program true false options sample []))
              unwritten
              (λ e. 0)
              []
            ≡ value x (b'a' ∷ b'b' ∷ b'c' ∷ b'd' ∷ b'x' ∷ []))
          × (run
                (n + k)
                (execution false granted 100 (loaded_program false false options sample []))
                unwritten
                (λ e. 0)
                []
              ≡ value x' (b'a' ∷ b'b' ∷ b'c' ∷ b'd' ∷ b'x' ∷ [])))
optimised-plain_example =
    optimised-plain options granted 100 unwritten (λ e. 0) sample [] [] (printer b'y')
      (emit (b'x' ∷ []) behind_word) sample-Evals (λ a. refl) (omega arith) (omega arith)
      (omega arith, inr (omega arith)) sample-IsPrintable few_constants

abbrev sample_returns :
    Returns
      (execution false granted 100 (loaded_program true false options sample []))
      unwritten
      (λ e. 0)
      []
      (printer b'y')
      (b'a' ∷ b'b' ∷ b'c' ∷ b'd' ∷ b'x' ∷ [])
sample_returns =
    run-Evals true false options granted 100 unwritten (λ e. 0) sample [] [] (printer b'y')
      (emit (b'x' ∷ []) behind_word) sample-Evals (λ a. refl) (omega arith) (omega arith)
      (omega arith, inr (omega arith)) (inr (refl, sample-IsPrintable, few_constants))

run-only_example :
    (x : VarFn) × Shows x (printer b'y')
    × (run
          (sample_returns.2 + 0)
          (execution false granted 100 (loaded_program true false options sample []))
          unwritten
          (λ e. 0)
          []
        ≡ value x (b'a' ∷ b'b' ∷ b'c' ∷ b'd' ∷ b'x' ∷ []))
run-only_example =
    run-only true false options granted 100 (sample_returns.2 + 0) unwritten (λ e. 0) sample [] []
      (printer b'y') (emit (b'x' ∷ []) behind_word) sample-Evals (λ a. refl) (omega arith)
      (omega arith) (omega arith, inr (omega arith)) (inr (refl, sample-IsPrintable, few_constants))
      (subst (λ e. Ended e) (sym (sample_returns.3 0)) tt)
