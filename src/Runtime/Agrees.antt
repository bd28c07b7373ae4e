-- ===== src/Runtime/Agrees.antt =====
-- runtime.c: how the runs of one program compare.
use u6a.Base.{
  sym, ℕ, ◌+◌, ◌≤◌, ◌<◌, ◌^◌, ◌≡◌, refl, ◌∙◌, ap, Bool, true, false, List, [], arith, length, inl,
  inr,
}
use u6a.VmHeap.{VarFn}
use u6a.VmPool.{Held}
use u6a.Loader.{RuntimeOptions}
use u6a.Parser.Term.{Term}
use u6a.Codegen.Compile.{constants}
use u6a.Codegen.Bounds.{constants-plain}
use u6a.Runtime.Legible.{IsPrintable, IsLegible}
use u6a.Compiler.Outcomes.{program}
use u6a.Semantics.{Value, World, Evals}
use u6a.Runtime.{Program}
use u6a.Runtime.Values.{Shows}
use u6a.Runtime.Step.{value}
use u6a.Runtime.Start.{run}
use u6a.Runtime.Loading.{execution, loaded_program}
use u6a.Runtime.Correct.{start, Affords, run-Evals}
use u6a.Runtime.Rounds.{Ended, run-more}

-- If a term has a value by the rules of `Semantics`, its program runs to the end in some number of
-- rounds and in every larger one, optimised and not, with the same output, which that of the rules
-- is, and with functions that show the same value. The host is to store the most significant byte of
-- an integer first, nothing that `.` prints is to be 0, and the constants are to be fewer than 2^32.
-- Segments, their size, elements of the pool and rounds for their release are to be as for one run.
pub optimised-plain :
    (opts : RuntimeOptions) (grants : ℕ → Bool) (fuel : ℕ) (held : ℕ → Held) (refs : ℕ → ℕ)
    (t : Term) (rest input : List ℕ) (y : Value) (w : World) (ev : Evals t (start input) y w)
    → ((a : ℕ) → grants a ≡ true)
    → 5 ≤ opts.stack_segment_size
    → 3 ≤ fuel
    → Affords opts ev
    → IsPrintable t
    → length (constants true [] (program t)) < 2 ^ 32
    → (x x' : VarFn) × Shows x y
      × Shows x' y
      × (n : ℕ) × ((k : ℕ)
          → (run
                (n + k)
                (execution false grants fuel (loaded_program true false opts t rest))
                held
                refs
                input
              ≡ value x w.output)
            × (run
                  (n + k)
                  (execution false grants fuel (loaded_program false false opts t rest))
                  held
                  refs
                  input
                ≡ value x' w.output))
optimised-plain opts grants fuel held refs t rest input y w ev g room enough affords printable few =
    let (x, s, n, f) =
      run-Evals true false opts grants fuel held refs t rest input y w ev g room enough affords
        (inr (refl, printable, few)) in
    let (x', s', n', f') =
      run-Evals false false opts grants fuel held refs t rest input y w ev g room enough affords
        (inl (constants-plain (program t) [])) in
    let optimised : Program = execution false grants fuel (loaded_program true false opts t rest) in
    let plain : Program = execution false grants fuel (loaded_program false false opts t rest) in
    (
      x,
      x',
      s,
      s',
      n + n',
      λ k.
          let a : n + n' + k ≡ n + (n' + k) = omega arith in
          let b : n + n' + k ≡ n' + (n + k) = omega arith in
          (
            ap (λ i. run i optimised held refs input) a ∙ f (n' + k),
            ap (λ i. run i plain held refs input) b ∙ f' (n + k),
          ),
    )

-- If a term has a value by the rules of `Semantics` and its program, optimised or not, is run for a
-- number of rounds and ends, not for a lack of rounds, it ends with a function that shows the value
-- and with the output that the rules give, and in no other way. The program, the segments and the pool
-- are to be as for `run-Evals`.
pub run-only :
    (o little : Bool) (opts : RuntimeOptions) (grants : ℕ → Bool) (fuel rounds : ℕ)
    (held : ℕ → Held) (refs : ℕ → ℕ) (t : Term) (rest input : List ℕ) (y : Value) (w : World)
    (ev : Evals t (start input) y w)
    → ((a : ℕ) → grants a ≡ true)
    → 5 ≤ opts.stack_segment_size
    → 3 ≤ fuel
    → Affords opts ev
    → IsLegible o little t
    → (let pr : Program = execution little grants fuel (loaded_program o little opts t rest) in
        Ended (run rounds pr held refs input)
        → (x : VarFn) × Shows x y × (run rounds pr held refs input ≡ value x w.output))
run-only o little opts grants fuel rounds held refs t rest input y w ev g room enough affords
      legible ended =
    let pr : Program = execution little grants fuel (loaded_program o little opts t rest) in
    let (x, s, n, f) =
      run-Evals o little opts grants fuel held refs t rest input y w ev g room enough affords
        legible in
    let turned : n + rounds ≡ rounds + n = omega arith in
    (
      x,
      s,
      sym (run-more rounds n pr held refs input ended)
          ∙ (ap (λ i. run i pr held refs input) (sym turned) ∙ f rounds),
    )
