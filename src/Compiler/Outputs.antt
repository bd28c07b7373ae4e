-- ===== src/Compiler/Outputs.antt =====
-- From the source text to the output of the program (u6ac.c and runtime.c together).
use u6a.Base.{
  ℕ, ◌≤◌, ◌≡◌, true, false, Bool, some, List, [], ◌++◌, ◌⊎◌, inl, inr, arith, sym, ap, ◌∙◌, length,
}
use u6a.Defs.{Token, Memory}
use u6a.Lexer.{max_len}
use u6a.Lexer.Grammar.{Symbol, tokens_of, Source}
use u6a.Parser.Term.{Term, IsWellFormed, flatten}
use u6a.VmPool.{Held}
use u6a.Loader.{RuntimeOptions, Machine, running, runtime_init}
use u6a.Loader.RoundTrip.{NoMagic}
use u6a.Semantics.{Value, World, Evals}
use u6a.Runtime.Correct.{start, Returns, Affords, run-Evals}
use u6a.Runtime.Loading.{execution, loaded_program}
use u6a.Compiler.{ArgOptions, finished, compile}
use u6a.Codegen.Compile.{constants}
use u6a.Compiler.Outcomes.{program, prefix_bytes}
use u6a.Compiler.Runs.{length-tokens_of, code-fits, compile-runtime_init}
use u6a.Compiler.Printable.{Source-AllText, flatten-IsPrintable}
use u6a.Runtime.Legible.{IsPrintable, IsLegible}

-- If a term has a value by the rules of `Semantics`, a source text of it, with at most 4194304
-- symbols, is compiled to a file that the interpreter loads, behind a prefix with no magic byte and
-- before any other bytes. Its execution ends with a function that shows the value and with the
-- output that the rules give for the input, in some number of rounds and in every larger one. No
-- constant string is to be made of the program, or the host is to store the most significant byte of
-- an integer first. Memory, writes and segments are to be granted, a segment is to have room for five
-- elements, and the pool is to have as many as `cells` says; if that is more than none, `grows` is to
-- be less than 2^32 - 1. Three rounds are to be allowed for the release of an element.
pub compile-run :
    (m loader : Memory) (accepts : ℕ → Bool) (options : ArgOptions) (little : Bool)
    (unwritten : List ℕ) (opts : RuntimeOptions) (source rest input : List ℕ) (ys : List Symbol)
    (t : Term) (grants : ℕ → Bool) (fuel : ℕ) (held : ℕ → Held) (refs : ℕ → ℕ) (y : Value)
    (w : World) (ev : Evals t (start input) y w)
    → ((size : ℕ) → m.grants size ≡ true)
    → ((size : ℕ) → loader.grants size ≡ true)
    → ((i : ℕ) → accepts i ≡ true)
    → options.syntax_only ≡ false
    → NoMagic (prefix_bytes options.output_file_prefix)
    → Source source ys
    → length ys ≤ max_len
    → IsWellFormed t
    → tokens_of m 0 ys ≡ flatten t
    → ((a : ℕ) → grants a ≡ true)
    → 5 ≤ opts.stack_segment_size
    → 3 ≤ fuel
    → Affords opts ev
    → (constants options.optimize_const [] (program t) ≡ []) ⊎ (little ≡ false)
    → (bytes : List ℕ) × (machine : Machine) × (compile m accepts options source
        ≡ finished (some bytes))
      × (runtime_init loader little unwritten opts (bytes ++ rest) ≡ running machine)
      × Returns (execution little grants fuel machine) held refs input y w.output
compile-run m loader accepts options little unwritten opts source rest input ys t grants fuel held
      refs y w ev g lg a h n s few wf same stack room enough affords readable =
    let o : Bool = options.optimize_const in
    let printable : IsPrintable t = flatten-IsPrintable t (rw same at (Source-AllText m 0 s)) in
    let count : length (flatten t) ≡ length ys =
      ap (λ (l : List Token). length l) (sym same) ∙ length-tokens_of m 0 ys in
    let (_, small) = code-fits o t wf in
    let legible : IsLegible o little t = elim readable [
      | inl none_made ↦ inl none_made
      | inr big ↦ inr (big, printable, omega (arith, small, count, few))
    ] in
    let (bytes, compiles, loads) =
      compile-runtime_init m loader accepts options little unwritten opts source rest ys t g lg a h
        n s few wf same in
    (
      bytes,
      loaded_program options.optimize_const little opts t rest,
      compiles,
      loads,
      run-Evals options.optimize_const little opts grants fuel held refs t rest input y w ev stack
          room enough affords legible,
    )
