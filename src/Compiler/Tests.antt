-- ===== src/Compiler/Tests.antt =====
-- The compiler on a small text, and its theorems at it.
use u6a.Base.{ℕ, ◌≡◌, refl, true, false, Bool, none, some, List, [], ◌∷◌, ◌++◌, ◌⊎◌, inl, arith}
use u6a.Defs.{token, Memory}
use u6a.Defs.TokenFn
use u6a.Lexer.Grammar.{Symbol, simple, char, Source, word, space, comment, end, letter, out}
use u6a.Parser.Term.{Term, leaf, app}
use u6a.Codegen.Compile.{code, constants}
use u6a.Loader.{RuntimeOptions, Machine, running, runtime_init}
use u6a.VmPool.{fns, empty_fn}
use u6a.Semantics.{identity, printer, World, Evals, eval_leaf, eval_app, apply_printer}
use u6a.Runtime.Correct.{Returns, start}
use u6a.Runtime.Loading.{execution}
use u6a.Compiler.Outputs.{compile-run}
use u6a.Loader.RoundTrip.{loaded}
use u6a.Compiler.{ArgOptions, finished, compile}
use u6a.Compiler.Outcomes.{Compiled, BadSyntax, BadText, program}
use u6a.Compiler.Total.{compile-decides}
use u6a.Compiler.Runs.{compile-runtime_init}

abbrev memory : Memory
memory = record { grants = λ _. true; fill = λ i. 7 }

abbrev accepts : ℕ → Bool
accepts i = true

abbrev options : ArgOptions
options = record {
  optimize_const = true;
  output_file_prefix = some (b'#' ∷ b'!' ∷ 10 ∷ []);
  syntax_only = false;
}

abbrev runtime_options : RuntimeOptions
runtime_options = record { stack_segment_size = 256; pool_size = 1024; force_exec = false }

-- "`.a#x\n i"
abbrev sample : List ℕ
sample = b'`' ∷ b'.' ∷ b'a' ∷ b'#' ∷ b'x' ∷ 10 ∷ b' ' ∷ b'i' ∷ []

abbrev symbols : List Symbol
symbols = simple TokenFn.app ∷ char TokenFn.out b'a' ∷ simple TokenFn.i ∷ []

abbrev term : Term
term = app 7 (leaf (token TokenFn.out b'a')) (leaf (token TokenFn.i 7))

sample-Source : Source sample symbols
sample-Source = word (letter (inl (refl, refl))) (
    word (out refl (inl (omega arith, omega arith))) (
      comment (b'x' ∷ []) refl (omega arith) (space (inl refl) (word (letter (ground arith)) end))))

compile-decides_example :
    Compiled memory accepts options sample
    ⊎ (BadSyntax memory accepts options sample ⊎ BadText memory accepts options sample)
compile-decides_example = compile-decides memory accepts options sample (λ size. refl) (λ i. refl)

compile-runtime_init_example :
    (bytes : List ℕ) × (compile memory accepts options sample ≡ finished (some bytes))
    × (runtime_init memory true [] runtime_options (bytes ++ b'x' ∷ [])
        ≡ running (
            loaded true runtime_options
              (code true 0 0 [] (program term))
              (constants true [] (program term))
              (b'x' ∷ [])))
compile-runtime_init_example =
    compile-runtime_init memory memory accepts options true [] runtime_options sample (b'x' ∷ [])
      symbols term (λ size. refl) (λ size. refl) (λ i. refl) refl (omega arith) sample-Source
      (omega arith) (omega arith) refl

abbrev plain_options : ArgOptions
plain_options = record { optimize_const = true; output_file_prefix = none; syntax_only = false }

-- What `.a` applied to `i` does.
abbrev printed : World
printed = record { current = none; input = b'x' ∷ []; output = b'a' ∷ [] }

abbrev term-Evals : Evals term (start (b'x' ∷ [])) identity printed
term-Evals =
    eval_app {f = printer b'a'} {x = identity} (eval_leaf (refl, refl)) (eval_leaf refl)
      apply_printer

no_constants : constants true [] (program term) ≡ []
unfolding constants
no_constants = refl

compile-run_example :
    (bytes : List ℕ) × (machine : Machine) × (compile memory accepts plain_options sample
      ≡ finished (some bytes))
    × (runtime_init memory true [] runtime_options (bytes ++ []) ≡ running machine)
    × Returns
        (execution true accepts 100 machine)
        (λ e. fns empty_fn empty_fn)
        (λ e. 0)
        (b'x' ∷ [])
        identity
        (b'a' ∷ [])
compile-run_example =
    compile-run memory memory accepts plain_options true [] runtime_options sample [] (b'x' ∷ [])
      symbols term accepts 100 (λ e. fns empty_fn empty_fn) (λ e. 0) identity printed term-Evals
      (λ size. refl) (λ size. refl) (λ i. refl) refl tt sample-Source (omega arith) (omega arith)
      refl (λ a. refl) (omega arith) (omega arith) (omega arith, inl refl) (inl no_constants)
