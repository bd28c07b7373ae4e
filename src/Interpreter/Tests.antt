-- ===== src/Interpreter/Tests.antt =====
-- The interpreter with a small program, and its theorems at it.
use u6a.Base.{◌*◌, ℕ, ◌≡◌, refl, Bool, true, false, none, some, List, [], ◌∷◌, ◌++◌, inl, arith}
use u6a.Defs.{token, Memory}
use u6a.Defs.TokenFn
use u6a.Lexer.Grammar.{Symbol, simple, char, Source, word, end, letter, out}
use u6a.Parser.Term.{Term, leaf, app}
use u6a.VmPool.{fns, empty_fn}
use u6a.Codegen.Compile.{code, constants}
use u6a.Compiler.{ArgOptions, finished, compile}
use u6a.Compiler.Outcomes.{program}
use u6a.Compiler.Runs.{compile-runtime_init}
use u6a.Loader.{RuntimeOptions, running, runtime_init}
use u6a.Loader.RoundTrip.{loaded}
use u6a.Semantics.{identity, printer, World, Evals, eval_leaf, eval_app, apply_printer}
use u6a.Runtime.Correct.{start}
use u6a.Interpreter.{
  Arguments, Surroundings, InterpreterOptions, Host, accepted, opened, process_options,
  parse_options, parse_uint_opt, open_input,
}
use u6a.Interpreter.Bounds.{InRange, process_options-InRange}
use u6a.Interpreter.Runs.{Succeeds, interpret-compile}

abbrev memory : Memory
memory = record { grants = λ _. true; fill = λ i. 7 }

abbrev granted : ℕ → Bool
granted i = true

abbrev compiler_options : ArgOptions
compiler_options = record { optimize_const = true; output_file_prefix = none; syntax_only = false }

-- "`.ai"
abbrev sample : List ℕ
sample = b'`' ∷ b'.' ∷ b'a' ∷ b'i' ∷ []

abbrev symbols : List Symbol
symbols = simple TokenFn.app ∷ char TokenFn.out b'a' ∷ simple TokenFn.i ∷ []

abbrev term : Term
term = app 7 (leaf (token TokenFn.out b'a')) (leaf (token TokenFn.i 7))

sample-Source : Source sample symbols
sample-Source =
    word (letter (inl (refl, refl)))
      (word (out refl (inl (omega arith, omega arith))) (word (letter (ground arith)) end))

abbrev sizes : RuntimeOptions
sizes = record { stack_segment_size = 100; pool_size = 1024 * 1024; force_exec = false }

sample_compiled :
    (bytes : List ℕ) × (compile memory granted compiler_options sample ≡ finished (some bytes))
    × (runtime_init memory true [] sizes (bytes ++ [])
        ≡ running (
            loaded true sizes
              (code true 0 0 [] (program term))
              (constants true [] (program term))
              []))
sample_compiled =
    compile-runtime_init memory memory granted compiler_options true [] sizes sample [] symbols term
      (λ size. refl) (λ size. refl) (λ i. refl) refl tt sample-Source (omega arith) (omega arith)
      refl

-- `u6a -s 100 a`
abbrev arguments : Arguments
arguments = record { options = (b's', b'1' ∷ b'0' ∷ b'0' ∷ []) ∷ []; operand = some (b'a' ∷ []) }

abbrev surroundings : Surroundings
surroundings = record {
  strtoul = λ digits. some 100;
  fopen = λ file_name. some (sample_compiled.0 ++ []);
  stdin = b'x' ∷ [];
}

abbrev accepted_options : InterpreterOptions
accepted_options = record {
  runtime = sizes;
  istream = opened (sample_compiled.0 ++ []);
  print_info = false;
  print_only = false;
}

sample_options : process_options surroundings arguments ≡ accepted accepted_options
unfolding process_options parse_options parse_uint_opt open_input
sample_options = refl

process_options-InRange_example : InRange accepted_options
process_options-InRange_example =
    process_options-InRange surroundings arguments accepted_options sample_options

abbrev host : Host
host = record {
  memory = memory;
  little = true;
  unwritten = [];
  grants = granted;
  held = λ e. fns empty_fn empty_fn;
  refs = λ e. 0;
  fuel = 100;
  rounds = 0;
}

abbrev behind : World
behind = record { current = none; input = b'x' ∷ []; output = b'a' ∷ [] }

abbrev term-Evals : Evals term (start (b'x' ∷ [])) identity behind
term-Evals =
    eval_app {f = printer b'a'} {x = identity} (eval_leaf (refl, refl)) (eval_leaf refl)
      apply_printer

no_constants : constants true [] (program term) ≡ []
unfolding constants
no_constants = refl

interpret-compile_example : Succeeds host surroundings arguments (b'a' ∷ [])
interpret-compile_example =
    interpret-compile host surroundings arguments accepted_options memory granted compiler_options
      sample sample_compiled.0 [] symbols term identity behind term-Evals (λ size. refl) (λ i. refl)
      refl tt sample-Source (omega arith) (omega arith) refl (inl no_constants) sample_compiled.1
      (λ size. refl) (λ a. refl) sample_options refl refl refl (omega arith) (omega arith, inl refl)
