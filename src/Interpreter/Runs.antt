-- ===== src/Interpreter/Runs.antt =====
-- From the source text to the exit code of the interpreter (u6ac.c and u6a.c together).
use u6a.Base.{
  ◌⊎◌, ℕ, Bool, ◌+◌, ◌≤◌, ◌≡◌, refl, ◌∙◌, sym, ap, true, false, none, some, List, [], ◌++◌, length,
  arith,
}
use u6a.Defs.{Memory}
use u6a.Lexer.{max_len}
use u6a.Lexer.Grammar.{Symbol, tokens_of, Source}
use u6a.Parser.Term.{Term, IsWellFormed, flatten}
use u6a.Loader.{Machine, running, runtime_init}
use u6a.Runtime.Start.{run}
use u6a.Loader.RoundTrip.{NoMagic}
use u6a.Semantics.{Value, World, Evals}
use u6a.Runtime.Values.{Shows-nonzero}
use u6a.Runtime.Correct.{start, Affords}
use u6a.Compiler.{ArgOptions, Exit, finished, compile}
use u6a.Codegen.Compile.{constants}
use u6a.Compiler.Outcomes.{program, prefix_bytes}
use u6a.Compiler.Outputs.{compile-run}
use u6a.Interpreter.{
  Host, Surroundings, Arguments, InterpreterOptions, accepted, opened, process_options, exits,
  exit_of, execute, interpret, program_on,
}
use u6a.Interpreter.Bounds.{process_options-InRange}

-- With that many rounds or more, the interpreter exits with code 0 and the output.
abbrev pub Succeeds : Host → Surroundings → Arguments → List ℕ → Type 0
Succeeds host env args output =
    (n : ℕ) × ((k : ℕ) → interpret (record host { rounds = n + k }) env args ≡ exits 0 none output)

interpret-execute :
    (host : Host) (env : Surroundings) (args : Arguments) (o : InterpreterOptions)
    → process_options env args ≡ accepted o
    → o.print_only ≡ false
    → o.print_info ≡ false
    → interpret host env args ≡ execute host env o
unfolding interpret
interpret-execute host env args o po pn pi = rw (po, interpret, pn, pi) refl

execute-running :
    (host : Host) (env : Surroundings) (o : InterpreterOptions) (content : List ℕ)
    (machine : Machine)
    → o.istream ≡ opened content
    → runtime_init host.memory host.little host.unwritten o.runtime content ≡ running machine
    → execute host env o
      ≡ exit_of (run host.rounds (program_on host machine) host.held host.refs env.stdin)
unfolding execute
execute-running host env o content machine file loads = rw (file, execute, loads) (rw file refl)

-- If a term has a value by the rules of `Semantics` for what stands on the standard input, and the
-- file that is to be executed begins with what a source text of the term, with at most 4194304
-- symbols, has been compiled to, behind a prefix with no magic byte, the interpreter exits with code 0
-- and the output that the rules give, in some number of rounds and in every larger one. No constant
-- string is to be made of the program, or the host is to store the most significant byte of an integer
-- first. The options are to ask for execution; memory, writes and segments are to be granted. The
-- pool is to have as many elements as `cells` says, and if that is more than none, `grows` is to be
-- less than 2^32 - 1; three rounds are to be allowed for the release of an element.
pub interpret-compile :
    (host : Host) (env : Surroundings) (args : Arguments) (o : InterpreterOptions) (m : Memory)
    (accepts : ℕ → Bool) (options : ArgOptions) (source bytes rest : List ℕ) (ys : List Symbol)
    (t : Term) (y : Value) (w : World) (ev : Evals t (start env.stdin) y w)
    → ((size : ℕ) → m.grants size ≡ true)
    → ((i : ℕ) → accepts i ≡ true)
    → options.syntax_only ≡ false
    → NoMagic (prefix_bytes options.output_file_prefix)
    → Source source ys
    → length ys ≤ max_len
    → IsWellFormed t
    → tokens_of m 0 ys ≡ flatten t
    → (constants options.optimize_const [] (program t) ≡ []) ⊎ (host.little ≡ false)
    → compile m accepts options source ≡ finished (some bytes)
    → ((size : ℕ) → host.memory.grants size ≡ true)
    → ((a : ℕ) → host.grants a ≡ true)
    → process_options env args ≡ accepted o
    → o.print_only ≡ false
    → o.print_info ≡ false
    → o.istream ≡ opened (bytes ++ rest)
    → 3 ≤ host.fuel
    → Affords o.runtime ev
    → Succeeds host env args w.output
unfolding exit_of
interpret-compile host env args o m accepts options source bytes rest ys t y w ev g a h n s few wf
      same readable compiled hg stack po pn pi file enough affords =
    let (low, high, least, most) = process_options-InRange env args o po in
    let (bytes', machine, compiles, loads, returns) =
      compile-run m host.memory accepts options host.little host.unwritten o.runtime source rest
        env.stdin ys t host.grants host.fuel host.held host.refs y w ev g hg a h n s few wf same
        stack (omega arith) enough affords readable in
    let (x, stands, n0, ends) = returns in
    let outputs : some bytes ≡ some bytes' =
      ap (λ (e : Exit). e.output) (sym compiled ∙ compiles) in
    let bytes_same : bytes ≡ bytes' = cc in
    let content : o.istream ≡ opened (bytes' ++ rest) = rw bytes_same at file in
    (
      n0,
      λ k.
          let host' : Host = record host { rounds = n0 + k } in
          interpret-execute host' env args o po pn pi
          ∙ execute-running host' env o (bytes' ++ rest) machine content loads
          ∙ ap exit_of (ends k)
          ∙ rw (Shows-nonzero x y stands) refl,
    )
