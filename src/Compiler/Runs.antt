-- ===== src/Compiler/Runs.antt =====
-- The file of the compiler, and the loader of the interpreter (u6ac.c and runtime.c together).
use u6a.Base.{
  ℕ, suc, ◌+◌, ◌≤◌, ◌≡◌, refl, sym, ap, ◌∙◌, true, false, Bool, some, List, [], ◌∷◌, ◌++◌,
  append_assoc, length, ok, arith,
}
use u6a.Defs.{Token, token, Memory}
use u6a.Defs.TokenFn
use u6a.VmDefs.{VmIns}
use u6a.Lexer.{lex, max_len}
use u6a.Lexer.Grammar.{Symbol, tokens_of, Source}
use u6a.Lexer.Complete.{Source-lex}
use u6a.Parser.{parse, ast_size, pstack_size}
use u6a.Parser.Term.{Term, leaf, IsWellFormed, flatten, length-body, length-args}
use u6a.Parser.Accepts.{tree, parse-flatten}
use u6a.Codegen.Compile.{code, constants}
use u6a.Codegen.Correct.{generate-code}
use u6a.Codegen.Bounds.{generate-fits}
use u6a.Bytecode.{header_bytes, text_bytes}
use u6a.Loader.{RuntimeOptions, running, runtime_init}
use u6a.Loader.RoundTrip.{NoMagic, loaded, runtime_init-bytes}
use u6a.Compiler.{ArgOptions, finished, compile}
use u6a.Compiler.Outcomes.{program, prefix_bytes, file_bytes}
use u6a.Compiler.Total.{compiled}

pub length-tokens_of :
    (m : Memory) (i : ℕ) (ys : List Symbol) → length (tokens_of m i ys) ≡ length ys
length-tokens_of m i [] = refl
length-tokens_of m i (y ∷ ys) = ap suc (length-tokens_of m (suc i) ys)

-- The code and the constants of a program are no longer than its nodes.
pub code-fits :
    (o : Bool) (t : Term)
    → IsWellFormed t
    → (length (code o 0 0 [] (program t)) ≤ length (flatten t) + 2)
      × (length (constants o [] (program t)) ≤ length (flatten t) + 2)
code-fits o t w =
    let e : Term = leaf (token TokenFn.e 0) in
    let wf : IsWellFormed (program t) = ((omega arith, omega arith), w) in
    let (few, small, empty) = rw (generate-code o 0 e t wf) at (generate-fits o 0 e t wf) in
    (
      omega (arith, few, length-body 0 (program t), length-args t),
      omega (arith, small, length-body 0 (program t), length-args t),
    )

-- A source text of a term, with at most 4194304 symbols, is compiled to a file that the interpreter
-- loads, behind a prefix with no magic byte and before any input: the text and the constants are
-- those of the program. Memory and writes are to be granted.
pub compile-runtime_init :
    (m loader : Memory) (accepts : ℕ → Bool) (options : ArgOptions) (little : Bool) (held : List ℕ)
    (opts : RuntimeOptions) (input rest : List ℕ) (ys : List Symbol) (t : Term)
    → ((size : ℕ) → m.grants size ≡ true)
    → ((size : ℕ) → loader.grants size ≡ true)
    → ((i : ℕ) → accepts i ≡ true)
    → options.syntax_only ≡ false
    → NoMagic (prefix_bytes options.output_file_prefix)
    → Source input ys
    → length ys ≤ max_len
    → IsWellFormed t
    → tokens_of m 0 ys ≡ flatten t
    → (bytes : List ℕ) × (compile m accepts options input ≡ finished (some bytes))
      × (runtime_init loader little held opts (bytes ++ rest)
          ≡ running (
              loaded little opts
                (code options.optimize_const 0 0 [] (program t))
                (constants options.optimize_const [] (program t))
                rest))
compile-runtime_init m loader accepts options little held opts input rest ys t g lg a h n s few w
      same =
    let o : Bool = options.optimize_const in
    let text : List VmIns = code o 0 0 [] (program t) in
    let rodata : List ℕ = constants o [] (program t) in
    let before : List ℕ = prefix_bytes options.output_file_prefix in
    let count : length (flatten t) ≡ length ys =
      ap (λ (l : List Token). length l) (sym same) ∙ length-tokens_of m 0 ys in
    let (small_text, small_rodata) = code-fits o t w in
    let lexed : lex m input ≡ ok (flatten t) = Source-lex m s few (λ size k. g size) ∙ ap ok same in
    let parsed : parse m (flatten t) ≡ ok (tree t) =
      parse-flatten m t w (omega (arith, count, few)) (g (ast_size (length (flatten t))))
        (g (pstack_size (length (flatten t)))) in
    let reordered : (before ++ file_bytes text rodata) ++ rest
        ≡ before
          ++ (header_bytes (length text) (length rodata) ++ (text_bytes text ++ (rodata ++ rest))) =
      simp append_assoc in
    (
      before ++ file_bytes text rodata,
      compiled m accepts options input g a t lexed parsed w ∙ rw h refl,
      rw reordered (
          runtime_init-bytes loader little held opts before text rodata rest lg n
            (omega (arith, count, few, small_text)) (omega (arith, count, few, small_rodata))),
    )
