-- ===== src/Compiler/Outcomes.antt =====
-- The outcomes of the compiler (u6ac.c), whichever writes are refused.
use u6a.Base.{
  ℕ, suc, ◌+◌, ◌*◌, ◌<◌, ◌≤◌, ◌≡◌, ◌≢◌, refl, sym, ◌∙◌, ◌⊎◌, inl, inr, true, Bool, Option, none,
  some, List, [], ◌++◌, Result-cases, Bool-cases, length, ok, err, arith, if◌then◌else◌, false,
  ◌&&◌, ◌||◌, Result,
}
use u6a.Defs.{Token, token, Memory}
use u6a.Defs.TokenFn
use u6a.Lexer.{LexError, lex, max_len}
use u6a.Lexer.Grammar.{
  Symbol, token_of, tokens_of, Word, letter, newline, out, cmp, Source, end, space, comment,
  last_comment, word,
}
use u6a.Lexer.Sound.{lex-Source}
use u6a.Lexer.Complete.{Source-lex}
use u6a.Parser.{parse, ast_size, pstack_size}
use u6a.Parser.Term.{Term, leaf, app, IsWellFormed, flatten}
use u6a.Parser.Accepts.{tree}
use u6a.Parser.Cut.{Valid}
use u6a.Parser.Decides.{parse-decides}
use u6a.VmDefs.{VmIns}
use u6a.Codegen.Compile.{code, constants}
use u6a.Codegen.Correct.{generate-code}
use u6a.Bytecode.{CodegenError, header_bytes, text_bytes, codegen}
use u6a.Compiler.{
  ArgOptions, Exit, finished, failed, write_prefix, compile, err_lex, err_parse, err_codegen,
}

le_or_lt : (a b : ℕ) → (a ≤ b) ⊎ (b < a)
le_or_lt a b = omega arith

-- No symbol has the function 0.
Word-fn :
    {fn : ℕ} {input rest : List ℕ} {y : Symbol} (held : ℕ)
    → Word fn input y rest
    → (token_of held y).fn ≢ 0
Word-fn held (letter l) = ground arith
Word-fn held (newline h) = omega arith
Word-fn held (out h t) = omega arith
Word-fn held (cmp h t) = omega arith

Source-Valid :
    {input : List ℕ} {ys : List Symbol} (m : Memory) (i : ℕ)
    → Source input ys
    → Valid (tokens_of m i ys)
Source-Valid m i end = tt
Source-Valid m i (space h s) = Source-Valid m i s
Source-Valid m i (comment t h n s) = Source-Valid m i s
Source-Valid m i (last_comment h n) = tt
Source-Valid m i (word w s) = (Word-fn (m.fill i) w, Source-Valid m (suc i) s)

-- The whole program: the application of `e` to the term.
abbrev pub program : Term → Term
program t = app 0 (leaf (token TokenFn.e 0)) t

-- The bytes of the prefix.
abbrev pub prefix_bytes : Option (List ℕ) → List ℕ
prefix_bytes none = []
prefix_bytes (some bytes) = bytes

abbrev pub file_bytes : List VmIns → List ℕ → List ℕ
file_bytes text rodata = header_bytes (length text) (length rodata) ++ (text_bytes text ++ rodata)

-- What the output file holds for a term: nothing if only the syntax is checked.
abbrev pub output_of : ArgOptions → Term → Option (List ℕ)
output_of options t =
    let o = options.optimize_const in
    if options.syntax_only
    then none
    else some (
        prefix_bytes options.output_file_prefix
        ++ file_bytes (code o 0 0 [] (program t)) (constants o [] (program t)))

-- The input is the source text of a term.
abbrev pub Compiled : Memory → (ℕ → Bool) → ArgOptions → List ℕ → Type 0
Compiled m accepts options input =
    (ys : List Symbol) × (t : Term) × Source input ys
    × IsWellFormed t
    × (tokens_of m 0 ys ≡ flatten t)
    × (compile m accepts options input ≡ finished (output_of options t))

-- It is a source text, but of no term.
abbrev pub BadSyntax : Memory → (ℕ → Bool) → ArgOptions → List ℕ → Type 0
BadSyntax m accepts options input =
    (ys : List Symbol) × Source input ys
    × ((t : Term) → IsWellFormed t → tokens_of m 0 ys ≢ flatten t)
    × (compile m accepts options input ≡ failed err_parse)

-- It is no source text, or one with too many symbols.
abbrev pub BadText : Memory → (ℕ → Bool) → ArgOptions → List ℕ → Type 0
BadText m accepts options input =
    ((ys : List Symbol) → Source input ys → max_len < length ys)
    × (compile m accepts options input ≡ failed err_lex)

-- All writes succeed: that of the prefix, if there is one, and those of the header, the text and the
-- constants.
abbrev pub all_written : (ℕ → Bool) → Option (List ℕ) → Bool
all_written accepts prefix =
    (elim prefix [ none ↦ true | some bytes ↦ accepts 0 ])
    && (accepts 1 && (accepts 2 && accepts 3))

-- What is to be written is, or nothing is to be.
abbrev pub writes : (ℕ → Bool) → ArgOptions → Bool
writes accepts options = options.syntax_only || all_written accepts options.output_file_prefix

-- The input is the source text of a term, and a property holds of it.
abbrev pub SourceOf : Memory → List ℕ → (Term → Type 0) → Type 0
SourceOf m input P =
    (ys : List Symbol) × (t : Term) × Source input ys
    × IsWellFormed t
    × (tokens_of m 0 ys ≡ flatten t)
    × P t

-- All that is to be written is, or a write is refused.
abbrev pub Written : Memory → (ℕ → Bool) → ArgOptions → List ℕ → Type 0
Written m accepts options input = SourceOf m input (λ t.
    (writes accepts options ≡ true)
    × (compile m accepts options input ≡ finished (output_of options t)))

abbrev pub Unwritten : Memory → (ℕ → Bool) → ArgOptions → List ℕ → Type 0
Unwritten m accepts options input =
    SourceOf m input (λ t.
      (writes accepts options ≡ false) × (compile m accepts options input ≡ failed err_codegen))

module _ (m : Memory) (accepts : ℕ → Bool) (options : ArgOptions) (input : List ℕ)
    (g : (size : ℕ) → m.grants size ≡ true) where
  -- A part of the file for the term, behind a prefix.
  exit_of : List ℕ → Result CodegenError (List ℕ) → Exit
  exit_of before (ok bytes) = finished (some (before ++ bytes))
  exit_of before (err e) = failed err_codegen

  codegen-tree :
      (t : Term) (before : List ℕ)
      → IsWellFormed t
      → (let file : List ℕ =
            file_bytes
              (code options.optimize_const 0 0 [] (program t))
              (constants options.optimize_const [] (program t)) in
          exit_of before (codegen m (λ i. accepts (i + 1)) options.optimize_const (tree t)) ≡ (
            if accepts 1 && (accepts 2 && accepts 3)
            then finished (some (before ++ file))
            else failed err_codegen))
  unfolding codegen exit_of
  codegen-tree t before w =
      let made =
        generate-code options.optimize_const 0 (leaf (token TokenFn.e 0)) t
          ((omega arith, omega arith), w) in
      let texts = g (length (tree t) * 9) in
      let stacks = g (length (tree t) * 12) in
      elim (Bool-cases (accepts 1)) [
        | inr r ↦ rw (made, texts, stacks, r) refl
        | inl h ↦ elim (Bool-cases (accepts 2)) [
          | inr r ↦ rw (made, texts, stacks, h, r) refl
          | inl k ↦ elim (Bool-cases (accepts 3)) [
            | inr r ↦ rw (made, texts, stacks, h, k, r) refl
            | inl l ↦ rw (made, texts, stacks, h, k, l) refl
          ]
        ]
      ]

  pub compile-term :
      {ts : List Token} (t : Term)
      → lex m input ≡ ok ts
      → parse m ts ≡ ok (tree t)
      → IsWellFormed t
      → compile m accepts options input
        ≡ (if writes accepts options then finished (output_of options t) else failed err_codegen)
  unfolding compile write_prefix exit_of
  compile-term {ts} t e p w = elim (Bool-cases options.syntax_only) [
    | inl h ↦ rw (e, compile) (rw (p, h) refl)
    | inr h ↦ rw (e, compile) (rw (p, h) (behind options.output_file_prefix))
  ]
    where
      behind :
          (prefix : Option (List ℕ))
          → (elim (write_prefix (accepts 0) prefix) [
            | err e ↦ failed err_codegen
            | ok before ↦
                exit_of before (codegen m (λ i. accepts (i + 1)) options.optimize_const (tree t))
          ])
            ≡ (if all_written accepts prefix
                then finished (
                    some (
                      prefix_bytes prefix
                      ++ file_bytes
                          (code options.optimize_const 0 0 [] (program t))
                          (constants options.optimize_const [] (program t))))
                else failed err_codegen)
      behind none = codegen-tree t [] w
      behind (some bytes) = elim (Bool-cases (accepts 0)) [
        | inl h ↦ rw h (codegen-tree t bytes w)
        | inr h ↦ rw h refl
      ]

  -- A text that the lexer refuses has too many symbols.
  too_many :
      (e : LexError)
      → lex m input ≡ err e
      → (ys : List Symbol) → Source input ys
      → max_len < length ys
  too_many e r ys s = elim (le_or_lt (length ys) max_len) [
    | inl few ↦ cc (r, Source-lex m s few (λ size h. g size))
    | inr many ↦ many
  ]

  -- If memory is granted, one of four things holds.
  pub compile-outcome :
      Written m accepts options input
      ⊎ (Unwritten m accepts options input
          ⊎ (BadSyntax m accepts options input ⊎ BadText m accepts options input))
  unfolding compile
  compile-outcome = elim (Result-cases (lex m input)) [
    | inr (e, r) ↦ inr (inr (inr (too_many e r, rw (r, compile) refl)))
    | inl (ts, r) ↦
        let (ys, s, same, few) = lex-Source m input r in
        let valid : Valid ts = rw same (Source-Valid m 0 s) in
        elim (parse-decides m ts valid (omega arith) (g (ast_size (length ts)))
          (g (pstack_size (length ts)))) [
            | inl (t, w, f, p) ↦ elim (Bool-cases (writes accepts options)) [
              | inl h ↦ inl (ys, t, s, w, sym same ∙ f, (h, compile-term t r p w ∙ rw h refl))
              | inr h ↦ inr (inl (ys, t, s, w, sym same ∙ f, (h, compile-term t r p w ∙ rw h refl)))
            ]
            | inr (none_such, p) ↦
                inr (
                  inr (inl (ys, s, λ t w q. none_such t w (same ∙ q), rw (r, compile) (rw p refl))))
          ]
  ]
