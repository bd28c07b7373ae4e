-- ===== src/Driver/Outcome.antt =====
-- u6ac.c: what `main` comes to, by the stages and by the options.
use u6a.Base.{
  ℕ, ◌+◌, ◌<◌, ◌≡◌, ◌≢◌, refl, ◌∙◌, ap, Bool, true, false, none, some, Option, List, ◌++◌, length,
  ◌==◌, if◌then◌else◌, ok, err, Result-cases, inl, inr, ◌⊎◌,
}
use u6a.Defs.{Memory, AstNode}
use u6a.Lexer.{lex}
use u6a.Parser.{parse}
use u6a.Bytecode.{codegen}
use u6a.Compiler.{ArgOptions, Exit, finished, failed, compile, err_codegen, write_prefix}
use u6a.Driver.{
  Arguments, Files, OutputStream, no_stream, to_stdout, to_file, Options, accepted, process_options,
}
use u6a.Compiler.{err_lex, err_parse}
use u6a.Compiler.Outcomes.{output_of, writes, SourceOf, compile-outcome}
use u6a.Lexer.{max_len}
use u6a.Lexer.Grammar.{Symbol, tokens_of, Source}
use u6a.Parser.Term.{Term, IsWellFormed, flatten}
use u6a.Driver.Opened.{process_options-Fine}
use u6a.Driver.Main.{
  DriverExit, exits, exit_by, removed_file, content_of, write_output, translate, main,
}

abbrev writes_nothing : OutputStream → Bool
writes_nothing no_stream = true
writes_nothing to_stdout = false
writes_nothing to_file = false

-- The options of the stages.
abbrev pub stages : Options → ArgOptions
stages o = record {
  optimize_const = o.optimize_const;
  output_file_prefix = o.output_file_prefix;
  syntax_only = writes_nothing o.output_stream;
}

-- The exit with what the stages come to: with an exit code that is not 0, the file that has been
-- opened is removed, if there is one.
abbrev pub opened_file : Options → Option (List ℕ)
opened_file o = elim o.output_stream [ to_file ↦ o.file_name | to_stdout ↦ none | no_stream ↦ none ]

abbrev exit_removing : Option (List ℕ) → Options → Exit → DriverExit
exit_removing r o e =
    exits e.exit_code o.output_stream e.output (if e.exit_code == 0 then none else r)

abbrev pub exit_with : Options → Exit → DriverExit
exit_with o e = exit_removing (opened_file o) o e

stream-cases : (s : OutputStream) → (s ≡ no_stream) ⊎ (writes_nothing s ≡ false)
stream-cases no_stream = inl refl
stream-cases to_stdout = inr refl
stream-cases to_file = inr refl

-- Which of the two streams it is makes no difference.
written_to :
    (s : OutputStream) (x y : DriverExit)
    → writes_nothing s ≡ false
    → elim s [ no_stream ↦ x | _ ↦ y ] ≡ y
written_to no_stream x y h = cc
written_to to_stdout x y h = refl
written_to to_file x y h = refl

-- The exit by what is written.
write-compile :
    (m : Memory) (accepts : ℕ → Bool) (o : Options) (ast : List AstNode)
    → o.dump_mnemonics ≡ false
    → exit_by o (write_output m accepts o ast)
      ≡ exit_removing (removed_file o) o (elim (write_prefix (accepts 0) o.output_file_prefix) [
        | err e ↦ failed err_codegen
        | ok before ↦ elim (codegen m (λ i. accepts (i + 1)) o.optimize_const ast) [
          | err e ↦ failed err_codegen
          | ok bytes ↦ finished (some (before ++ bytes))
        ]
      ])
unfolding write_output
write-compile m accepts o ast no_dump =
    elim (Result-cases (write_prefix (accepts 0) o.output_file_prefix)) [
      | inr (e, p) ↦ rw (p, no_dump, write_output) refl
      | inl (before, p) ↦
          elim (Result-cases (codegen m (λ i. accepts (i + 1)) o.optimize_const ast)) [
            | inr (e, c) ↦ rw (p, no_dump, write_output) (rw c refl)
            | inl (written, c) ↦ rw (p, no_dump, write_output) (rw c refl)
          ]
    ]

translate-compile :
    (m : Memory) (accepts : ℕ → Bool) (o : Options) (input : List ℕ)
    → o.dump_mnemonics ≡ false
    → translate m accepts o input
      ≡ exit_removing (removed_file o) o (compile m accepts (stages o) input)
unfolding translate compile
translate-compile m accepts o input no_dump = elim (Result-cases (lex m input)) [
  | inr (e, l) ↦ rw (l, translate, compile) refl
  | inl (tokens, l) ↦ elim (Result-cases (parse m tokens)) [
    | inr (e, p) ↦ rw (l, translate, compile) (rw p refl)
    | inl (ast, p) ↦ elim (stream-cases o.output_stream) [
      | inl none_open ↦ rw (l, translate, compile) (rw (p, none_open) refl)
      | inr open_stream ↦
          rw (l, translate, compile)
            (rw p (
              written_to o.output_stream (exits 0 no_stream none none)
                (exit_by o (write_output m accepts o ast)) open_stream
              ∙ (write-compile m accepts o ast no_dump ∙ rw open_stream refl)))
    ]
  ]
]

-- What is removed is what has been opened.
removed-opened :
    (o : Options)
    → (o.output_stream ≡ no_stream → o.file_name ≡ none)
    → removed_file o ≡ opened_file o
removed-opened o h = by_stream o.output_stream h
  where
    by_stream :
        (s : OutputStream)
        → (s ≡ no_stream → o.file_name ≡ none)
        → (elim s [ to_stdout ↦ none | _ ↦ o.file_name ])
          ≡ (elim s [ to_file ↦ o.file_name | to_stdout ↦ none | no_stream ↦ none ])
    by_stream no_stream k = k refl
    by_stream to_stdout k = refl
    by_stream to_file k = refl

-- If the options are accepted, and ask for a translation and not for a dump, the exit is that of the
-- stages.
pub main-compile :
    (m : Memory) (accepts : ℕ → Bool) (files : Files) (args : Arguments) (o : Options)
    → process_options files args ≡ accepted o
    → o.print_only ≡ false
    → o.dump_mnemonics ≡ false
    → main m accepts files args
      ≡ exit_with o (compile m accepts (stages o) (content_of files o.input_file))
unfolding main
main-compile m accepts files args o p pn no_dump =
    let translated : DriverExit = translate m accepts o (content_of files o.input_file) in
    let e : Exit = compile m accepts (stages o) (content_of files o.input_file) in
    rw (p, main) (ap (λ b. if b then exits 0 o.output_stream none none else translated) pn)
    ∙ (translate-compile m accepts o (content_of files o.input_file) no_dump
        ∙ ap (λ r. exit_removing r o e)
            (removed-opened o (process_options-Fine files args o p pn).1))

-- The text of the input file.
abbrev pub text_of : Files → Options → List ℕ
text_of files o = content_of files o.input_file

-- The input is the source text of a term, and all that is to be written is written.
abbrev pub MainWritten : Memory → (ℕ → Bool) → Files → Arguments → Options → Type 0
MainWritten m accepts files args o = SourceOf m (text_of files o) (λ t.
    (writes accepts (stages o) ≡ true)
    × (main m accepts files args ≡ exits 0 o.output_stream (output_of (stages o) t) none))

-- It is one, but a write is refused.
abbrev pub MainUnwritten : Memory → (ℕ → Bool) → Files → Arguments → Options → Type 0
MainUnwritten m accepts files args o = SourceOf m (text_of files o) (λ t.
    (writes accepts (stages o) ≡ false)
    × (main m accepts files args ≡ exits err_codegen o.output_stream none (opened_file o)))

-- It is a source text, but of no term.
abbrev pub MainBadSyntax : Memory → (ℕ → Bool) → Files → Arguments → Options → Type 0
MainBadSyntax m accepts files args o =
    (ys : List Symbol) × Source (text_of files o) ys
    × ((t : Term) → IsWellFormed t → tokens_of m 0 ys ≢ flatten t)
    × (main m accepts files args ≡ exits err_parse o.output_stream none (opened_file o))

-- It is no source text, or one with too many symbols.
abbrev pub MainBadText : Memory → (ℕ → Bool) → Files → Arguments → Options → Type 0
MainBadText m accepts files args o =
    ((ys : List Symbol) → Source (text_of files o) ys → max_len < length ys)
    × (main m accepts files args ≡ exits err_lex o.output_stream none (opened_file o))

-- If memory is granted, and the options are accepted and ask for a translation and not for a dump, one
-- of four things holds. The input is the source text of a term, and either all writes succeed that are
-- to be done, the exit code is 0, the prefix and the bytes of the program are written to the output
-- stream, and nothing is removed; or one is refused, and the exit code is that of the code generator.
-- Or the input is a source text, but of no term, and the exit code is that of the parser. Or it is no
-- source text of at most 4194304 symbols, and the exit code is that of the lexer. In the last three
-- cases the file that has been opened for the output, if there is one, is removed. If only the syntax
-- is checked, nothing is to be written, and nothing is removed.
pub main-decides :
    (m : Memory) (accepts : ℕ → Bool) (files : Files) (args : Arguments) (o : Options)
    → ((size : ℕ) → m.grants size ≡ true)
    → process_options files args ≡ accepted o
    → o.print_only ≡ false
    → o.dump_mnemonics ≡ false
    → MainWritten m accepts files args o
      ⊎ (MainUnwritten m accepts files args o
          ⊎ (MainBadSyntax m accepts files args o ⊎ MainBadText m accepts files args o))
main-decides m accepts files args o g p pn no_dump =
    let main_is = main-compile m accepts files args o p pn no_dump in
    elim (compile-outcome m accepts (stages o) (text_of files o) g) [
      | inl (ys, t, s, w, same, (h, e)) ↦ inl (ys, t, s, w, same, (h, main_is ∙ ap (exit_with o) e))
      | inr (inl (ys, t, s, w, same, (h, e))) ↦
          inr (inl (ys, t, s, w, same, (h, main_is ∙ ap (exit_with o) e)))
      | inr (inr (inl (ys, s, none_such, e))) ↦
          inr (inr (inl (ys, s, none_such, main_is ∙ ap (exit_with o) e)))
      | inr (inr (inr (none_such, e))) ↦ inr (inr (inr (none_such, main_is ∙ ap (exit_with o) e)))
    ]
