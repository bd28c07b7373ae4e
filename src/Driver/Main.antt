-- ===== src/Driver/Main.antt =====
-- u6ac.c: `main`, with the dump of codegen.c.
use u6a.Base.{
  ℕ, ◌+◌, ◌*◌, Bool, ◌&&◌, Option, none, some, List, [], ◌++◌, length, if◌then◌else◌, Result, ok,
  err,
}
use u6a.Defs.{Memory, AstNode}
use u6a.Lexer.{lex}
use u6a.Parser.{parse}
use u6a.Codegen.{generate}
use u6a.Bytecode.{CodegenError, codegen}
use u6a.Dump.{dump_mnemonics}
use u6a.Dump.Data.{dump_data}
use u6a.Compiler.{err_lex, err_parse, err_codegen, write_prefix}
use u6a.Driver.{
  err_options, Arguments, Files, InputFile, no_input, from_stdin, from_file, OutputStream,
  no_stream, to_stdout, Options, accepted, rejected, unreachable, process_options,
}

-- What is written, an error that is reported, or a statement that is taken not to be reached.
pub data Output : Type 0 where
  bytes : List ℕ → Output
  failure : Output
  never : Output

-- `u6a_codegen` with `dump_mnemonics`. All writes of the dump succeed.
unfoldable pub codegen_dump : Memory → Bool → List AstNode → Output
codegen_dump m optimize_const ast =
    let st = generate optimize_const ast in
    if m.grants (length ast * 9) && m.grants (length ast * 12)
    then (elim (dump_mnemonics st.text) [
      | none ↦ never
      | some lines ↦ bytes (lines ++ dump_data st.rodata)
    ])
    else failure

abbrev output_of : Result CodegenError (List ℕ) → Output
output_of (ok written) = bytes written
output_of (err e) = failure

-- `u6a_write_prefix` and `u6a_codegen`. The first write is that of the prefix.
unfoldable pub write_output : Memory → (accepts : ℕ → Bool) → Options → List AstNode → Output
unfolding codegen_dump
write_output m accepts o ast =
    if o.dump_mnemonics
    then codegen_dump m o.optimize_const ast
    else elim (write_prefix (accepts 0) o.output_file_prefix) [
      | err e ↦ failure
      | ok before ↦ elim (codegen m (λ i. accepts (i + 1)) o.optimize_const ast) [
        | err e ↦ failure
        | ok written ↦ bytes (before ++ written)
      ]
    ]

-- The exit code, the stream that is written to with what is written if all is, and the name that
-- `remove` is called with.
pub data DriverExit : Type 0 where
  exits : (code : ℕ) → OutputStream → Option (List ℕ) → (removed : Option (List ℕ)) → DriverExit
  undefined : DriverExit

-- `arg_options_destroy`, as far as it deletes the output file.
abbrev pub removed_file : Options → Option (List ℕ)
removed_file o = elim o.output_stream [ to_stdout ↦ none | _ ↦ o.file_name ]

abbrev pub fails : ℕ → Options → DriverExit
fails code o = exits code o.output_stream none (removed_file o)

abbrev pub content_of : Files → InputFile → List ℕ
content_of files no_input = []
content_of files from_stdin = files.stdin
content_of files (from_file content) = content

-- The exit by what is written.
abbrev pub exit_by : Options → Output → DriverExit
exit_by o (bytes written) = exits 0 o.output_stream (some written) none
exit_by o failure = fails err_codegen o
exit_by o never = undefined

-- Behind the options.
unfoldable pub translate : Memory → (accepts : ℕ → Bool) → Options → List ℕ → DriverExit
translate m accepts o input = elim (lex m input) [
  | err e ↦ fails err_lex o
  | ok tokens ↦ elim (parse m tokens) [
    | err e ↦ fails err_parse o
    | ok ast ↦ elim o.output_stream [
      | no_stream ↦ exits 0 no_stream none none
      | _ ↦ exit_by o (write_output m accepts o ast)
    ]
  ]
]

unfoldable pub main : Memory → (accepts : ℕ → Bool) → Files → Arguments → DriverExit
unfolding translate
main m accepts files args = elim (process_options files args) [
  | unreachable ↦ undefined
  | rejected o ↦ fails err_options o
  | accepted o ↦
      if o.print_only
      then exits 0 o.output_stream none none
      else translate m accepts o (content_of files o.input_file)
]
