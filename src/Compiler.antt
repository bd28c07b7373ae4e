-- ===== src/Compiler.antt =====
-- u6ac.c: `main` behind the options, and `u6a_write_prefix` of codegen.c.
mod Tests
pub mod Outcomes
pub mod Total
pub mod Runs
pub mod Printable
pub mod Outputs
use u6a.Base.{
  ℕ, ◌+◌, [], Bool, Option, none, some, List, ◌++◌, length, Result, ok, err, if◌then◌else◌,
}
use u6a.Defs.{Memory}
use u6a.Lexer.{lex}
use u6a.Parser.{parse}
use u6a.Bytecode.{CodegenError, write_failed, codegen}

abbrev pub err_lex : ℕ
err_lex = 2

abbrev pub err_parse : ℕ
err_parse = 3

abbrev pub err_codegen : ℕ
err_codegen = 4

-- `struct arg_options` with an input file and, unless the syntax alone is to be checked, an output
-- file that is open, and with no dump of mnemonics.
pub record ArgOptions : Type 0 where
  pub optimize_const : Bool
  pub output_file_prefix : Option (List ℕ)
  pub syntax_only : Bool

-- The exit code, and what the output file holds at the end: `none` if there is none, or if
-- `arg_options_destroy` has deleted it.
pub record Exit : Type 0 where
  pub exit_code : ℕ
  pub output : Option (List ℕ)

abbrev pub finished : Option (List ℕ) → Exit
finished o = record { exit_code = 0; output = o }

abbrev pub failed : ℕ → Exit
failed code = record { exit_code = code; output = none }

-- `accepts` says whether `fwrite` writes everything.
unfoldable pub write_prefix : (accepts : Bool) → Option (List ℕ) → Result CodegenError (List ℕ)
write_prefix accepts none = ok []
write_prefix accepts (some bytes) = if accepts then ok bytes else err (write_failed (length bytes))

-- The first write is that of the prefix, the others are those of `u6a_codegen`.
unfoldable pub compile : Memory → (accepts : ℕ → Bool) → ArgOptions → List ℕ → Exit
unfolding write_prefix
compile m accepts options input = elim (lex m input) [
  | err e ↦ failed err_lex
  | ok tokens ↦ elim (parse m tokens) [
    | err e ↦ failed err_parse
    | ok ast ↦
        if options.syntax_only
        then finished none
        else elim (write_prefix (accepts 0) options.output_file_prefix) [
          | err e ↦ failed err_codegen
          | ok before ↦ elim (codegen m (λ i. accepts (i + 1)) options.optimize_const ast) [
            | err e ↦ failed err_codegen
            | ok bytes ↦ finished (some (before ++ bytes))
          ]
        ]
  ]
]
