-- ===== src/Driver.antt =====
-- u6ac.c: the options and `main`, and the branch of codegen.c that dumps.
pub mod Main
pub mod Opened
pub mod Outcome
pub mod Unopened
mod Tests
use u6a.Base.{
  ℕ, ◌+◌, ◌-◌, ◌*◌, Bool, true, false, ◌&&◌, Option, none, some, List, [], ◌∷◌, ◌++◌, length, ltb,
  leb, ◌==◌, if◌then◌else◌, Result, ok, err,
}
use u6a.Defs.{Memory, AstNode}
use u6a.Lexer.{lex}
use u6a.Parser.{parse}
use u6a.Codegen.{generate}
use u6a.Bytecode.{CodegenError, bad_alloc, codegen}
use u6a.Dump.{dump_mnemonics}
use u6a.Dump.Data.{dump_data}
use u6a.Compiler.{err_lex, err_parse, err_codegen, write_prefix}

abbrev pub err_options : ℕ
err_options = 1

abbrev pub path_max : ℕ
path_max = 4096

-- The results of `getopt_long` with their `optarg`, and the first argument that is no option; the
-- files that can be opened for reading, with what is in them; which can be opened for writing; and
-- what stands on the standard input.
pub record Arguments : Type 0 where
  pub options : List (ℕ × Option (List ℕ))
  pub operand : Option (List ℕ)

pub record Files : Type 0 where
  pub fopen_r : List ℕ → Option (List ℕ)
  pub fopen_w : List ℕ → Bool
  pub stdin : List ℕ

-- `struct arg_options` with `struct u6a_codegen_options` in it, and the variables of `process_options`.
pub data InputFile : Type 0 where
  no_input : InputFile
  from_stdin : InputFile
  from_file : List ℕ → InputFile

pub data OutputStream : Type 0 where
  no_stream : OutputStream
  to_stdout : OutputStream
  to_file : OutputStream

pub record Options : Type 0 where
  pub file_name : Option (List ℕ)
  pub output_stream : OutputStream
  pub optimize_const : Bool
  pub dump_mnemonics : Bool
  pub input_file : InputFile
  pub input_file_name : List ℕ
  pub output_file_prefix : Option (List ℕ)
  pub print_only : Bool

pub record Flags : Type 0 where
  pub syntax_only : Bool
  pub verbose : Bool
  pub optimize_level : ℕ

-- `return true` and `return false` with the options so far, and a statement that is taken not to be
-- reached.
pub data Processed : Type 0 where
  accepted : Options → Processed
  rejected : Options → Processed
  unreachable : Processed

-- "#!/usr/bin/env u6a\n"
abbrev pub default_prefix : List ℕ
default_prefix =
    b'#' ∷ b'!' ∷ b'/' ∷ b'u' ∷ b's' ∷ b'r' ∷ b'/' ∷ b'b' ∷ b'i' ∷ b'n' ∷ b'/' ∷ b'e' ∷ b'n' ∷ b'v'
    ∷ b' ' ∷ b'u' ∷ b'6' ∷ b'a' ∷ 10 ∷ []

-- `optarg[0]`, with the end of the string.
abbrev pub first_char : List ℕ → ℕ
first_char [] = 0
first_char (ch ∷ _) = ch

-- What is set already is not set again.
abbrev pub keep : Option (List ℕ) → Option (List ℕ) → Option (List ℕ)
keep none new = new
keep (some old) new = some old

-- The cases of the `switch` that go on with the loop. What `-H` and `-V` print is left out.
pub set_option : ℕ → Option (List ℕ) → Options → Flags → Option (Options × Flags)
set_option result optarg o f =
    if result == b'o'
    then some (record o { file_name = keep o.file_name optarg }, f)
    else if result == b'O'
    then some (
      o,
      record f { optimize_level = elim optarg [ none ↦ b'1' | some level ↦ first_char level ] },
    )
    else if result == b'p'
    then some (
      record o {
        output_file_prefix =
            keep o.output_file_prefix
              (elim optarg [ none ↦ some default_prefix | some prefix ↦ some prefix ]);
      },
      f,
    )
    else if result == b'S'
    then some (record o { dump_mnemonics = true }, f)
    else if result == b'v'
    then some (o, record f { verbose = true })
    else if result == b's'
    then some (o, record f { syntax_only = true })
    else if result == b'H'
    then some (record o { print_only = true }, f)
    else if result == b'V'
    then some (record o { print_only = true }, f)
    else none

abbrev pub is_dash : List ℕ → Bool
is_dash name = length name == 1 && first_char name == b'-'

-- The input file.
pub open_input : Files → Option (List ℕ) → Options → Processed
open_input files none o = rejected o
open_input files (some name) o =
    if is_dash name
    then accepted (record o { input_file = from_stdin; input_file_name = name })
    else if ltb (path_max - 1) (length name)
    then rejected (record o { input_file_name = name })
    else elim (files.fopen_r name) [
      | none ↦ rejected (record o { input_file_name = name })
      | some content ↦
          accepted (record o { input_file = from_file content; input_file_name = name })
    ]

-- `.bc.dump` or `.bc`.
abbrev pub suffix : Bool → List ℕ
suffix true = b'.' ∷ b'b' ∷ b'c' ∷ b'.' ∷ b'd' ∷ b'u' ∷ b'm' ∷ b'p' ∷ []
suffix false = b'.' ∷ b'b' ∷ b'c' ∷ []

-- "STDOUT"
abbrev pub stdout_name : List ℕ
stdout_name = b'S' ∷ b'T' ∷ b'D' ∷ b'O' ∷ b'U' ∷ b'T' ∷ []

-- The label `write_to_stdout`, and `fopen` of the output file.
pub write_to_stdout : Flags → Options → Processed
write_to_stdout f o =
    if f.verbose
    then rejected o
    else accepted (record o { output_stream = to_stdout; file_name = some stdout_name })

pub open_named : Files → List ℕ → Options → Processed
open_named files name o =
    if files.fopen_w name
    then accepted (record o { output_stream = to_file; file_name = some name })
    else rejected (record o { file_name = some name })

-- The output file.
pub open_output : Files → Flags → Options → Processed
unfolding write_to_stdout open_named
open_output files f o =
    if f.syntax_only then accepted (record o { file_name = none }) else elim o.file_name [
      | some name ↦ if is_dash name then write_to_stdout f o else open_named files name o
      | none ↦ elim o.input_file [
        | from_stdin ↦ write_to_stdout f o
        | _ ↦
            if ltb (path_max - 1) (length o.input_file_name + 8)
            then rejected o
            else open_named files (o.input_file_name ++ suffix o.dump_mnemonics) o
      ]
    ]

-- Behind the loop over the options.
pub open_files : Files → Option (List ℕ) → Options → Flags → Processed
unfolding open_input open_output
open_files files operand o f =
    if o.print_only then accepted o else elim (open_input files operand o) [
      | unreachable ↦ unreachable
      | rejected o1 ↦ rejected o1
      | accepted o1 ↦ elim (open_output files f o1) [
        | unreachable ↦ unreachable
        | rejected o2 ↦ rejected o2
        | accepted o2 ↦ accepted (record o2 { optimize_const = ltb b'0' f.optimize_level })
      ]
    ]

pub process_loop :
    Files → Option (List ℕ) → List (ℕ × Option (List ℕ)) → Options → Flags → Processed
unfolding set_option open_files
process_loop files operand [] o f = open_files files operand o f
process_loop files operand ((result, optarg) ∷ rest) o f = elim (set_option result optarg o f) [
  | some (o1, f1) ↦ process_loop files operand rest o1 f1
  | none ↦ if result == b'?' then rejected o else unreachable
]

abbrev pub initial_options : Options
initial_options = record {
  file_name = none;
  output_stream = no_stream;
  optimize_const = false;
  dump_mnemonics = false;
  input_file = no_input;
  input_file_name = [];
  output_file_prefix = none;
  print_only = false;
}

abbrev pub initial_flags : Flags
initial_flags = record { syntax_only = false; verbose = false; optimize_level = b'1' }

pub process_options : Files → Arguments → Processed
unfolding process_loop
process_options files args =
    process_loop files args.operand args.options initial_options initial_flags
