-- ===== src/Logging.antt =====
-- logging.c: the texts of the messages, as bytes. What is written to the standard error and to the
-- standard output is a list of bytes; all writes are taken to succeed.
mod Tests
pub mod Lines
pub mod Tells
use u6a.Base.{
  ℕ, zero, suc, ◌+◌, ◌/◌, ◌%◌, Bool, false, List, [], ◌∷◌, ◌++◌, ltb, ◌==◌, if◌then◌else◌,
}
use Prim.Native.Char.{code}
use Prim.Native.String.{String}
use u6a.Lexer.{isprint}
use u6a.Dump.{hex}

-- The bytes of a text of ASCII characters.
abbrev pub codes : String → List ℕ
codes String.[] = []
codes (String.◌∷◌ c s) = code c ∷ codes s

-- `%zu`, `%d` and `PRIu32`, of an integer that is not negative; a round for each digit.
unfoldable pub digits : (fuel : ℕ) → ℕ → List ℕ
digits zero n = []
digits (suc fuel) n =
    let rest = digits fuel (n / 10) in
    if ltb n 10 then (b'0' + n) ∷ [] else rest ++ (b'0' + n % 10) ∷ []

abbrev pub decimal : ℕ → List ℕ
decimal n = digits (suc n) n

-- The two variables.
pub record Logging : Type 0 where
  pub prog_name : List ℕ
  pub verbose : Bool

abbrev pub initial_logging : Logging
initial_logging = record { prog_name = []; verbose = false }

abbrev pub logging_init : List ℕ → Logging → Logging
logging_init name log = record log { prog_name = name }

abbrev pub logging_verbose : Bool → Logging → Logging
logging_verbose v log = record log { verbose = v }

-- The functions `u6a_err_...`, with what they print. A character is a byte.
pub data Message : Type 0 where
  bad_alloc : (size : ℕ) → Message
  unexpected_eof : (after : ℕ) → Message
  unprintable_ch : (got : ℕ) → Message
  bad_ch : (got : ℕ) → Message
  bad_syntax : Message
  write_failed : (bytes : ℕ) → (filename : List ℕ) → Message
  path_too_long : (maximum given : ℕ) → Message
  no_input_file : Message
  custom : (err_message : List ℕ) → Message
  cannot_open_file : (filename : List ℕ) → Message
  stack_underflow : Message
  invalid_uint : (str : List ℕ) → Message
  uint_not_in_range : (min_val max_val got : ℕ) → Message
  invalid_bc_file : (filename : List ℕ) → Message
  bad_bc_ver : (filename : List ℕ) → (ver_major ver_minor : ℕ) → Message
  vm_pool_oom : Message
  invalid_opcode : (opcode : ℕ) → Message
  invalid_ex_opcode : (ex_opcode : ℕ) → Message
  invalid_vm_func : (fn : ℕ) → Message

abbrev pub quote : ℕ
quote = 39

-- The three ways to show a character.
unfoldable pub shown_ch : ℕ → List ℕ
shown_ch got =
    if isprint got
    then quote ∷ got ∷ quote ∷ []
    else if got == 10
    then quote ∷ 92 ∷ b'n' ∷ quote ∷ []
    else codes "0x" ++ hex 2 got

abbrev pub join : List (List ℕ) → List ℕ
join [] = []
join (text ∷ texts) = text ++ join texts

-- A message without its last character, the newline, and without what stands in front of it: the
-- parts of the format and what is put between them.
unfoldable pub parts : Message → List (List ℕ)
parts (bad_alloc size) =
    codes "allocation failed - trying to allocate " ∷ decimal size ∷ codes " bytes." ∷ []
parts (unexpected_eof after) =
    codes "unexpected end of file after " ∷ (quote ∷ after ∷ quote ∷ []) ∷ codes "." ∷ []
parts (unprintable_ch got) =
    codes "printable character or "
    ∷ (quote ∷ 92 ∷ b'n' ∷ quote ∷ [])
    ∷ codes " expected, 0x"
    ∷ hex 2 got
    ∷ codes " given."
    ∷ []
parts (bad_ch got) = codes "unrecognizable character " ∷ shown_ch got ∷ codes "." ∷ []
parts bad_syntax = codes "bad syntax." ∷ []
parts (write_failed bytes filename) =
    if ltb 0 bytes
    then codes "failed writing " ∷ decimal bytes ∷ codes " bytes to " ∷ filename ∷ codes "." ∷ []
    else codes "failed writing data to " ∷ filename ∷ codes "." ∷ []
parts (path_too_long maximum given) =
    codes "file path too long. A maximum of "
    ∷ decimal maximum
    ∷ codes " expected, "
    ∷ decimal given
    ∷ codes " given."
    ∷ []
parts no_input_file = codes "no input file specified." ∷ []
parts (custom err_message) = err_message ∷ codes "." ∷ []
parts (cannot_open_file filename) = codes "failed to open file " ∷ filename ∷ codes "." ∷ []
parts stack_underflow = codes "stack underflow." ∷ []
parts (invalid_uint str) =
    (b'"' ∷ []) ∷ str ∷ (b'"' ∷ []) ∷ codes " is not a valid unsigned integer." ∷ []
parts (uint_not_in_range min_val max_val got) =
    codes "Integer out of range - ["
    ∷ decimal min_val
    ∷ codes ", "
    ∷ decimal max_val
    ∷ codes "] expected, "
    ∷ decimal got
    ∷ codes " given."
    ∷ []
parts (invalid_bc_file filename) = filename ∷ codes " is not a valid Unlambda bytecode file." ∷ []
parts (bad_bc_ver filename ver_major ver_minor) =
    codes "bytecode file "
    ∷ filename
    ∷ codes " version "
    ∷ decimal ver_major
    ∷ codes "."
    ∷ decimal ver_minor
    ∷ codes " is not compatible."
    ∷ []
parts vm_pool_oom = codes "VM object pool memory exhausted." ∷ []
parts (invalid_opcode opcode) = codes "invalid opcode " ∷ decimal opcode ∷ codes "." ∷ []
parts (invalid_ex_opcode ex_opcode) =
    codes "invalid extended opcode " ∷ decimal ex_opcode ∷ codes "." ∷ []
parts (invalid_vm_func fn) = codes "invalid function " ∷ decimal fn ∷ codes "." ∷ []

-- `"%s: [%s] "`, which all messages begin with.
abbrev pub heading : Logging → (stage : List ℕ) → List (List ℕ)
heading log stage = log.prog_name ∷ codes ": [" ∷ stage ∷ codes "] " ∷ []

-- What a function `u6a_err_...` prints to the standard error.
unfoldable pub error_text : Logging → (stage : List ℕ) → Message → List ℕ
error_text log stage e = join (heading log stage) ++ (join (parts e) ++ 10 ∷ [])

-- What `u6a_info_verbose` prints to the standard output.
unfoldable pub info_text : Logging → (stage message : List ℕ) → List ℕ
info_text log stage message =
    if log.verbose then join (heading log stage) ++ (message ++ b'.' ∷ 10 ∷ []) else []
