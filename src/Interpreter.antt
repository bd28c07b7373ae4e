-- ===== src/Interpreter.antt =====
-- u6a.c: the options and `main`.
pub mod Bounds
pub mod Runs
mod Tests
use u6a.Base.{
  ℕ, Bool, true, false, ◌||◌, ◌&&◌, Option, none, some, List, [], ◌∷◌, length, ltb, ◌==◌, ◌*◌, ◌-◌,
  if◌then◌else◌, u32,
}
use u6a.Defs.{Memory}
use u6a.VmHeap.{VarFn, StackError, bad_pointer, out_of_bounds, out_of_fuel}
use u6a.VmPool.{Held}
use u6a.Loader.{Machine, RuntimeOptions, init_failed, init_overrun, running, runtime_init}
use u6a.Loader.Info.{InfoLines, info_failed, info_overrun, info, runtime_info}
use u6a.Runtime.{Program}
use u6a.Runtime.Step.{Ending, value, runtime_error}
use u6a.Runtime.Start.{run}

abbrev pub err_options : ℕ
err_options = 1

abbrev pub err_init : ℕ
err_init = 2

abbrev pub err_runtime : ℕ
err_runtime = 3

-- The constants `U6A_VM_DEFAULT_STACK_SEGMENT_SIZE` and so on of vm_defs.h, and `PATH_MAX` of Linux.
abbrev pub default_stack_segment_size : ℕ
default_stack_segment_size = 256

abbrev pub min_stack_segment_size : ℕ
min_stack_segment_size = 64

abbrev pub max_stack_segment_size : ℕ
max_stack_segment_size = 1024 * 1024

abbrev pub default_pool_size : ℕ
default_pool_size = 1024 * 1024

abbrev pub min_pool_size : ℕ
min_pool_size = 16

abbrev pub max_pool_size : ℕ
max_pool_size = 16 * 1024 * 1024

abbrev pub path_max : ℕ
path_max = 4096

-- What the program is given: the results of `getopt_long` with their `optarg`, and the first argument
-- that is no option; what `strtoul` gives, and `none` if it sets `errno`; the files that can be opened,
-- with what is in them; and what stands on the standard input.
pub record Arguments : Type 0 where
  pub options : List (ℕ × List ℕ)
  pub operand : Option (List ℕ)

pub record Surroundings : Type 0 where
  pub strtoul : List ℕ → Option ℕ
  pub fopen : List ℕ → Option (List ℕ)
  pub stdin : List ℕ

pub data Stream : Type 0 where
  no_stream : Stream
  standard_input : Stream
  opened : List ℕ → Stream

-- `struct arg_options`.
pub record InterpreterOptions : Type 0 where
  pub runtime : RuntimeOptions
  pub istream : Stream
  pub print_info : Bool
  pub print_only : Bool

-- `return true`, `return false`, and a statement that is taken not to be reached.
pub data OptionsResult : Type 0 where
  accepted : InterpreterOptions → OptionsResult
  rejected : OptionsResult
  unreachable : OptionsResult

-- `PARSE_UINT_OPT` into a `uint32_t`.
pub parse_uint_opt : Surroundings → List ℕ → (min_val max_val : ℕ) → Option ℕ
parse_uint_opt env optarg min_val max_val = elim (env.strtoul optarg) [
  | none ↦ none
  | some n ↦ if ltb (u32 n) min_val || ltb max_val (u32 n) then none else some (u32 n)
]

abbrev pub set_stack_segment_size : ℕ → InterpreterOptions → InterpreterOptions
set_stack_segment_size n o = record o { runtime = record o.runtime { stack_segment_size = n } }

abbrev pub set_pool_size : ℕ → InterpreterOptions → InterpreterOptions
set_pool_size n o = record o { runtime = record o.runtime { pool_size = n } }

-- The loop over the options. What `-H` prints is left out.
pub parse_options : Surroundings → List (ℕ × List ℕ) → InterpreterOptions → OptionsResult
unfolding parse_uint_opt
parse_options env [] o = accepted o
parse_options env ((result, optarg) ∷ rest) o =
    let next = parse_options env rest in
    if result == b's'
    then (elim (parse_uint_opt env optarg min_stack_segment_size max_stack_segment_size) [
      | none ↦ rejected
      | some n ↦ next (set_stack_segment_size n o)
    ])
    else if result == b'p'
    then (elim (parse_uint_opt env optarg min_pool_size max_pool_size) [
      | none ↦ rejected
      | some n ↦ next (set_pool_size n o)
    ])
    else if result == b'i'
    then next (record o { print_info = true })
    else if result == b'f'
    then next (record o { runtime = record o.runtime { force_exec = true } })
    else if result == b'H' || result == b'v'
    then next (record o { print_only = true })
    else if result == b'?'
    then rejected
    else unreachable

-- The input stream.
pub open_input : Surroundings → Option (List ℕ) → InterpreterOptions → OptionsResult
open_input env none o = rejected
open_input env (some file_name) o =
    if length file_name == 1 && (elim file_name [ [] ↦ false | ch ∷ _ ↦ ch == b'-' ])
    then accepted (record o { istream = standard_input })
    else if ltb (path_max - 1) (length file_name)
    then rejected
    else elim (env.fopen file_name) [
      | none ↦ rejected
      | some content ↦ accepted (record o { istream = opened content })
    ]

abbrev pub default_options : InterpreterOptions
default_options = record {
  runtime = record {
    stack_segment_size = default_stack_segment_size;
    pool_size = default_pool_size;
    force_exec = false;
  };
  istream = no_stream;
  print_info = false;
  print_only = false;
}

pub process_options : Surroundings → Arguments → OptionsResult
unfolding parse_options open_input
process_options env args = elim (parse_options env args.options default_options) [
  | rejected ↦ rejected
  | unreachable ↦ unreachable
  | accepted o ↦ if o.print_only then accepted o else open_input env args.operand o
]

-- What the interpreter runs on: memory, the order of the bytes in an integer, what is in memory that
-- is not written yet, the segments that are granted, and the fuel for freeing and for rounds.
pub record Host : Type 0 where
  pub memory : Memory
  pub little : Bool
  pub unwritten : List ℕ
  pub grants : ℕ → Bool
  pub held : ℕ → Held
  pub refs : ℕ → ℕ
  pub fuel : ℕ
  pub rounds : ℕ

-- The exit code with what `-i` prints and with what the program has printed. The behaviour may be
-- undefined, and the fuel may not be enough.
pub data InterpreterExit : Type 0 where
  exits : (code : ℕ) → Option (ℕ × ℕ × InfoLines) → List ℕ → InterpreterExit
  undefined : InterpreterExit
  unfinished : InterpreterExit

abbrev pub program_on : Host → Machine → Program
program_on host machine = record {
  machine = machine;
  little = host.little;
  grants = host.grants;
  fuel = host.fuel;
}

-- The end of the execution.
pub exit_of : Ending → InterpreterExit
exit_of (value x output) = exits (if x.fn == 0 then err_runtime else 0) none output
exit_of (runtime_error e output) = elim e [
  | bad_pointer ↦ undefined
  | out_of_bounds ↦ undefined
  | out_of_fuel ↦ unfinished
  | _ ↦ exits err_runtime none output
]

-- What is to be read from a stream.
abbrev pub content_of : Surroundings → Stream → List ℕ
content_of env no_stream = []
content_of env standard_input = env.stdin
content_of env (opened content) = content

-- What is left on the standard input when the bytecode has been read.
abbrev pub input_left : Surroundings → Stream → Machine → List ℕ
input_left env standard_input machine = machine.istream
input_left env no_stream machine = env.stdin
input_left env (opened content) machine = env.stdin

pub show_info : Host → List ℕ → InterpreterExit
show_info host content = elim (runtime_info host.little host.unwritten content) [
  | info_failed ↦ exits err_init none []
  | info_overrun ↦ undefined
  | info major minor lines ↦ exits 0 (some (major, minor, lines)) []
]

pub execute : Host → Surroundings → InterpreterOptions → InterpreterExit
unfolding exit_of
execute host env o =
    elim (runtime_init host.memory host.little host.unwritten o.runtime
      (content_of env o.istream)) [
        | init_failed ↦ exits err_init none []
        | init_overrun ↦ undefined
        | running machine ↦ exit_of (
            run host.rounds (program_on host machine) host.held host.refs
              (input_left env o.istream machine))
      ]

pub interpret : Host → Surroundings → Arguments → InterpreterExit
unfolding process_options show_info execute
interpret host env args = elim (process_options env args) [
  | rejected ↦ exits err_options none []
  | unreachable ↦ undefined
  | accepted o ↦
      if o.print_only
      then exits 0 none []
      else if o.print_info
      then show_info host (content_of env o.istream)
      else execute host env o
]
