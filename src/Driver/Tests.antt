-- ===== src/Driver/Tests.antt =====
-- The compiler with some options, and its theorems at them.
use u6a.Base.{inr, ◌⊎◌, ℕ, ◌≡◌, refl, Bool, true, false, none, some, List, [], ◌∷◌}
use u6a.Defs.{Memory}
use u6a.Driver.{
  err_options, Arguments, Files, no_stream, to_file, from_file, Options, accepted, process_options,
  process_loop, set_option, open_files, open_input, open_output, open_named, default_prefix,
}
use u6a.Driver.Main.{exits, main}
use u6a.Driver.Opened.{RemovesOpened, process_options-RemovesOpened}
use u6a.Driver.Outcome.{MainWritten, MainUnwritten, MainBadSyntax, MainBadText, main-decides}
use u6a.Driver.Unopened.{main-unopened}

abbrev memory : Memory
memory = record { grants = λ _. true; fill = λ i. 7 }

abbrev accepts : ℕ → Bool
accepts i = true

-- "`.ai"
abbrev source : List ℕ
source = b'`' ∷ b'.' ∷ b'a' ∷ b'i' ∷ []

abbrev files : Files
files = record { fopen_r = λ name. some source; fopen_w = λ name. true; stdin = [] }

-- `u6ac -O0 --add-prefix a`
abbrev arguments : Arguments
arguments = record {
  options = (b'O', some (b'0' ∷ [])) ∷ (b'p', none) ∷ [];
  operand = some (b'a' ∷ []);
}

abbrev options : Options
options = record {
  file_name = some (b'a' ∷ b'.' ∷ b'b' ∷ b'c' ∷ []);
  output_stream = to_file;
  optimize_const = false;
  dump_mnemonics = false;
  input_file = from_file source;
  input_file_name = b'a' ∷ [];
  output_file_prefix = some default_prefix;
  print_only = false;
}

arguments_accepted : process_options files arguments ≡ accepted options
unfolding process_options process_loop set_option open_files open_input open_output open_named
arguments_accepted = refl

process_options-RemovesOpened_example : RemovesOpened files options
process_options-RemovesOpened_example =
    process_options-RemovesOpened files arguments options arguments_accepted refl

main-decides_example :
    MainWritten memory accepts files arguments options
    ⊎ (MainUnwritten memory accepts files arguments options
        ⊎ (MainBadSyntax memory accepts files arguments options
            ⊎ MainBadText memory accepts files arguments options))
main-decides_example =
    main-decides memory accepts files arguments options (λ size. refl) arguments_accepted refl refl

-- `u6ac -S -o b -o c a`, where there is no `a`.
abbrev no_files : Files
no_files = record { fopen_r = λ name. none; fopen_w = λ name. true; stdin = [] }

abbrev two_outputs : Arguments
two_outputs = record {
  options = (b'S', none) ∷ (b'o', some (b'b' ∷ [])) ∷ (b'o', some (b'c' ∷ [])) ∷ [];
  operand = some (b'a' ∷ []);
}

main-unopened_example :
    main memory accepts no_files two_outputs ≡ exits err_options no_stream none (some (b'b' ∷ []))
main-unopened_example =
    main-unopened memory accepts no_files two_outputs (refl, inr refl) (refl, (refl, (refl, tt)))
