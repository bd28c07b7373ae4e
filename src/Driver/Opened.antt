-- ===== src/Driver/Opened.antt =====
-- u6ac.c: the output file that is opened.
use u6a.Base.{
  ℕ, ◌+◌, ◌-◌, ◌≡◌, refl, Bool, true, false, Option, none, some, List, [], ◌∷◌, ◌++◌, length, ◌==◌,
  ltb, if◌then◌else◌, inl, inr, Bool-cases,
}
use u6a.Driver.{
  Arguments, Files, no_input, from_stdin, from_file, no_stream, to_file, InputFile, Options, Flags,
  Processed, accepted, rejected, unreachable, process_options, process_loop, set_option, open_files,
  open_input, open_output, open_named, write_to_stdout, is_dash, suffix, path_max, initial_options,
  initial_flags,
}
use u6a.Driver.Main.{removed_file}

-- What `remove` would be called with has been opened for writing.
abbrev pub RemovesOpened : Files → Options → Type 0
RemovesOpened files o = (name : List ℕ) → removed_file o ≡ some name → files.fopen_w name ≡ true

data IfAccepted (P : Options → Type 0) : Processed → Type 0 where
  holds : {o : Options} → P o → IfAccepted P (accepted o)
  not_accepted : {o : Options} → IfAccepted P (rejected o)
  never : IfAccepted P unreachable

accepted-IfAccepted : {P : Options → Type 0} {o : Options} → IfAccepted P (accepted o) → P o
accepted-IfAccepted (holds h) = h

if-IfAccepted :
    {P : Options → Type 0} (c : Bool) {x y : Processed}
    → IfAccepted P x
    → IfAccepted P y
    → IfAccepted P (if c then x else y)
if-IfAccepted true p q = p
if-IfAccepted false p q = q

next_step :
    {P Q : Options → Type 0} (k : Options → Processed) {r : Processed}
    → IfAccepted P r
    → ((o : Options) → P o → IfAccepted Q (k o))
    → IfAccepted Q
        (elim r [ unreachable ↦ unreachable | rejected o ↦ rejected o | accepted o ↦ k o ])
next_step k (holds {o = o} h) step = step o h
next_step k not_accepted step = not_accepted
next_step k never step = never

-- Only what is printed is not translated. Where no stream is open, no file is named.
abbrev pub Fine : Files → Options → Type 0
Fine files o =
    o.print_only ≡ false
    → RemovesOpened files o × (o.output_stream ≡ no_stream → o.file_name ≡ none)

open_named-Fine :
    (files : Files) (name : List ℕ) (o : Options)
    → IfAccepted (Fine files) (open_named files name o)
unfolding open_named
open_named-Fine files name o = elim (Bool-cases (files.fopen_w name)) [
  | inl w ↦ rw w (holds (opened w))
  | inr w ↦ rw w not_accepted
]
  where
    opened :
        files.fopen_w name ≡ true
        → Fine files (record o { output_stream = to_file; file_name = some name })
    opened w p = (
      (λ n e. (let same : some name ≡ some n = e in let q : name ≡ n = cc in rw⁻¹ q w)),
      (λ h. cc),
    )

write_to_stdout-Fine :
    (files : Files) (f : Flags) (o : Options) → IfAccepted (Fine files) (write_to_stdout f o)
unfolding write_to_stdout
write_to_stdout-Fine files f o =
    if-IfAccepted f.verbose not_accepted (holds (λ p. ((λ n e. cc), (λ h. cc))))

open_output-Fine :
    (files : Files) (f : Flags) (o : Options)
    → o.output_stream ≡ no_stream
    → IfAccepted (Fine files) (open_output files f o)
unfolding open_output
open_output-Fine files f o idle =
    if-IfAccepted f.syntax_only (holds (λ p. ((λ n e. cc (rw idle at e)), (λ h. refl))))
      (named o.file_name o.input_file)
  where
    beside : IfAccepted (Fine files) (
        if ltb (path_max - 1) (length o.input_file_name + 8)
        then rejected o
        else open_named files (o.input_file_name ++ suffix o.dump_mnemonics) o)
    beside =
        if-IfAccepted (ltb (path_max - 1) (length o.input_file_name + 8)) not_accepted
          (open_named-Fine files (o.input_file_name ++ suffix o.dump_mnemonics) o)

    named :
        (file_name : Option (List ℕ)) (input_file : InputFile)
        → IfAccepted (Fine files) (elim file_name [
          | some name ↦ if is_dash name then write_to_stdout f o else open_named files name o
          | none ↦ elim input_file [
            | from_stdin ↦ write_to_stdout f o
            | _ ↦
                if ltb (path_max - 1) (length o.input_file_name + 8)
                then rejected o
                else open_named files (o.input_file_name ++ suffix o.dump_mnemonics) o
          ]
        ])
    named (some name) input_file =
        if-IfAccepted (is_dash name) (write_to_stdout-Fine files f o) (open_named-Fine files name o)
    named none from_stdin = write_to_stdout-Fine files f o
    named none no_input = beside
    named none (from_file content) = beside

-- No stream is open.
abbrev Idle : Options → Type 0
Idle o = o.output_stream ≡ no_stream

open_input-Idle :
    (files : Files) (operand : Option (List ℕ)) (o : Options)
    → Idle o
    → IfAccepted Idle (open_input files operand o)
unfolding open_input
open_input-Idle files none o idle = not_accepted
open_input-Idle files (some name) o idle =
    if-IfAccepted (is_dash name) (holds idle)
      (if-IfAccepted (ltb (path_max - 1) (length name)) not_accepted (content (files.fopen_r name)))
  where
    content :
        (c : Option (List ℕ))
        → IfAccepted Idle (elim c [
          | none ↦ rejected (record o { input_file_name = name })
          | some content ↦
              accepted (record o { input_file = from_file content; input_file_name = name })
        ])
    content none = not_accepted
    content (some c) = holds idle

open_files-Fine :
    (files : Files) (operand : Option (List ℕ)) (o : Options) (f : Flags)
    → Idle o
    → IfAccepted (Fine files) (open_files files operand o f)
unfolding open_files
open_files-Fine files operand o f idle = elim (Bool-cases o.print_only) [
  | inl prints ↦ rw prints (holds (λ p. cc))
  | inr translates ↦
      let optimized : Options → Options =
        λ o2. record o2 { optimize_const = ltb b'0' f.optimize_level } in
      translated (accepted o) translates (
        next_step
          (λ o1. elim (open_output files f o1) [
            | unreachable ↦ unreachable
            | rejected o2 ↦ rejected o2
            | accepted o2 ↦ accepted (optimized o2)
          ])
          (open_input-Idle files operand o idle)
          (λ o1 idle1.
            next_step (λ o2. accepted (optimized o2)) (open_output-Fine files f o1 idle1)
              (λ o2 fine. holds fine)))
]
  where
    translated :
        {b : Bool} {y : Processed} (x : Processed)
        → b ≡ false
        → IfAccepted (Fine files) y
        → IfAccepted (Fine files) (if b then x else y)
    translated {b = true} x q h = cc
    translated {b = false} x q h = h

data KeepsIdle : Option (Options × Flags) → Type 0 where
  kept : {o : Options} {f : Flags} → Idle o → KeepsIdle (some (o, f))
  stops : KeepsIdle none

if-KeepsIdle :
    (c : Bool) {x y : Option (Options × Flags)}
    → KeepsIdle x
    → KeepsIdle y
    → KeepsIdle (if c then x else y)
if-KeepsIdle true p q = p
if-KeepsIdle false p q = q

set_option-KeepsIdle :
    (result : ℕ) (optarg : Option (List ℕ)) (o : Options) (f : Flags)
    → Idle o
    → KeepsIdle (set_option result optarg o f)
unfolding set_option
set_option-KeepsIdle result optarg o f idle = if-KeepsIdle (result == b'o') (kept idle) (
    if-KeepsIdle (result == b'O') (kept idle) (
      if-KeepsIdle (result == b'p') (kept idle) (
        if-KeepsIdle (result == b'S') (kept idle) (
          if-KeepsIdle (result == b'v') (kept idle) (
            if-KeepsIdle (result == b's') (kept idle) (
              if-KeepsIdle (result == b'H') (kept idle)
                (if-KeepsIdle (result == b'V') (kept idle) stops)))))))

-- A round of the loop over the options.
next_option :
    {P : Options → Type 0} (k : Options → Flags → Processed) (last : Processed)
    {r : Option (Options × Flags)}
    → KeepsIdle r
    → ((o : Options) (f : Flags) → Idle o → IfAccepted P (k o f))
    → IfAccepted P last
    → IfAccepted P (elim r [ some (o, f) ↦ k o f | none ↦ last ])
next_option k last (kept {o = o} {f = f} idle) step end = step o f idle
next_option k last stops step end = end

process_loop-Fine :
    (files : Files) (operand : Option (List ℕ)) (options : List (ℕ × Option (List ℕ))) (o : Options)
    (f : Flags)
    → Idle o
    → IfAccepted (Fine files) (process_loop files operand options o f)
unfolding process_loop
process_loop-Fine files operand [] o f idle = open_files-Fine files operand o f idle
process_loop-Fine files operand ((result, optarg) ∷ rest) o f idle =
    next_option (process_loop files operand rest)
      (if result == b'?' then rejected o else unreachable)
      (set_option-KeepsIdle result optarg o f idle) (process_loop-Fine files operand rest)
      (if-IfAccepted (result == b'?') not_accepted never)

pub process_options-Fine :
    (files : Files) (args : Arguments) (o : Options)
    → process_options files args ≡ accepted o
    → Fine files o
unfolding process_options
process_options-Fine files args o e = accepted-IfAccepted (rw e at all)
  where
    all : IfAccepted (Fine files) (process_options files args)
    all = process_loop-Fine files args.operand args.options initial_options initial_flags refl

-- Whatever the options are, if they are accepted and ask for a translation, the name that `remove` is
-- called with, if the translation fails, is one that has been opened for writing.
pub process_options-RemovesOpened :
    (files : Files) (args : Arguments) (o : Options)
    → process_options files args ≡ accepted o
    → o.print_only ≡ false
    → RemovesOpened files o
process_options-RemovesOpened files args o e p = (process_options-Fine files args o e p).0
