-- ===== src/Driver/Unopened.antt =====
-- u6ac.c: what is removed if there is no input file to be read.
use u6a.Base.{
  ℕ, ◌-◌, ◌≤◌, ◌≡◌, ◌⊎◌, refl, subst, Bool, true, false, Option, none, some, List, [], ◌∷◌, length,
  ◌==◌, ◌||◌, ltb, if◌then◌else◌, inl, inr, Bool-cases, arith,
}
use u6a.Defs.{Memory}
use u6a.Driver.{
  err_options, Arguments, Files, no_stream, Options, Flags, Processed, accepted, rejected,
  unreachable, process_options, process_loop, set_option, open_files, open_input, open_output,
  is_dash, path_max, initial_options, initial_flags, keep,
}
use u6a.Driver.Main.{exits, undefined, fails, content_of, translate, main}

-- There is no operand, its name is too long, or the file cannot be opened.
abbrev pub NoInput : Files → Option (List ℕ) → Type 0
NoInput files none = Unit
NoInput files (some name) =
    (is_dash name ≡ false) × ((path_max ≤ length name) ⊎ (files.fopen_r name ≡ none))

-- The results of `getopt_long` for options that are known and ask for a translation.
abbrev pub is_known : ℕ → Bool
is_known result =
    result == b'o'
    || result == b'O'
    || result == b'p'
    || result == b'S'
    || result == b'v'
    || result == b's'

abbrev pub AllKnown : List (ℕ × Option (List ℕ)) → Type 0
AllKnown [] = Unit
AllKnown ((result, optarg) ∷ options) = (is_known result ≡ true) × AllKnown options

-- The name that stands behind the first `-o`.
abbrev pub first_output : List (ℕ × Option (List ℕ)) → Option (List ℕ)
first_output [] = none
first_output ((result, optarg) ∷ options) =
    if result == b'o'
    then (elim optarg [ some name ↦ some name | none ↦ first_output options ])
    else first_output options

-- The options are rejected, with no stream open and with that name.
data Refused (name : Option (List ℕ)) : Processed → Type 0 where
  refused :
      {o : Options} → o.output_stream ≡ no_stream → o.file_name ≡ name → Refused name (rejected o)

abbrev Waiting : Options → Type 0
Waiting o = (o.print_only ≡ false) × (o.output_stream ≡ no_stream)

open_input-Refused :
    (files : Files) (operand : Option (List ℕ)) (o : Options)
    → NoInput files operand
    → o.output_stream ≡ no_stream
    → Refused o.file_name (open_input files operand o)
unfolding open_input
open_input-Refused files none o h idle = refused idle refl
open_input-Refused files (some name) o (named, why) idle = elim why [
  | inl long ↦
      let too_long : ltb (path_max - 1) (length name) ≡ true = ground arith in
      rw (named, too_long) (refused idle refl)
  | inr unopened ↦ elim (Bool-cases (ltb (path_max - 1) (length name))) [
    | inl long ↦ rw (named, long) (refused idle refl)
    | inr short ↦ rw (named, short, unopened) (refused idle refl)
  ]
]

-- The loop goes on with the name.
data Sets (name : Option (List ℕ)) : Option (Options × Flags) → Type 0 where
  sets : {o : Options} {f : Flags} → Waiting o → o.file_name ≡ name → Sets name (some (o, f))

set_option-Sets :
    (result : ℕ) (optarg : Option (List ℕ)) (o : Options) (f : Flags)
    → is_known result ≡ true
    → Waiting o
    → Sets
        (if result == b'o' then keep o.file_name optarg else o.file_name)
        (set_option result optarg o f)
unfolding set_option
set_option-Sets result optarg o f known w = elim (Bool-cases (result == b'o')) [
  | inl q ↦ rw q (sets {o = record o { file_name = keep o.file_name optarg }} w refl)
  | inr out ↦ elim (Bool-cases (result == b'O')) [
    | inl q ↦ rw (out, q) (sets w refl)
    | inr level ↦ elim (Bool-cases (result == b'p')) [
      | inl q ↦ rw (out, level, q) (sets w refl)
      | inr prefix ↦ elim (Bool-cases (result == b'S')) [
        | inl q ↦ rw (out, level, prefix, q) (sets w refl)
        | inr dump ↦ elim (Bool-cases (result == b'v')) [
          | inl q ↦ rw (out, level, prefix, dump, q) (sets w refl)
          | inr verbose ↦ elim (Bool-cases (result == b's')) [
            | inl q ↦ rw (out, level, prefix, dump, verbose, q) (sets w refl)
            | inr syntax ↦
                let bad : false ≡ true = rw (out, level, prefix, dump, verbose, syntax) at known in
                cc
          ]
        ]
      ]
    ]
  ]
]

next_option :
    {name name' : Option (List ℕ)} (k : Options → Flags → Processed) (last : Processed)
    {r : Option (Options × Flags)}
    → Sets name r
    → ((o : Options) (f : Flags) → Waiting o → o.file_name ≡ name → Refused name' (k o f))
    → Refused name' (elim r [ some (o, f) ↦ k o f | none ↦ last ])
next_option k last (sets {o = o} {f = f} w e) step = step o f w e

-- The name behind an option, once one is set.
first_output-step :
    (result : ℕ) (optarg : Option (List ℕ)) (options : List (ℕ × Option (List ℕ)))
    (old : Option (List ℕ))
    → keep (if result == b'o' then keep old optarg else old) (first_output options)
      ≡ keep old (first_output ((result, optarg) ∷ options))
first_output-step result optarg options old = elim (Bool-cases (result == b'o')) [
  | inl q ↦ rw q (behind_o optarg old)
  | inr q ↦ rw q refl
]
  where
    behind_o :
        (optarg old : Option (List ℕ))
        → keep (keep old optarg) (first_output options)
          ≡ keep old (elim optarg [ some name ↦ some name | none ↦ first_output options ])
    behind_o none none = refl
    behind_o (some name) none = refl
    behind_o optarg (some name) = refl

process_loop-Refused :
    (files : Files) (operand : Option (List ℕ)) (options : List (ℕ × Option (List ℕ))) (o : Options)
    (f : Flags)
    → NoInput files operand
    → AllKnown options
    → Waiting o
    → Refused (keep o.file_name (first_output options)) (process_loop files operand options o f)
unfolding process_loop open_files
process_loop-Refused files operand [] o f h known (translates, idle) =
    let named : keep o.file_name none ≡ o.file_name = kept o.file_name in
    rw named (
      translated (accepted o) translates (
        passed_on
          (λ o1. elim (open_output files f o1) [
            | unreachable ↦ unreachable
            | rejected o2 ↦ rejected o2
            | accepted o2 ↦ accepted (record o2 { optimize_const = ltb b'0' f.optimize_level })
          ])
          (open_input-Refused files operand o h idle)))
  where
    translated :
        {name : Option (List ℕ)} {b : Bool} {y : Processed} (x : Processed)
        → b ≡ false
        → Refused name y
        → Refused name (if b then x else y)
    translated {b = true} x q h = cc
    translated {b = false} x q h = h

    passed_on :
        {name : Option (List ℕ)} (k : Options → Processed) {r : Processed}
        → Refused name r
        → Refused name
            (elim r [ unreachable ↦ unreachable | rejected o1 ↦ rejected o1 | accepted o1 ↦ k o1 ])
    passed_on k (refused idle1 e) = refused idle1 e

    kept : (name : Option (List ℕ)) → keep name none ≡ name
    kept none = refl
    kept (some name) = refl
process_loop-Refused files operand ((result, optarg) ∷ options) o f h (known, all) w =
    next_option (process_loop files operand options)
      (if result == b'?' then rejected o else unreachable)
      (set_option-Sets result optarg o f known w)
      (λ o1 f1 w1 e. rw⁻¹ (first_output-step result optarg options o.file_name) (
        subst
          (λ name.
            Refused (keep name (first_output options)) (process_loop files operand options o1 f1))
          e (process_loop-Refused files operand options o1 f1 h all w1)))

main-Refused :
    (m : Memory) (accepts : ℕ → Bool) (files : Files) (args : Arguments) {name : Option (List ℕ)}
    → Refused name (process_options files args)
    → main m accepts files args ≡ exits err_options no_stream none name
unfolding main
main-Refused m accepts files args {name} r = exit_of (process_options files args) r
  where
    exit_of :
        (p : Processed)
        → Refused name p
        → (elim p [
          | unreachable ↦ undefined
          | rejected o ↦ fails err_options o
          | accepted o ↦
              if o.print_only
              then exits 0 o.output_stream none none
              else translate m accepts o (content_of files o.input_file)
        ])
          ≡ exits err_options no_stream none name
    exit_of (accepted o) h = elim h [ ]
    exit_of unreachable h = elim h [ ]
    exit_of (rejected o) (refused idle e) = rw (idle, e) refl

-- If there is no operand, or its file name is too long or cannot be opened for reading, and all
-- options are known ones that ask for a translation, the exit code is that of wrong options, nothing
-- is written, and the file is removed whose name stands behind the first `-o`, if there is one,
-- although it has not been opened.
pub main-unopened :
    (m : Memory) (accepts : ℕ → Bool) (files : Files) (args : Arguments)
    → NoInput files args.operand
    → AllKnown args.options
    → main m accepts files args ≡ exits err_options no_stream none (first_output args.options)
unfolding process_options
main-unopened m accepts files args h known = main-Refused m accepts files args (
    process_loop-Refused files args.operand args.options initial_options initial_flags h known
      (refl, refl))
