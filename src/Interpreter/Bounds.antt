-- ===== src/Interpreter/Bounds.antt =====
-- u6a.c: the sizes that the options set.
use u6a.Base.{
  ℕ, ◌≤◌, ◌≡◌, refl, Bool, true, false, ◌||◌, Option, none, some, List, [], ◌∷◌, Option-cases,
  Bool-cases, inl, inr, ltb, ◌==◌, ◌&&◌, length, ◌-◌, u32, arith, if◌then◌else◌,
}
use u6a.Interpreter.{
  Arguments, Surroundings, InterpreterOptions, OptionsResult, accepted, rejected, unreachable,
  parse_uint_opt, parse_options, open_input, process_options, default_options,
  set_stack_segment_size, set_pool_size, min_stack_segment_size, max_stack_segment_size,
  min_pool_size, max_pool_size, path_max, opened,
}

abbrev pub InRange : InterpreterOptions → Type 0
InRange o =
    (min_stack_segment_size ≤ o.runtime.stack_segment_size)
    × (o.runtime.stack_segment_size ≤ max_stack_segment_size)
    × (min_pool_size ≤ o.runtime.pool_size)
    × (o.runtime.pool_size ≤ max_pool_size)

data AllInRange : OptionsResult → Type 0 where
  in_range : {o : InterpreterOptions} → InRange o → AllInRange (accepted o)
  not_accepted : AllInRange rejected
  never : AllInRange unreachable

accepted-InRange : {o : InterpreterOptions} → AllInRange (accepted o) → InRange o
accepted-InRange (in_range h) = h

between : (m a b n : ℕ) → (ltb m a || ltb b m) ≡ false → m ≡ n → (a ≤ n) × (n ≤ b)
between m a b n h e = ground arith

parse_uint_opt-range :
    (env : Surroundings) (optarg : List ℕ) (a b n : ℕ)
    → parse_uint_opt env optarg a b ≡ some n
    → (a ≤ n) × (n ≤ b)
unfolding parse_uint_opt
parse_uint_opt-range env optarg a b n e = elim (Option-cases (env.strtoul optarg)) [
  | inl q ↦ cc (rw (q, parse_uint_opt) at e)
  | inr (m, q) ↦ elim (Bool-cases (ltb (u32 m) a || ltb b (u32 m))) [
    | inl out ↦ cc (rw (q, parse_uint_opt, out) at e)
    | inr fits ↦
        let same : some (u32 m) ≡ some n = rw (q, parse_uint_opt, fits) at e in
        between (u32 m) a b n fits cc
  ]
]

if-AllInRange :
    (c : Bool) {x y : OptionsResult} → AllInRange x → AllInRange y → AllInRange (if c then x else y)
if-AllInRange true p q = p
if-AllInRange false p q = q

-- What follows an option with a number.
number-AllInRange :
    (o : Option ℕ) (f : ℕ → OptionsResult)
    → ((n : ℕ) → o ≡ some n → AllInRange (f n))
    → AllInRange (elim o [ none ↦ rejected | some n ↦ f n ])
number-AllInRange none f p = not_accepted
number-AllInRange (some n) f p = p n refl

parse_options-AllInRange :
    (env : Surroundings) (options : List (ℕ × List ℕ)) (o : InterpreterOptions)
    → InRange o
    → AllInRange (parse_options env options o)
unfolding parse_options
parse_options-AllInRange env [] o h = in_range h
parse_options-AllInRange env ((result, optarg) ∷ rest) o h =
    let next = parse_options-AllInRange env rest in
    if-AllInRange (result == b's')
      (number-AllInRange (parse_uint_opt env optarg min_stack_segment_size max_stack_segment_size)
        (λ n. parse_options env rest (set_stack_segment_size n o))
        (λ n e.
          let (low, high) =
            parse_uint_opt-range env optarg min_stack_segment_size max_stack_segment_size n e in
          next (set_stack_segment_size n o) (low, high, h.2, h.3)))
      (if-AllInRange (result == b'p')
        (number-AllInRange (parse_uint_opt env optarg min_pool_size max_pool_size)
          (λ n. parse_options env rest (set_pool_size n o))
          (λ n e. next (set_pool_size n o) (
            let (low, high) = parse_uint_opt-range env optarg min_pool_size max_pool_size n e in
            (h.0, h.1, low, high))))
        (if-AllInRange (result == b'i') (next (record o { print_info = true }) h) (
          if-AllInRange (result == b'f')
            (next (record o { runtime = record o.runtime { force_exec = true } }) h)
            (if-AllInRange (result == b'H' || result == b'v')
              (next (record o { print_only = true }) h)
              (if-AllInRange (result == b'?') not_accepted never)))))

open_input-AllInRange :
    (env : Surroundings) (operand : Option (List ℕ)) (o : InterpreterOptions)
    → InRange o
    → AllInRange (open_input env operand o)
unfolding open_input
open_input-AllInRange env none o h = not_accepted
open_input-AllInRange env (some file_name) o h =
    if-AllInRange (length file_name == 1 && (elim file_name [ [] ↦ false | ch ∷ _ ↦ ch == b'-' ]))
      (in_range h)
      (if-AllInRange (ltb (path_max - 1) (length file_name)) not_accepted
        (opened_file (env.fopen file_name)))
  where
    opened_file :
        (file : Option (List ℕ))
        → AllInRange (elim file [
          | none ↦ rejected
          | some content ↦ accepted (record o { istream = opened content })
        ])
    opened_file none = not_accepted
    opened_file (some content) = in_range h

process_options-AllInRange :
    (env : Surroundings) (args : Arguments) → AllInRange (process_options env args)
unfolding process_options
process_options-AllInRange env args = then_input (parse_options env args.options default_options) (
    parse_options-AllInRange env args.options default_options
      (omega arith, omega arith, omega arith, omega arith))
  where
    then_input :
        (r : OptionsResult)
        → AllInRange r
        → AllInRange (elim r [
          | rejected ↦ rejected
          | unreachable ↦ unreachable
          | accepted o ↦ if o.print_only then accepted o else open_input env args.operand o
        ])
    then_input r (in_range {o = o} h) =
        if-AllInRange o.print_only (in_range h) (open_input-AllInRange env args.operand o h)
    then_input r not_accepted = not_accepted
    then_input r never = never

-- Whatever the options are, if they are accepted, the size of a segment and that of the pool are
-- within the limits of vm_defs.h.
pub process_options-InRange :
    (env : Surroundings) (args : Arguments) (o : InterpreterOptions)
    → process_options env args ≡ accepted o
    → InRange o
process_options-InRange env args o e =
    accepted-InRange (rw e at (process_options-AllInRange env args))
