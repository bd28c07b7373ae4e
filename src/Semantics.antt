-- ===== src/Semantics.antt =====
-- What the programs mean that are built from `s`, `k`, `i`, `v`, `.x`, `@`, `?x` and `|`, that is
-- without continuations and promises. It is stated on terms, apart from the virtual machine.
use u6a.Base.{ℕ, ◌+◌, ◌≡◌, Option, none, some, List, [], ◌∷◌, ◌++◌, ◌==◌, if◌then◌else◌}
use u6a.Defs.{Token}
use u6a.Defs.TokenFn
use u6a.Parser.Term.{Term, leaf, app}

-- `k` and `s`, the functions that they give with one argument or two, and the others.
pub data Value : Type 0 where
  constant : Value
  constant_of : Value → Value
  distribute : Value
  distribute_of : Value → Value
  distribute_both : Value → Value → Value
  identity : Value
  void : Value
  printer : ℕ → Value
  reader : Value
  compare : ℕ → Value
  reprint : Value

-- The character that was read last, the rest of the input, and the output.
pub record World : Type 0 where
  pub current : Option ℕ
  pub input : List ℕ
  pub output : List ℕ

abbrev pub emit : List ℕ → World → World
emit text w = record w { output = w.output ++ text }

-- The effect of `@`, and the functions that the argument of `@`, `?x` and `|` is applied to.
abbrev pub read_char : World → World
read_char w = elim w.input [
  | [] ↦ record w { current = none }
  | ch ∷ rest ↦ record w { current = some ch; input = rest }
]

abbrev pub if_read : Option ℕ → Value
if_read none = void
if_read (some ch) = identity

abbrev pub if_same : ℕ → Option ℕ → Value
if_same c none = void
if_same c (some ch) = if c == ch then identity else void

abbrev pub print_read : Option ℕ → Value
print_read none = void
print_read (some ch) = printer ch

pub data Applies : Value → Value → World → Value → World → Type 0 where
  apply_constant : {x : Value} {w : World} → Applies constant x w (constant_of x) w
  apply_constant_of : {x y : Value} {w : World} → Applies (constant_of x) y w x w
  apply_distribute : {x : Value} {w : World} → Applies distribute x w (distribute_of x) w
  apply_distribute_of :
      {x y : Value} {w : World} → Applies (distribute_of x) y w (distribute_both x y) w
  apply_distribute_both :
      {x y z f a r : Value} {w w1 w2 w3 : World}
      → Applies x z w f w1
      → Applies y z w1 a w2
      → Applies f a w2 r w3
      → Applies (distribute_both x y) z w r w3
  apply_identity : {x : Value} {w : World} → Applies identity x w x w
  apply_void : {x : Value} {w : World} → Applies void x w void w
  apply_printer : {c : ℕ} {x : Value} {w : World} → Applies (printer c) x w x (emit (c ∷ []) w)
  apply_reader :
      {x y : Value} {w w' : World}
      → Applies x (if_read (read_char w).current) (read_char w) y w'
      → Applies reader x w y w'
  apply_compare :
      {c : ℕ} {x y : Value} {w w' : World}
      → Applies x (if_same c w.current) w y w'
      → Applies (compare c) x w y w'
  apply_reprint :
      {x y : Value} {w w' : World}
      → Applies x (print_read w.current) w y w'
      → Applies reprint x w y w'

-- The value that a function of the source and its character stand for.
abbrev pub Stands : ℕ → ℕ → Value → Type 0
Stands fn ch constant = fn ≡ TokenFn.k
Stands fn ch (constant_of x) = ⊥
Stands fn ch distribute = fn ≡ TokenFn.s
Stands fn ch (distribute_of x) = ⊥
Stands fn ch (distribute_both x y) = ⊥
Stands fn ch identity = fn ≡ TokenFn.i
Stands fn ch void = fn ≡ TokenFn.v
Stands fn ch (printer c) = (fn ≡ TokenFn.out) × (ch ≡ c)
Stands fn ch reader = fn ≡ TokenFn.at
Stands fn ch (compare c) = (fn ≡ TokenFn.cmp) × (ch ≡ c)
Stands fn ch reprint = fn ≡ TokenFn.pipe

-- The function is evaluated before the argument.
pub data Evals : Term → World → Value → World → Type 0 where
  eval_leaf : {t : Token} {v : Value} {w : World} → Stands t.fn t.ch v → Evals (leaf t) w v w
  eval_app :
      {ch : ℕ} {l r : Term} {f x y : Value} {w w1 w2 w3 : World}
      → Evals l w f w1
      → Evals r w1 x w2
      → Applies f x w2 y w3
      → Evals (app ch l r) w y w3

-- How many elements of the pool an application takes, and by how many the reference counts may grow,
-- if a segment of the stack has `n` places: by as many where a segment may be copied, and by one
-- where a function is put on the stack or held.
abbrev pub apply_cells : {f x y : Value} {w w' : World} → Applies f x w y w' → ℕ
apply_cells apply_constant = 1
apply_cells apply_constant_of = 0
apply_cells apply_distribute = 1
apply_cells apply_distribute_of = 1
apply_cells (apply_distribute_both a b c) = apply_cells a + (apply_cells b + apply_cells c)
apply_cells apply_identity = 0
apply_cells apply_void = 0
apply_cells apply_printer = 0
apply_cells (apply_reader a) = apply_cells a
apply_cells (apply_compare a) = apply_cells a
apply_cells (apply_reprint a) = apply_cells a

abbrev pub apply_grows : ℕ → {f x y : Value} {w w' : World} → Applies f x w y w' → ℕ
apply_grows n apply_constant = 1
apply_grows n apply_constant_of = 1
apply_grows n apply_distribute = 1
apply_grows n apply_distribute_of = 2
apply_grows n (apply_distribute_both a b c) =
    3 + n + (apply_grows n a + (n + n + (apply_grows n b + (n + (apply_grows n c + n)))))
apply_grows n apply_identity = 0
apply_grows n apply_void = 0
apply_grows n apply_printer = 0
apply_grows n (apply_reader a) = 1 + n + (apply_grows n a + n)
apply_grows n (apply_compare a) = 1 + n + (apply_grows n a + n)
apply_grows n (apply_reprint a) = 1 + n + (apply_grows n a + n)

-- Likewise for a term.
abbrev pub cells : {t : Term} {y : Value} {w w' : World} → Evals t w y w' → ℕ
cells (eval_leaf s) = 0
cells (eval_app l r a) = cells l + (cells r + apply_cells a)

abbrev pub grows : ℕ → {t : Term} {y : Value} {w w' : World} → Evals t w y w' → ℕ
grows n (eval_leaf s) = 0
grows n (eval_app l r a) = grows n l + (1 + (grows n r + (n + apply_grows n a)))
