-- ===== src/Runtime/Legible.antt =====
-- When the constant strings of a program can be read.
use u6a.Base.{
  ℕ, zero, suc, ◌+◌, ◌<◌, ◌^◌, ◌≡◌, ◌≢◌, refl, ◌∙◌, sym, ap, Bool, false, some, List, [], ◌∷◌, ◌++◌,
  ◌⊎◌, inl, inr, drop, arith, length, length-append, append_assoc, append-nil, ne→==, ◌==◌, ==→eq,
  Bool-cases,
}
use u6a.Defs.{Token}
use u6a.Defs.TokenFn
use u6a.Parser.Term.{Term, leaf, app}
use u6a.Codegen.Compile.{makes_string, constants}
use u6a.Runtime.{Program}
use u6a.Runtime.Apply.{c_string}
use u6a.Runtime.Strings.{Readable}
use u6a.Compiler.Outcomes.{program}
use u6a.Runtime.Computes.{makes_string-out}

-- Nothing that `.` prints ends a string.
abbrev pub HasText : Token → Type 0
HasText t = t.fn ≡ TokenFn.out → t.ch ≢ 0

abbrev pub IsPrintable : Term → Type 0
IsPrintable (leaf t) = HasText t
IsPrintable (app ch l r) = IsPrintable l × IsPrintable r

abbrev NoZero : List ℕ → Type 0
NoZero [] = Unit
NoZero (ch ∷ text) = (ch ≢ 0) × NoZero text

-- The constants stand at a position.
abbrev StandsAt : List ℕ → ℕ → List ℕ → Type 0
StandsAt rodata q cs = (q + length cs < 2 ^ 32) × (rest : List ℕ) × (drop q rodata ≡ cs ++ rest)

c_string-text : (text rest : List ℕ) → NoZero text → c_string (text ++ 0 ∷ rest) ≡ some text
unfolding c_string
c_string-text [] rest n = refl
c_string-text (ch ∷ text) rest (z, n) = rw (ne→== ch 0 z, c_string-text text rest n) refl

drop-drop : (q n : ℕ) (xs : List ℕ) → drop (q + n) xs ≡ drop n (drop q xs)
drop-drop zero n xs = ap (λ k. drop k xs) (let e : 0 + n ≡ n = omega arith in e)
drop-drop (suc q) n [] = rw (let e : suc q + n ≡ suc (q + n) = omega arith in e) (drop_nil n)
  where
    drop_nil : (n : ℕ) → [] ≡ drop {A = ℕ} n []
    drop_nil zero = refl
    drop_nil (suc n) = refl
drop-drop (suc q) n (x ∷ xs) =
    rw (let e : suc q + n ≡ suc (q + n) = omega arith in e) (drop-drop q n xs)

drop-append : (xs ys : List ℕ) → drop (length xs) (xs ++ ys) ≡ ys
drop-append [] ys = refl
drop-append (x ∷ xs) ys = drop-append xs ys

StandsAt-append :
    (rodata : List ℕ) (q : ℕ) (a b : List ℕ)
    → StandsAt rodata q (a ++ b)
    → StandsAt rodata q a × StandsAt rodata (q + length a) b
StandsAt-append rodata q a b (small, rest, e) =
    let there : drop q rodata ≡ a ++ (b ++ rest) = e ∙ append_assoc a b rest in
    (
      (omega (arith, length-append a b), b ++ rest, there),
      (
        omega (arith, length-append a b),
        rest,
        drop-drop q (length a) rodata ∙ (ap (drop (length a)) there ∙ drop-append a (b ++ rest)),
      ),
    )

nil_append : (xs ys : List ℕ) → xs ++ ys ≡ [] → (xs ≡ []) × (ys ≡ [])
nil_append [] ys e = (refl, e)
nil_append (x ∷ xs) ys e = cc

-- A program without constant strings.
pub Readable-none :
    (pr : Program) (o : Bool) (t : Term) (q : ℕ) (c : List ℕ)
    → constants o c t ≡ []
    → Readable pr o q c t
unfolding Readable constants
Readable-none pr o (leaf t) q c e = tt
Readable-none pr o (app ch (leaf a) (leaf b)) q c e =
    elim (Bool-cases (makes_string o (length c) a)) [ inl s ↦ cc (rw s at e) | inr n ↦ rw n tt ]
Readable-none pr o (app ch (leaf a) (app ch' l r)) q c e = elim (Bool-cases (a.fn == TokenFn.d)) [
  | inl d ↦
      let not_out : (a.fn == TokenFn.out) ≡ false = rw (==→eq a.fn TokenFn.d d) refl in
      rw not_out (Readable-none pr o (app ch' l r) q [] (rw d at e))
  | inr nd ↦ elim (Bool-cases (a.fn == TokenFn.out)) [
    | inl out ↦ rw out (Readable-none pr o (app ch' l r) q (a.ch ∷ c) (rw (nd, out) at e))
    | inr other ↦ rw other (Readable-none pr o (app ch' l r) q [] (rw (nd, other) at e))
  ]
]
Readable-none pr o (app ch (app ch' l r) (leaf b)) q c e = Readable-none pr o (app ch' l r) q [] e
Readable-none pr o (app ch (app ch' l r) (app ch'' l' r')) q c e =
    let (e1, e2) = nil_append (constants o [] (app ch' l r)) (constants o [] (app ch'' l' r')) e in
    (
      Readable-none pr o (app ch' l r) q [] e1,
      Readable-none pr o (app ch'' l' r') (q + length (constants o [] (app ch' l r))) [] e2,
    )

-- A program on a host that stores the most significant byte of an integer first, with its constants
-- in memory.
pub Readable-big :
    (pr : Program) (o : Bool) (t : Term) (q : ℕ) (c : List ℕ)
    → pr.little ≡ false
    → IsPrintable t
    → NoZero c
    → StandsAt pr.machine.rodata q (constants o c t)
    → Readable pr o q c t
unfolding Readable constants
Readable-big pr o (leaf t) q c big pt n at = tt
Readable-big pr o (app ch (leaf a) (leaf b)) q c big pt n at =
    elim (Bool-cases (makes_string o (length c) a)) [
      | inl s ↦
          let (small, rest, e) = rw s at at in
          let text : List ℕ = a.ch ∷ c in
          let nonzero : NoZero (a.ch ∷ c) = (pt.0 (makes_string-out o (length c) a s), n) in
          rw s (
            big,
            omega (arith, small),
            ap c_string (e ∙ append_assoc (a.ch ∷ c) (0 ∷ []) rest)
                ∙ c_string-text (a.ch ∷ c) rest nonzero,
          )
      | inr n ↦ rw n tt
    ]
Readable-big pr o (app ch (leaf a) (app ch' l r)) q c big pt n at =
    elim (Bool-cases (a.fn == TokenFn.d)) [
      | inl d ↦
          let not_out : (a.fn == TokenFn.out) ≡ false = rw (==→eq a.fn TokenFn.d d) refl in
          rw not_out (Readable-big pr o (app ch' l r) q [] big pt.1 tt (rw d at at))
      | inr nd ↦ elim (Bool-cases (a.fn == TokenFn.out)) [
        | inl out ↦ rw out (
            Readable-big pr o (app ch' l r) q (a.ch ∷ c) big pt.1
              (pt.0 (==→eq a.fn TokenFn.out out), n) (rw (nd, out) at at))
        | inr other ↦
            rw other (Readable-big pr o (app ch' l r) q [] big pt.1 tt (rw (nd, other) at at))
      ]
    ]
Readable-big pr o (app ch (app ch' l r) (leaf b)) q c big pt n at =
    Readable-big pr o (app ch' l r) q [] big pt.0 tt at
Readable-big pr o (app ch (app ch' l r) (app ch'' l' r')) q c big pt n at =
    let first : List ℕ = constants o [] (app ch' l r) in
    let (at1, at2) =
      StandsAt-append pr.machine.rodata q first (constants o [] (app ch'' l' r')) at in
    (
      Readable-big pr o (app ch' l r) q [] big pt.0 tt at1,
      Readable-big pr o (app ch'' l' r') (q + length first) [] big pt.1 tt at2,
    )

-- The strings of the program of a term can be read when its constants have been loaded: there are
-- none, or the host stores the most significant byte of an integer first.
abbrev pub IsLegible : (o little : Bool) → Term → Type 0
IsLegible o little t =
    (constants o [] (program t) ≡ [])
    ⊎ ((little ≡ false) × IsPrintable t × (length (constants o [] (program t)) < 2 ^ 32))

pub IsLegible-Readable :
    (pr : Program) (o : Bool) (t : Term)
    → pr.machine.rodata ≡ constants o [] (program t)
    → IsLegible o pr.little t
    → Readable pr o 0 [] (program t)
IsLegible-Readable pr o t same (inl none_made) = Readable-none pr o (program t) 0 [] none_made
IsLegible-Readable pr o t same (inr (big, printable, small)) =
    Readable-big pr o (program t) 0 [] big ((λ e. absurd (omega arith)), printable) tt
      (omega arith, [], same ∙ sym (append-nil (constants o [] (program t))))
