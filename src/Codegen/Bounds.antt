-- ===== src/Codegen/Bounds.antt =====
-- The sizes of the buffers of the generator, and where its jumps lead.
use u6a.Base.{
  ℕ, suc, ◌+◌, ◌≤◌, ◌<◌, ◌≡◌, refl, ap, Bool, true, false, List, [], ◌∷◌, ◌++◌, length,
  length-append, arith, ◌==◌, ◌||◌, if◌then◌else◌,
}
use u6a.Defs.{Token, token}
use u6a.Defs.TokenFn
use u6a.VmDefs.{Operand, offset, fns, VmIns, vm_ins, no_token}
use u6a.VmDefs.Opcode
use u6a.Parser.Term.{Term, leaf, app, IsWellFormed, root, width, encode, length-body}
use u6a.Parser.Accepts.{tree}
use u6a.Codegen.{app_ins, la_ins, generate}
use u6a.Codegen.Compile.{is_app, prints, makes_string, constants, code}
use u6a.Codegen.Correct.{generate-code}

length-prints : (c : List ℕ) → length (prints c) ≡ length c
length-prints [] = refl
length-prints (x ∷ c) = ap suc (length-prints c)

-- An application has at most one instruction for each node behind its root and one for each
-- printing function above it.
length-code :
    (o : Bool) (t : Term) (p q : ℕ) (c : List ℕ) → length (code o p q c t) ≤ width t + length c
unfolding code
length-code o (leaf a) p q c = omega arith
length-code o (app ch l r) p q c =
    let first : List VmIns = code o p q [] l in
    let second : List VmIns =
      code o (suc (p + length first)) (q + length (constants o [] l)) [] r in
    let only : List VmIns = code o p q [] r in
    let behind : List VmIns = code o (suc p) q [] r in
    ground (
      arith,
      length-prints c,
      length-code o l p q [],
      length-code o r (suc (p + length first)) (q + length (constants o [] l)) [],
      length-code o r p q [],
      length-code o r (suc p) q [],
      length-code o r p q ((root l).ch ∷ c),
      length-append {0} first (
          vm_ins Opcode.sa (offset (p + length first + length second + 2))
          ∷ (second ++ la_ins ∷ prints c)),
      length-append {0} second (la_ins ∷ prints c),
      length-append {0} first (app_ins no_token (root r) ∷ prints c),
      length-append {0} behind (la_ins ∷ prints c),
      length-append {0} only (app_ins (root l) no_token ∷ prints c),
    )

-- It has one at least.
pub length-code-some :
    (o : Bool) (t : Term) (p q : ℕ) (c : List ℕ) → is_app t ≡ true → 1 ≤ length (code o p q c t)
unfolding code
length-code-some o (leaf a) p q c h = cc
length-code-some o (app ch l r) p q c h =
    let first : List VmIns = code o p q [] l in
    let second : List VmIns =
      code o (suc (p + length first)) (q + length (constants o [] l)) [] r in
    let only : List VmIns = code o p q [] r in
    let behind : List VmIns = code o (suc p) q [] r in
    ground (
      arith,
      length-code-some o r p q ((root l).ch ∷ c),
      length-append {0} first (
          vm_ins Opcode.sa (offset (p + length first + length second + 2))
          ∷ (second ++ la_ins ∷ prints c)),
      length-append {0} first (app_ins no_token (root r) ∷ prints c),
      length-append {0} only (app_ins (root l) no_token ∷ prints c),
    )

-- Without optimisation there are none.
pub constants-plain : (t : Term) (c : List ℕ) → constants false c t ≡ []
unfolding constants
constants-plain (leaf a) c = refl
constants-plain (app ch l r) c =
    ground (arith, constants-plain l [], constants-plain r [], constants-plain r ((root l).ch ∷ c))

length-constants :
    (o : Bool) (t : Term) (c : List ℕ) → length (constants o c t) ≤ width t + length c
unfolding constants
length-constants o (leaf a) c = omega arith
length-constants o (app ch l r) c = ground (
  arith,
  length-constants o l [],
  length-constants o r [],
  length-constants o r ((root l).ch ∷ c),
  length-append {0} (constants o [] l) (constants o [] r),
  length-append {0} c (0 ∷ []),
)

-- Every instruction and every constant has its place in the buffers, which have room for as many of
-- each as there are nodes.
pub generate-fits :
    (o : Bool) (ch : ℕ) (l r : Term)
    → IsWellFormed (app ch l r)
    → (length (generate o (encode 0 0 (app ch l r))).text ≤ length (encode 0 0 (app ch l r)))
      × (length (generate o (encode 0 0 (app ch l r))).rodata ≤ length (encode 0 0 (app ch l r)))
      × ((generate o (encode 0 0 (app ch l r))).stack ≡ [])
generate-fits o ch l r w = rw (generate-code o ch l r w) (
  omega (arith, length-code o (app ch l r) 0 0 [], length-body 0 (app ch l r)),
  omega (arith, length-constants o (app ch l r) [], length-body 0 (app ch l r)),
  refl,
)

abbrev pub is_jump : VmIns → Bool
is_jump i = i.opcode == Opcode.sa || i.opcode == Opcode.del

-- If the instruction at position `i` is a jump, it leads beyond the next one, and not beyond `b`.
abbrev pub LeadsForward : (i b : ℕ) → VmIns → Operand → Type 0
LeadsForward i b x (fns first second) = is_jump x ≡ false
LeadsForward i b x (offset n) = is_jump x ≡ true → (i + 1 < n) × (n ≤ b)

abbrev pub JumpsForward : (i b : ℕ) → List VmIns → Type 0
JumpsForward i b [] = Unit
JumpsForward i b (x ∷ xs) = LeadsForward i b x x.operand × JumpsForward (suc i) b xs

JumpsForward-append :
    (xs ys : List VmIns) (i b : ℕ) {j : ℕ}
    → j ≡ i + length xs
    → JumpsForward i b xs
    → JumpsForward j b ys
    → JumpsForward i b (xs ++ ys)
JumpsForward-append [] ys i b {j} e f g = rw (let q : i ≡ j = omega arith in q) g
JumpsForward-append (x ∷ xs) ys i b e f g =
    (f.0, JumpsForward-append xs ys (suc i) b (omega arith) f.1 g)

LeadsForward-weaken :
    (i b b' : ℕ) (x : VmIns) (o : Operand) → b ≤ b' → LeadsForward i b x o → LeadsForward i b' x o
LeadsForward-weaken i b b' x (fns first second) h f = f
LeadsForward-weaken i b b' x (offset n) h f = λ j. ((f j).0, omega (arith, (f j).1))

JumpsForward-weaken :
    (xs : List VmIns) (i b b' : ℕ) → b ≤ b' → JumpsForward i b xs → JumpsForward i b' xs
JumpsForward-weaken [] i b b' h f = tt
JumpsForward-weaken (x ∷ xs) i b b' h f =
    (LeadsForward-weaken i b b' x x.operand h f.0, JumpsForward-weaken xs (suc i) b b' h f.1)

JumpsForward-prints : (c : List ℕ) (i b : ℕ) → JumpsForward i b (prints c)
JumpsForward-prints [] i b = tt
JumpsForward-prints (x ∷ c) i b = (refl, JumpsForward-prints c (suc i) b)

-- The behaviour on a piece of code that ends at `p + length xs`.
abbrev Forward : ℕ → List VmIns → Type 0
Forward p xs = JumpsForward p (p + length xs) xs

Forward-append :
    (xs ys : List VmIns) (p : ℕ) → Forward p xs → Forward (p + length xs) ys → Forward p (xs ++ ys)
Forward-append xs ys p f g =
    JumpsForward-append xs ys p (p + length (xs ++ ys)) refl
      (JumpsForward-weaken xs p _ _ (omega (arith, length-append {0} xs ys)) f)
      (JumpsForward-weaken ys (p + length xs) _ _ (omega (arith, length-append {0} xs ys)) g)

Forward-plain :
    (x : VmIns) (xs : List VmIns) (p : ℕ)
    → LeadsForward p (p + suc (length xs)) x x.operand
    → Forward (suc p) xs
    → Forward p (x ∷ xs)
Forward-plain x xs p f g = (f, JumpsForward-weaken xs (suc p) _ _ (omega arith) g)

-- A jump behind a piece of code, over another piece and the `LA` that follows it.
Forward-over :
    (op : ℕ) (A : List VmIns) (c : List ℕ) (p : ℕ)
    → Forward (suc p) A
    → Forward p (vm_ins op (offset (p + length A + 2)) ∷ (A ++ la_ins ∷ prints c))
Forward-over op A c p f =
    Forward-plain (vm_ins op (offset (p + length A + 2))) (A ++ la_ins ∷ prints c) p
      (λ j. (omega arith, omega (arith, length-append {0} A (la_ins ∷ prints c))))
      (Forward-append A (la_ins ∷ prints c) (suc p) f ((λ j. cc), JumpsForward-prints c _ _))

Forward-if :
    (b : Bool) (p : ℕ) (xs ys : List VmIns)
    → Forward p xs
    → Forward p ys
    → Forward p (if b then xs else ys)
Forward-if true p xs ys f g = f
Forward-if false p xs ys f g = g

code-Forward : (o : Bool) (t : Term) (p q : ℕ) (c : List ℕ) → Forward p (code o p q c t)
unfolding code
code-Forward o (leaf a) p q c = tt
code-Forward o (app ch l r) p q c =
    let first : List VmIns = code o p q [] l in
    let fwd : Forward p first = code-Forward o l p q [] in
    let second : List VmIns =
      code o (suc (p + length first)) (q + length (constants o [] l)) [] r in
    Forward-if (is_app l) p _ _
      (Forward-if (is_app r) p _ _
        (Forward-append first _ p fwd (
          Forward-over Opcode.sa second c (p + length first)
            (code-Forward o r (suc (p + length first)) (q + length (constants o [] l)) [])))
        (Forward-append first _ p fwd (refl, JumpsForward-prints c _ _)))
      (Forward-if (is_app r) p _ _
        (Forward-if ((root l).fn == TokenFn.d) p _ _
          (Forward-over Opcode.del (code o (suc p) q [] r) c p (code-Forward o r (suc p) q []))
          (Forward-if ((root l).fn == TokenFn.out) p _ _ (code-Forward o r p q ((root l).ch ∷ c)) (
            Forward-append (code o p q [] r) _ p (code-Forward o r p q [])
              (refl, JumpsForward-prints c _ _))))
        (Forward-if (makes_string o (length c) (root l)) p _ _ ((λ j. cc), (refl, tt))
          (refl, JumpsForward-prints c _ _)))

abbrev pub EndsProgram : List VmIns → Type 0
EndsProgram text =
    (before : List VmIns) × (x : Token) × (text ≡ before ++ app_ins (token TokenFn.e 0) x ∷ [])
    × JumpsForward 0 (length before) text

program-app :
    (o : Bool) (t : Term)
    → is_app t ≡ true
    → EndsProgram (code o 0 0 [] (app 0 (leaf (token TokenFn.e 0)) t))
unfolding code
program-app o t h =
    let before : List VmIns = code o 0 0 [] t in
    let f : JumpsForward 0 (length before) before =
      JumpsForward-weaken before 0 _ _ (omega arith) (code-Forward o t 0 0 []) in
    rw h (
      before,
      no_token,
      refl,
      JumpsForward-append before (app_ins (token TokenFn.e 0) no_token ∷ []) 0 (length before) refl
          f (refl, tt),
    )

program-code :
    (o : Bool) (t : Term) → EndsProgram (code o 0 0 [] (app 0 (leaf (token TokenFn.e 0)) t))
unfolding code
program-code true (leaf a) = ([], a, refl, (refl, tt))
program-code false (leaf a) = ([], a, refl, (refl, tt))
program-code o (app ch l r) = program-app o (app ch l r) refl

-- The text of a whole program ends with the application of `e`, and every jump in it leads forward,
-- beyond the next instruction, to that last one or to one before it.
pub generate-EndsProgram :
    (o : Bool) (t : Term) → IsWellFormed t → EndsProgram (generate o (tree t)).text
generate-EndsProgram o t w =
    rw (generate-code o 0 (leaf (token TokenFn.e 0)) t ((omega arith, omega arith), w))
      (program-code o t)
