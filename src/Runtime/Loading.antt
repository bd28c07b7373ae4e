-- ===== src/Runtime/Loading.antt =====
-- runtime.c: the text that the loader leaves, with the instructions of the runtime and the code.
use u6a.Base.{
  ℕ, suc, ◌+◌, ◌≡◌, refl, ◌∙◌, ap, Bool, true, false, some, List, [], ◌∷◌, ◌++◌, map, length,
  length-append, if◌then◌else◌, ltb, ◌&&◌, Bool-cases, inl, inr, append_assoc,
}
use u6a.VmDefs.{VmIns}
use u6a.Bytecode.{Word4, operand_word}
use u6a.Loader.{RawIns, raw_ins, swap_word, has_offset, convert, RuntimeOptions, Machine}
use u6a.Loader.RoundTrip.{raw, loaded}
use u6a.Parser.Term.{Term}
use u6a.Codegen.Compile.{code, constants}
use u6a.Compiler.Outcomes.{program}
use u6a.Runtime.{Program}
use u6a.Runtime.Step.{ins_at}
use u6a.Runtime.Yields.{Substituted}
use u6a.Runtime.Code.{CodeAt}

ins_at-append : (A B : List RawIns) (i : RawIns) → ins_at (A ++ i ∷ B) (length A) ≡ some i
unfolding ins_at
ins_at-append [] B i = refl
ins_at-append (x ∷ A) B i = ins_at-append A B i

-- Which operands the loader leaves as they are.
operand_kept :
    (converted offset little : Bool) (w : Word4)
    → (offset && little) ≡ false
    → (if converted && offset then swap_word little w else w) ≡ w
unfolding swap_word
operand_kept false offset little w k = refl
operand_kept true false little w k = refl
operand_kept true true false w k = refl
operand_kept true true true w k = cc

-- The code stands behind the instructions of the runtime in the text that is loaded.
pub CodeAt-convert :
    (little : Bool) (n j p : ℕ) (A text : List RawIns) (is : List VmIns)
    → text ≡ A ++ convert little n j (map raw is)
    → p ≡ length A
    → CodeAt little text p is
unfolding convert raw
CodeAt-convert little n j p A text [] e h = tt
CodeAt-convert little n j p A text (i ∷ is) e h =
    let w : Word4 =
      if ltb j n && has_offset i.opcode
      then swap_word little (operand_word i.operand)
      else operand_word i.operand in
    let x : RawIns = raw_ins i.opcode i.opcode_ex w in
    let rest : List RawIns = convert little n (j + 1) (map raw is) in
    let same : convert little n j (map raw (i ∷ is)) ≡ x ∷ rest =
      elim (Bool-cases (ltb j n && has_offset i.opcode)) [
        | inl c ↦ rw c refl
        | inr c ↦ rw c refl
      ] in
    let here : text ≡ A ++ x ∷ rest = rw same at e in
    (
      w,
      rw (here, h) (ins_at-append A rest x),
      operand_kept (ltb j n) (has_offset i.opcode) little (operand_word i.operand),
      CodeAt-convert little n (j + 1) (p + 1) (A ++ x ∷ []) text is
          (here ∙ rw (append_assoc A (x ∷ []) rest) refl) (rw (length-append A (x ∷ []), h) refl),
    )

-- A run of the interpreter on a loaded text.
abbrev pub execution : (little : Bool) → (ℕ → Bool) → (fuel : ℕ) → Machine → Program
execution little grants fuel machine = record {
  machine = machine;
  little = little;
  grants = grants;
  fuel = fuel;
}

-- The program of a term as it is loaded, optimised or not.
abbrev pub loaded_program : (o little : Bool) → RuntimeOptions → Term → List ℕ → Machine
loaded_program o little opts t rest =
    loaded little opts (code o 0 0 [] (program t)) (constants o [] (program t)) rest

pub loaded-Substituted :
    (o little : Bool) (opts : RuntimeOptions) (t : Term) (input : List ℕ) (grants : ℕ → Bool)
    (fuel : ℕ)
    → Substituted (execution little grants fuel (loaded_program o little opts t input))
unfolding ins_at
loaded-Substituted o little opts t input grants fuel = (refl, refl, refl, refl, refl)

pub length-convert :
    (little : Bool) (n j : ℕ) (text : List RawIns) → length (convert little n j text) ≡ length text
unfolding convert
length-convert little n j [] = refl
length-convert little n j (i ∷ text) = ap suc (length-convert little n (j + 1) text)

pub length-raws : (is : List VmIns) → length (map raw is) ≡ length is
length-raws [] = refl
length-raws (i ∷ is) = ap suc (length-raws is)
