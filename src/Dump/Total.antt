-- ===== src/Dump/Total.antt =====
-- The dump of what the compiler generates (dump.c on the text of codegen.c).
use u6a.Base.{
  ℕ, suc, ◌+◌, ◌≡◌, ◌≢◌, refl, ◌⊎◌, inl, inr, Bool, true, none, some, List, [], ◌∷◌, ◌++◌, length,
  arith, Bool-cases, ◌==◌, ==→eq,
}
use u6a.Defs.{Token, token, Memory}
use u6a.Defs.TokenFn
use u6a.VmDefs.{offset, VmIns, vm_ins, no_token}
use u6a.VmDefs.Opcode
use u6a.Lexer.Grammar.{
  Symbol, token_of, tokens_of, Word, letter, newline, out, cmp, Source, end, space, comment,
  last_comment, word, IsText,
}
use u6a.Parser.Term.{Term, leaf, app, IsWellFormed, flatten}
use u6a.Parser.Accepts.{tree}
use u6a.Codegen.Correct.{generate-code}
use u6a.Codegen.{generate, app_ins, la_ins}
use u6a.Codegen.Compile.{code, constants, prints, makes_string}
use u6a.Dump.{write_mnemonic_ins, write_lines, dump_mnemonics}
use u6a.Compiler.Outcomes.{program}
use u6a.Dump.Names.{IsNamed, IsDumped, name, write_mnemonic_ins-IsDumped}

abbrev AllDumped : List VmIns → Type 0
AllDumped [] = Unit
AllDumped (x ∷ xs) = IsDumped x × AllDumped xs

abbrev AllText : List ℕ → Type 0
AllText [] = Unit
AllText (c ∷ cs) = IsText c × AllText cs

abbrev LeavesNamed : Term → Type 0
LeavesNamed (leaf t) = IsNamed t
LeavesNamed (app ch l r) = LeavesNamed l × LeavesNamed r

AllDumped-append : (xs ys : List VmIns) → AllDumped xs → AllDumped ys → AllDumped (xs ++ ys)
AllDumped-append [] ys f g = g
AllDumped-append (x ∷ xs) ys f g = (f.0, AllDumped-append xs ys f.1 g)

AllDumped-prints : (cs : List ℕ) → AllText cs → AllDumped (prints cs)
AllDumped-prints [] h = tt
AllDumped-prints (c ∷ cs) h = (
  inl (token TokenFn.out c, no_token, refl, inr (inl refl, h.0), inl (omega arith)),
  AllDumped-prints cs h.1,
)

app_ins-IsDumped : (a b : Token) → IsNamed a → IsNamed b → IsDumped (app_ins a b)
app_ins-IsDumped a b f g = inl (a, b, refl, f, g)

no_token-IsNamed : IsNamed no_token
no_token-IsNamed = inl (omega arith)

IsNamed-IsText : (t : Token) → IsNamed t → (t.fn == TokenFn.out) ≡ true → IsText t.ch
IsNamed-IsText t (inl h) e =
    let q : t.fn ≡ TokenFn.out = ==→eq t.fn TokenFn.out e in absurd (omega arith)
IsNamed-IsText t (inr (f, h)) e = h

la_ins-IsDumped : IsDumped la_ins
la_ins-IsDumped = inr (inl (inl refl))

code-AllDumped :
    (o : Bool) (t : Term) (p q : ℕ) (c : List ℕ)
    → LeavesNamed t
    → AllText c
    → AllDumped (code o p q c t)
unfolding code
code-AllDumped o (leaf t) p q c w h = tt
code-AllDumped o (app ch (leaf a) (leaf b)) p q c w h =
    elim (Bool-cases (makes_string o (length c) a)) [
      | inl e ↦ rw e (inr (inr (q, refl)), (app_ins-IsDumped no_token b no_token-IsNamed w.1, tt))
      | inr e ↦ rw e (app_ins-IsDumped a b w.0 w.1, AllDumped-prints c h)
    ]
code-AllDumped o (app ch (leaf a) (app ch' l r)) p q c w h = elim (Bool-cases (a.fn == TokenFn.d)) [
  | inl e ↦ rw e (
    inr (inl (inr (inr refl))),
    AllDumped-append (code o (suc p) q [] (app ch' l r)) (la_ins ∷ prints c)
        (code-AllDumped o (app ch' l r) (suc p) q [] w.1 tt)
        (la_ins-IsDumped, AllDumped-prints c h),
  )
  | inr e ↦ elim (Bool-cases (a.fn == TokenFn.out)) [
    | inl e' ↦
        rw (e, e') (code-AllDumped o (app ch' l r) p q (a.ch ∷ c) w.1 (IsNamed-IsText a w.0 e', h))
    | inr e' ↦
        rw (e, e')
          (AllDumped-append (code o p q [] (app ch' l r)) (app_ins a no_token ∷ prints c)
            (code-AllDumped o (app ch' l r) p q [] w.1 tt)
            (app_ins-IsDumped a no_token w.0 no_token-IsNamed, AllDumped-prints c h))
  ]
]
code-AllDumped o (app ch (app ch' l r) (leaf b)) p q c w h =
    AllDumped-append (code o p q [] (app ch' l r)) (app_ins no_token b ∷ prints c)
      (code-AllDumped o (app ch' l r) p q [] w.0 tt)
      (app_ins-IsDumped no_token b no_token-IsNamed w.1, AllDumped-prints c h)
code-AllDumped o (app ch (app ch' l r) (app ch'' l' r')) p q c w h =
    let first : List VmIns = code o p q [] (app ch' l r) in
    let p' : ℕ = suc (p + length first) in
    let q' : ℕ = q + length (constants o [] (app ch' l r)) in
    let second : List VmIns = code o p' q' [] (app ch'' l' r') in
    AllDumped-append first
      (vm_ins Opcode.sa (offset (p + length first + length second + 2))
        ∷ (second ++ la_ins ∷ prints c))
      (code-AllDumped o (app ch' l r) p q [] w.0 tt)
      (
        inr (inl (inr (inl refl))),
        AllDumped-append second (la_ins ∷ prints c)
            (code-AllDumped o (app ch'' l' r') p' q' [] w.1 tt)
            (la_ins-IsDumped, AllDumped-prints c h),
      )

write_lines-AllDumped :
    (position : ℕ) (text : List VmIns) → AllDumped text → write_lines position text ≢ none
unfolding write_lines
write_lines-AllDumped position [] h = λ q. cc
write_lines-AllDumped position (ins ∷ text) h =
    let (line, e) =
      name (write_mnemonic_ins position ins) (write_mnemonic_ins-IsDumped position ins h.0) in
    let (lines, e') =
      name (write_lines (position + 1) text) (write_lines-AllDumped (position + 1) text h.1) in
    rw (e, write_lines) (rw e' (λ q. cc))

-- An application is named where it is read as one.
abbrev IsNamedOrApp : Token → Type 0
IsNamedOrApp t = (t.fn ≡ TokenFn.app) ⊎ IsNamed t

abbrev AllNamed : List Token → Type 0
AllNamed [] = Unit
AllNamed (t ∷ ts) = IsNamedOrApp t × AllNamed ts

AllNamed-left : (xs ys : List Token) → AllNamed (xs ++ ys) → AllNamed xs
AllNamed-left [] ys h = tt
AllNamed-left (x ∷ xs) ys h = (h.0, AllNamed-left xs ys h.1)

AllNamed-right : (xs ys : List Token) → AllNamed (xs ++ ys) → AllNamed ys
AllNamed-right [] ys h = h
AllNamed-right (x ∷ xs) ys h = AllNamed-right xs ys h.1

flatten-LeavesNamed : (t : Term) → IsWellFormed t → AllNamed (flatten t) → LeavesNamed t
flatten-LeavesNamed (leaf t) w h = elim h.0 [ inl e ↦ absurd (w.1 e) | inr n ↦ n ]
flatten-LeavesNamed (app ch l r) w h = (
  flatten-LeavesNamed l w.0 (AllNamed-left (flatten l) (flatten r) h.1),
  flatten-LeavesNamed r w.1 (AllNamed-right (flatten l) (flatten r) h.1),
)

Word-IsNamedOrApp :
    {fn : ℕ} {input rest : List ℕ} {y : Symbol} (held : ℕ)
    → Word fn input y rest
    → IsNamedOrApp (token_of held y)
Word-IsNamedOrApp held (letter l) = ground arith
Word-IsNamedOrApp held (newline h) = inr (inr (inl refl, inr refl))
Word-IsNamedOrApp held (out h t) = inr (inr (inl refl, t))
Word-IsNamedOrApp held (cmp h t) = inr (inr (inr refl, t))

Source-AllNamed :
    {input : List ℕ} {ys : List Symbol} (m : Memory) (i : ℕ)
    → Source input ys
    → AllNamed (tokens_of m i ys)
Source-AllNamed m i end = tt
Source-AllNamed m i (space h s) = Source-AllNamed m i s
Source-AllNamed m i (comment t h n s) = Source-AllNamed m i s
Source-AllNamed m i (last_comment h n) = tt
Source-AllNamed m i (word w s) = (Word-IsNamedOrApp (m.fill i) w, Source-AllNamed m (suc i) s)

-- For the source text of a term, every name that the dump of the program's text asks for is there:
-- the lines are written, and no statement that is taken to be unreachable is reached.
pub dump_mnemonics-generate :
    (m : Memory) (o : Bool) (t : Term) {input : List ℕ} {ys : List Symbol}
    → Source input ys
    → IsWellFormed t
    → tokens_of m 0 ys ≡ flatten t
    → (lines : List ℕ) × (dump_mnemonics (generate o (tree t)).text ≡ some lines)
unfolding dump_mnemonics
dump_mnemonics-generate m o t {input} {ys} s w same =
    let leaves : LeavesNamed t = flatten-LeavesNamed t w (rw same at (Source-AllNamed m 0 s)) in
    let all : AllDumped (code o 0 0 [] (program t)) =
      code-AllDumped o (program t) 0 0 [] (inl (omega arith), leaves) tt in
    let (lines, e) =
      name (write_lines 0 (code o 0 0 [] (program t)))
        (write_lines-AllDumped 0 (code o 0 0 [] (program t)) all) in
    (
      b'.' ∷ b't' ∷ b'e' ∷ b'x' ∷ b't' ∷ 10 ∷ lines,
      rw (generate-code o 0 (leaf (token TokenFn.e 0)) t ((omega arith, omega arith), w))
          (rw (e, dump_mnemonics) refl),
    )
