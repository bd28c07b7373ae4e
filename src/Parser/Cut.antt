-- ===== src/Parser/Cut.antt =====
-- The parser on token lists that stop inside a term.
use u6a.Base.{
  ℕ, zero, suc, ◌+◌, ◌-◌, ◌≤◌, ◌≡◌, ◌≢◌, refl, ap, List, [], ◌∷◌, ◌++◌, Result, ok, length,
  length-append, replicate, append_assoc, arith, ◌⊎◌, inl, inr, Bool-cases, ◌==◌, ==→eq, ==→ne,
}
use u6a.Defs.{Token, token, AstNode, ast_node, blank}
use u6a.Defs.TokenFn
use u6a.Parser.{ParseState, parse_state, parse_step, parse_loop, ParseError}
use u6a.Parser.Term.{
  Term, leaf, app, IsWellFormed, root, args, flatten, width, body, length-args, length-body,
  root-ne-placeholder,
}
use u6a.Parser.Fill.{blanks, step_left, step_right, loop-args}
use u6a.Parser.Accepts.{replicate-append, blanks-replicate}

pub data Cut : List Token → Type 0 where
  empty : Cut []
  inner : (ch : ℕ) {xs : List Token} → Cut xs → Cut (token TokenFn.app ch ∷ xs)
  outer :
      (ch : ℕ) (l : Term) {xs : List Token}
      → IsWellFormed l
      → Cut xs
      → Cut (token TokenFn.app ch ∷ (flatten l ++ xs))

-- No token has function 0.
abbrev pub Valid : List Token → Type 0
Valid [] = Unit
Valid (t ∷ ts) = (t.fn ≢ TokenFn.placeholder) × Valid ts

Valid-append : (xs ys : List Token) → Valid (xs ++ ys) → Valid ys
Valid-append [] ys v = v
Valid-append (x ∷ xs) ys v = Valid-append xs ys v.1

abbrev pub Starts : List Token → Type 0
Starts ts = (t : Term) × (rest : List Token) × IsWellFormed t × (ts ≡ flatten t ++ rest)

-- A list is cut short inside a term, or starts with one.
pub split : (f : ℕ) (ts : List Token) → length ts ≤ f → Valid ts → Cut ts ⊎ Starts ts
split f [] h v = inl empty
split zero (x ∷ xs) h v = absurd (omega arith)
split (suc f) (x ∷ xs) h v = elim (Bool-cases (x.fn == TokenFn.app)) [
  | inr ne ↦ inr (leaf x, xs, (v.0, ==→ne x.fn TokenFn.app ne), refl)
  | inl eq ↦
      let is : x ≡ token TokenFn.app x.ch =
        λ i. record { fn = ==→eq x.fn TokenFn.app eq i; ch = x.ch } in
      elim (split f xs (omega arith) v.1) [
        | inl c ↦ inl (rw is (inner x.ch c))
        | inr (l, rest, w, p) ↦
            let shorter : length rest ≤ f =
              omega
                (arith, ap (λ (q : List Token). length q) p, length-append {0} (flatten l) rest) in
            elim (split f rest shorter (Valid-append (flatten l) rest (rw p at v.1))) [
              | inl c ↦ inl (rw (is, p) (outer x.ch l w c))
              | inr (r, rest', w', p') ↦
                  let tail : xs ≡ args (app x.ch l r) ++ rest' =
                    rw (p, p', append_assoc (args l) (flatten r) rest') in
                  inr (app x.ch l r, rest', (w, w'), λ j. is j ∷ tail j)
            ]
      ]
]

-- A state in which the next token becomes a child, with room for `k` nodes: a left child, or the
-- right child behind a left one.
pub data Ready (i k : ℕ) (st : ParseState) : Type 0 where
  left :
      (E : List AstNode) (n : ℕ) (P : List ℕ)
      → st ≡ parse_state (E ++ replicate k blank) (n ∷ P)
      → n + 1 ≡ length E
      → i + 2 ≡ length E
      → Ready i k st
  right :
      (E B : List AstNode) (v : Token) (s n : ℕ) (P : List ℕ)
      → v.fn ≢ TokenFn.placeholder
      → st ≡ parse_state (E ++ ast_node v s ∷ (B ++ replicate k blank)) (n ∷ P)
      → n + 1 ≡ length E
      → i + 2 ≡ length E + suc (length B)
      → Ready i k st

abbrev some_term : ℕ → Term
some_term ch = app ch (leaf (token TokenFn.i 0)) (leaf (token TokenFn.i 0))

-- After an application's token the next one becomes its left child.
abbrev Opened : ℕ → ℕ → Result ParseError ParseState → Type 0
Opened i k r =
    (E : List AstNode) × (n : ℕ) × (P : List ℕ) × (r
      ≡ ok (parse_state (E ++ replicate k blank) (n ∷ P)))
    × (n + 1 ≡ length E)
    × (i + 2 ≡ length E)

Ready-app :
    (i k ch : ℕ) {st : ParseState}
    → Ready i (suc k) st
    → Opened (i + 1) k (parse_step i (token TokenFn.app ch) st.ast st.pstack)
Ready-app i k ch (left E n P e h g) =
    let a : AstNode = ast_node (token TokenFn.app ch) 0 in
    let l : length (E ++ a ∷ []) ≡ length E + 1 = length-append E (a ∷ []) in
    (
      E ++ a ∷ [],
      n + 1,
      n ∷ P,
      rw (e, append_assoc E (a ∷ []) (replicate k blank))
          (step_left i (some_term ch) E (replicate k blank) P n (omega arith) h),
      omega arith,
      omega arith,
    )
Ready-app i k ch (right E B v s n P ne e h g) =
    let a : AstNode = ast_node (token TokenFn.app ch) 0 in
    let F : List AstNode = ast_node v (i + 2) ∷ (B ++ a ∷ []) in
    let l : length (E ++ F) ≡ length E + suc (length (B ++ a ∷ [])) = length-append E F in
    let l' : length (B ++ a ∷ []) ≡ length B + 1 = length-append B (a ∷ []) in
    (
      E ++ F,
      i + 2,
      P,
      rw (e, append_assoc E F (replicate k blank), append_assoc B (a ∷ []) (replicate k blank))
          (step_right i (some_term ch) E B (replicate k blank) v s P n (omega arith) ne h g),
      omega arith,
      omega arith,
    )

-- The tokens of a whole term, where the next token becomes a left child.
loop-left :
    (l : Term) (i k j n : ℕ) (E : List AstNode) (P : List ℕ) (xs : List Token)
    → IsWellFormed l
    → n + 1 ≡ length E
    → i + 2 ≡ length E
    → j ≡ suc (width l) + k
    → (st : ParseState) × (parse_loop i
          (flatten l ++ xs)
          (parse_state (E ++ replicate j blank) (n ∷ P))
        ≡ parse_loop (i + 1 + width l) xs st)
      × Ready (i + 1 + width l) k st
unfolding parse_loop
loop-left l i k j n E P xs w h g e = (
  parse_state (E ++ ast_node (root l) 0 ∷ (body (n + 1) l ++ replicate k blank)) (n ∷ P),
  rw
      (
        replicate-append (suc (width l)) k e,
        blanks-replicate l,
        step_left i l E (blanks l ++ replicate k blank) P n w h,
      )
      (loop-args l (i + 1) (n + 1) E (replicate k blank) (n ∷ P) xs w h (omega arith)),
  right E (body (n + 1) l) (root l) 0 n P (root-ne-placeholder l w) refl h
      (omega (arith, length-body (n + 1) l)),
)

abbrev pub Stuck : Result ParseError ParseState → Type 0
Stuck r = (ast : List AstNode) × (n : ℕ) × (P : List ℕ) × (r ≡ ok (parse_state ast (n ∷ P)))

-- From such a state the loop over a list that is cut short leaves a stack that is not empty.
pub loop-Cut :
    {xs : List Token} (c : Cut xs) (i k : ℕ) {st : ParseState}
    → Ready i k st
    → length xs ≤ k
    → Stuck (parse_loop i xs st)
unfolding parse_loop
loop-Cut empty i k (left E n P e h g) f = (_, _, _, ap ok e)
loop-Cut empty i k (right E B v s n P ne e h g) f = (_, _, _, ap ok e)
loop-Cut (inner ch c) i zero r f = absurd (omega arith)
loop-Cut (inner ch c) i (suc k) r f =
    let (E, n, P, e, h, g) = Ready-app i k ch r in
    rw e (loop-Cut c (i + 1) k (left E n P refl h g) (omega arith))
loop-Cut (outer ch l w c) i zero r f = absurd (omega arith)
loop-Cut (outer ch l {xs} w c) i (suc k) r f =
    let (E, n, P, e, h, g) = Ready-app i k ch r in
    let fits : suc (width l) + length xs ≤ k =
      omega (arith, f, length-append {0} (flatten l) xs, length-args l) in
    let (st, q, r') = loop-left l (i + 1) (k - suc (width l)) k n E P xs w h g (omega arith) in
    rw (e, q) (loop-Cut c (i + 1 + 1 + width l) (k - suc (width l)) r' (omega arith))
