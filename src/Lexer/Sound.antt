-- ===== src/Lexer/Sound.antt =====
-- From the lexer to source texts.
use u6a.Base.{
  ℕ, zero, suc, ◌+◌, ◌*◌, ◌≤◌, ◌≡◌, refl, ap, sym, ◌∙◌, true, false, Bool-cases, Option-cases,
  Result-cases, some, List, [], ◌∷◌, ◌++◌, length, length-append, append-nil, ok, inl, inr, arith,
}
use u6a.Defs.{Token, Memory}
use u6a.Lexer.{
  LexState, isspace, next_fn, grow, switch, append_token, lex_loop, lex, init_len, max_len,
}
use u6a.Lexer.Grammar.{Symbol, Word, tokens_of, tokens_of-snoc, Source, space, word}
use u6a.Lexer.Capacity.{Room, Room-le, grow-Room}
use u6a.Lexer.Switch.{next_fn-none, next_fn-some, isspace-IsSpace, switch-Word}

-- The tokens behind those that are there.
abbrev Tokenizes : Memory → LexState → List ℕ → List Token → Type 0
Tokenizes m st input ts =
    (ys : List Symbol) × Source input ys
    × (ts ≡ st.tokens ++ tokens_of m (length st.tokens) ys)
    × (length ts ≤ max_len)

-- What the loop looks at stands in the text, or is the newline of a comment.
Source-space :
    {input rest : List ℕ} {fn : ℕ} {ys : List Symbol}
    → next_fn input ≡ some (fn, rest)
    → isspace fn ≡ true
    → Source rest ys
    → Source input ys
Source-space {input} {fn} {ys} e sp s = elim (next_fn-some input e).1 [
  | inl (ne, p) ↦ rw p (space (isspace-IsSpace fn sp) s)
  | inr (p, f) ↦ f ys s
]

Source-word :
    {input rest rest' : List ℕ} {fn : ℕ} {y : Symbol} {ys : List Symbol}
    → next_fn input ≡ some (fn, rest)
    → isspace fn ≡ false
    → Word fn rest y rest'
    → Source rest' ys
    → Source input (y ∷ ys)
unfolding isspace
Source-word {input} e ns w s = elim (next_fn-some input e).1 [
  | inl (ne, p) ↦ rw p (word w s)
  | inr (p, f) ↦ ground arith
]

lex_loop-Source :
    (fuel : ℕ) (m : Memory) (st : LexState) (input : List ℕ) (r : ℕ) {ts : List Token}
    → Room r st.size
    → length st.tokens ≤ st.size
    → lex_loop fuel m st input ≡ ok ts
    → Tokenizes m st input ts
unfolding lex_loop
lex_loop-Source zero m st input r h l e = cc
lex_loop-Source (suc fuel) m st input r {ts} h l e = elim (Option-cases (next_fn input)) [
  | inl n ↦
      let p : ts ≡ st.tokens = cc (rw (n, lex_loop) at e) in
      (
        [],
        next_fn-none input n,
        p ∙ sym (append-nil st.tokens),
        omega (arith, ap (λ (x : List Token). length x) p, Room-le r st.size h),
      )
  | inr ((fn, rest), q) ↦ elim (Bool-cases (isspace fn)) [
    | inl sp ↦
        let (ys, s, p, b) = lex_loop-Source fuel m st rest r h l (rw (q, lex_loop, sp) at e) in
        (ys, Source-space q sp s, p, b)
    | inr ns ↦ elim (Result-cases (grow m st)) [
      | inr (x, bad) ↦ cc (rw (q, lex_loop, ns, bad) at e)
      | inl (size, g) ↦ elim (Result-cases (switch (m.fill (length st.tokens)) fn rest)) [
        | inr (x, bad) ↦ cc (rw (q, lex_loop, ns, g, bad) at e)
        | inl ((t, rest'), w) ↦
            let (lt, (s, room)) = grow-Room m st r h l g in
            let (y, wd, p) = switch-Word (m.fill (length st.tokens)) fn rest w in
            let (ys, src, p', b) =
              lex_loop-Source fuel m (append_token st size t) rest' s room
                (omega (arith, length-append {0} st.tokens (t ∷ [])))
                (rw (q, lex_loop, ns, g, w) at e) in
            (y ∷ ys, Source-word q ns wd src, p' ∙ tokens_of-snoc m st.tokens t y ys p, b)
      ]
    ]
  ]
]

-- If the lexer succeeds, the input is a source text, the tokens are those of its symbols, each with
-- what its memory held where the symbol gives no character, and there are at most 4194304 of them.
pub lex-Source :
    (m : Memory) (input : List ℕ) {ts : List Token}
    → lex m input ≡ ok ts
    → (ys : List Symbol) × Source input ys × (ts ≡ tokens_of m 0 ys) × (length ts ≤ max_len)
unfolding lex
lex-Source m input e = elim (Bool-cases (m.grants (init_len * 2))) [
  | inl g ↦
      lex_loop-Source (length input + 1) m (record { tokens = []; size = init_len }) input 10 refl
        (omega arith) (rw g at e)
  | inr f ↦ cc (rw f at e)
]
