-- ===== src/Lexer/Complete.antt =====
-- From source texts to the lexer, and its fuel.
use u6a.Base.{
  ℕ, zero, suc, ◌+◌, ◌*◌, ◌≤◌, ◌<◌, ◌≡◌, ◌≢◌, refl, ap, ◌∙◌, true, some, List, [], ◌∷◌, ◌++◌,
  length, length-append, append-nil, ok, err, inl, inr, arith, Option-cases, Result-cases,
  Bool-cases,
}
use u6a.Defs.{Token, Memory}
use u6a.Lexer.{
  out_of_fuel, LexState, isspace, next_fn, grow, switch, append_token, lex_loop, lex, init_len,
  max_len,
}
use u6a.Lexer.Grammar.{
  Symbol, token_of, tokens_of, tokens_of-snoc, Source, end, space, comment, last_comment, word,
}
use u6a.Lexer.Capacity.{Room, GrantsAll, grow-ok}
use u6a.Lexer.Switch.{
  next_fn-comment, next_fn-last, next_fn-other, next_fn-some, IsSpace-isspace, Word-switch,
  Word-apart, switch-Word,
}

-- A round at a space.
loop-space :
    (fuel : ℕ) (m : Memory) (st : LexState) (input : List ℕ) {fn : ℕ} {rest : List ℕ}
    → next_fn input ≡ some (fn, rest)
    → isspace fn ≡ true
    → lex_loop (suc fuel) m st input ≡ lex_loop fuel m st rest
unfolding lex_loop
loop-space fuel m st input e s = rw (e, lex_loop, s)

IsSpace-apart : (ch : ℕ) → isspace ch ≡ true → ch ≢ b'#'
unfolding isspace
IsSpace-apart ch h = ground arith

newline-isspace : isspace 10 ≡ true
unfolding isspace
newline-isspace = refl

Source-lex_loop :
    {input : List ℕ} {ys : List Symbol} (source : Source input ys) (fuel : ℕ) (m : Memory)
    (st : LexState) (r : ℕ)
    → GrantsAll m
    → Room r st.size
    → length st.tokens + length ys ≤ max_len
    → length input < fuel
    → lex_loop fuel m st input ≡ ok (st.tokens ++ tokens_of m (length st.tokens) ys)
unfolding lex_loop next_fn
Source-lex_loop s zero m st r g h l f = absurd (omega arith)
Source-lex_loop end (suc fuel) m st r g h l f = rw (append-nil st.tokens)
Source-lex_loop (space {ch} {rest} is s) (suc fuel) m st r g h l f =
    let sp = IsSpace-isspace ch is in
    loop-space fuel m st (ch ∷ rest) (next_fn-other ch rest (IsSpace-apart ch sp)) sp
    ∙ Source-lex_loop s fuel m st r g h l (omega arith)
Source-lex_loop (comment {ch} {rest} text e n s) (suc fuel) m st r g h l f =
    loop-space fuel m st (ch ∷ (text ++ 10 ∷ rest)) (next_fn-comment ch text rest e n)
      newline-isspace
    ∙ Source-lex_loop s fuel m st r g h l (omega (arith, length-append {0} text (10 ∷ rest)))
Source-lex_loop (last_comment {ch} {text} e n) (suc fuel) m st r g h l f =
    rw (next_fn-last ch text e n, lex_loop, append-nil st.tokens)
Source-lex_loop (word {fn} {input} {rest} {y} {ys} w s) (suc fuel) m st r g h l f =
    let (ns, nc, shorter) = Word-apart w in
    let (size, (r', room), grown) = grow-ok m st r h (omega arith) g in
    let t : Token = token_of (m.fill (length st.tokens)) y in
    rw (next_fn-other fn input nc, lex_loop, ns, grown, Word-switch (m.fill (length st.tokens)) w)
      (Source-lex_loop s fuel m (append_token st size t) r' g room
          (omega (arith, length-append {0} st.tokens (t ∷ []))) (omega arith)
        ∙ ap ok (tokens_of-snoc m st.tokens t y ys refl))

-- A source text with at most 4194304 symbols is accepted, if the memory for the tokens is granted,
-- and gives the tokens of its symbols, in order.
pub Source-lex :
    (m : Memory) {input : List ℕ} {ys : List Symbol}
    → Source input ys
    → length ys ≤ max_len
    → GrantsAll m
    → lex m input ≡ ok (tokens_of m 0 ys)
unfolding lex
Source-lex m {input} s h g = rw (g (init_len * 2) (omega arith)) (
    Source-lex_loop s (length input + 1) m (record { tokens = []; size = init_len }) 10 g refl
      (omega arith) (omega arith))

grow-ne-out_of_fuel : (m : Memory) (st : LexState) → grow m st ≢ err out_of_fuel
unfolding grow
grow-ne-out_of_fuel m st e = ground arith

switch-ne-out_of_fuel : (held fn : ℕ) (input : List ℕ) → switch held fn input ≢ err out_of_fuel
unfolding switch
switch-ne-out_of_fuel held fn [] e = ground arith
switch-ne-out_of_fuel held fn (ch ∷ input) e = ground arith

lex_loop-ne-out_of_fuel :
    (fuel : ℕ) (m : Memory) (st : LexState) (input : List ℕ)
    → length input < fuel
    → lex_loop fuel m st input ≢ err out_of_fuel
unfolding lex_loop
lex_loop-ne-out_of_fuel zero m st input h e = absurd (omega arith)
lex_loop-ne-out_of_fuel (suc fuel) m st input h e = elim (Option-cases (next_fn input)) [
  | inl n ↦ cc (rw (n, lex_loop) at e)
  | inr ((fn, rest), q) ↦
      let shorter = (next_fn-some input q).0 in
      elim (Bool-cases (isspace fn)) [
        | inl sp ↦ lex_loop-ne-out_of_fuel fuel m st rest (omega arith) (rw (q, lex_loop, sp) at e)
        | inr ns ↦ elim (Result-cases (grow m st)) [
          | inr (x, bad) ↦
              let p : x ≡ out_of_fuel = cc (rw (q, lex_loop, ns, bad) at e) in
              grow-ne-out_of_fuel m st (rw p at bad)
          | inl (size, g) ↦ elim (Result-cases (switch (m.fill (length st.tokens)) fn rest)) [
            | inr (x, bad) ↦
                let p : x ≡ out_of_fuel = cc (rw (q, lex_loop, ns, g, bad) at e) in
                switch-ne-out_of_fuel (m.fill (length st.tokens)) fn rest (rw p at bad)
            | inl ((t, rest'), w) ↦
                let (y, wd, p) = switch-Word (m.fill (length st.tokens)) fn rest w in
                lex_loop-ne-out_of_fuel fuel m (append_token st size t) rest'
                  (omega (arith, (Word-apart wd).2)) (rw (q, lex_loop, ns, g, w) at e)
          ]
        ]
      ]
]

-- The fuel of the model is enough: no run of the lexer ends for want of it.
pub lex-ne-out_of_fuel : (m : Memory) (input : List ℕ) → lex m input ≢ err out_of_fuel
unfolding lex
lex-ne-out_of_fuel m input e = elim (Bool-cases (m.grants (init_len * 2))) [
  | inl g ↦
      lex_loop-ne-out_of_fuel (length input + 1) m (record { tokens = []; size = init_len }) input
        (omega arith) (rw g at e)
  | inr f ↦ cc (rw f at e)
]
