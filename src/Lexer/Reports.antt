-- ===== src/Lexer/Reports.antt =====
-- lexer.c with logging.c: what is printed if the lexer fails.
use u6a.Base.{
  ℕ, zero, suc, ◌+◌, ◌*◌, ◌≡◌, ◌≢◌, refl, Option, none, some, List, [], ◌∷◌, length, ltb, leb, ◌==◌,
  ◌||◌, ==→eq, Bool-cases, Option-cases, inl, inr, Result, ok, err, u32, ◌>>=◌, true, arith,
}
use u6a.Defs.{Memory}
use u6a.Defs.TokenFn
use u6a.Lexer.{
  LexError, LexState, isspace, isprint, next_fn, grow, read_ch, simple_fn, switch, append_token,
  lex_loop, lex, init_len, max_len,
}
use u6a.Lexer.Complete.{lex-ne-out_of_fuel}
use u6a.Logging.{Logging, Message, bad_alloc, unexpected_eof, unprintable_ch, bad_ch, error_text}
use u6a.Logging.Lines.{NoNewline, IsLine, error_text-IsLine}

-- The function of logging.c that each error of the lexer calls.
unfoldable pub lex_message : LexError → Option Message
lex_message (LexError.bad_alloc size) = some (bad_alloc size)
lex_message (LexError.unexpected_eof fn) = some (unexpected_eof fn)
lex_message (LexError.unprintable_ch ch) = some (unprintable_ch ch)
lex_message (LexError.bad_ch fn) = some (bad_ch fn)
lex_message LexError.out_of_fuel = none

-- No error quotes a newline.
abbrev Quotes : LexError → Type 0
Quotes (LexError.unexpected_eof fn) = fn ≢ 10
Quotes _ = Unit

abbrev Reports : {A : Type 0} → Result LexError A → Type 0
Reports (ok a) = Unit
Reports (err e) = Quotes e

Reports-bind :
    {A B : Type 0} (r : Result LexError A) (f : A → Result LexError B)
    → Reports r
    → ((a : A) → Reports (f a))
    → Reports (r >>= f)
Reports-bind (ok a) f h k = k a
Reports-bind (err e) f h k = h

read_ch-Reports : (tf fn : ℕ) (input : List ℕ) → fn ≢ 10 → Reports (read_ch tf fn input)
unfolding read_ch
read_ch-Reports tf fn [] n = n
read_ch-Reports tf fn (ch ∷ input) n = elim (Bool-cases (isprint ch || ch == 10)) [
  | inl q ↦ rw q tt
  | inr q ↦ rw q tt
]

is_not_newline : (fn c : ℕ) → c ≢ 10 → (fn == c) ≡ true → fn ≢ 10
is_not_newline fn c n q e = n (cc (==→eq fn c q))

switch-Reports : (held fn : ℕ) (input : List ℕ) → Reports (switch held fn input)
unfolding switch
switch-Reports held fn input = elim (Bool-cases (fn == b'.')) [
  | inl q ↦
      rw q (read_ch-Reports TokenFn.out fn input (is_not_newline fn b'.' (λ e. omega (arith, e)) q))
  | inr q ↦ elim (Bool-cases (fn == b'R' || fn == b'r')) [
    | inl r ↦ rw (q, r) tt
    | inr r ↦ elim (Bool-cases (fn == b'?')) [
      | inl s ↦
          rw (q, r, s)
            (read_ch-Reports TokenFn.cmp fn input
              (is_not_newline fn b'?' (λ e. omega (arith, e)) s))
      | inr s ↦ elim (Bool-cases (simple_fn fn == 0)) [
        | inl u ↦ rw (q, r, s, u) tt
        | inr u ↦ rw (q, r, s, u) tt
      ]
    ]
  ]
]

grow-Reports : (m : Memory) (st : LexState) → Reports (grow m st)
unfolding grow
grow-Reports m st =
    let size : ℕ = u32 (st.size * 2) in
    elim (Bool-cases (leb st.size (length st.tokens))) [
      | inr p ↦ rw p tt
      | inl p ↦ elim (Bool-cases (ltb max_len size)) [
        | inl q ↦ rw (p, q) tt
        | inr q ↦ elim (Bool-cases (m.grants (size * 2))) [
          | inl r ↦ rw (p, q, r) tt
          | inr r ↦ rw (p, q, r) tt
        ]
      ]
    ]

lex_loop-Reports :
    (fuel : ℕ) (m : Memory) (st : LexState) (input : List ℕ) → Reports (lex_loop fuel m st input)
unfolding lex_loop
lex_loop-Reports zero m st input = tt
lex_loop-Reports (suc fuel) m st input = elim (Option-cases (next_fn input)) [
  | inl n ↦ rw (n, lex_loop) tt
  | inr ((fn, rest), q) ↦ elim (Bool-cases (isspace fn)) [
    | inl sp ↦ rw (q, lex_loop, sp) (lex_loop-Reports fuel m st rest)
    | inr ns ↦
        rw (q, lex_loop, ns)
          (Reports-bind (grow m st) _ (grow-Reports m st) (λ size.
            Reports-bind (switch (m.fill (length st.tokens)) fn rest) _
              (switch-Reports (m.fill (length st.tokens)) fn rest)
              (λ (t, rest'). lex_loop-Reports fuel m (append_token st size t) rest')))
  ]
]

lex-Reports : (m : Memory) (input : List ℕ) → Reports (lex m input)
unfolding lex
lex-Reports m input = elim (Bool-cases (m.grants (init_len * 2))) [
  | inl g ↦ rw g (lex_loop-Reports (length input + 1) m _ input)
  | inr f ↦ rw f tt
]

-- If the lexer fails, it calls one of the functions of logging.c, and what that prints is one line,
-- which ends with the only newline in it, whatever the input is. The name of the program and the
-- stage are to have no newline.
pub lex-IsLine :
    (log : Logging) (stage : List ℕ) (m : Memory) (input : List ℕ) {e : LexError}
    → NoNewline log.prog_name
    → NoNewline stage
    → lex m input ≡ err e
    → (message : Message) × (lex_message e ≡ some message) × IsLine (error_text log stage message)
unfolding lex_message
lex-IsLine log stage m input {e} n s fails = go e fails (rw fails at (lex-Reports m input))
  where
    go :
        (e : LexError)
        → lex m input ≡ err e
        → Quotes e
        → (message : Message) × (lex_message e ≡ some message)
          × IsLine (error_text log stage message)
    go (LexError.bad_alloc size) f q =
        (bad_alloc size, refl, error_text-IsLine log stage (bad_alloc size) n s tt)
    go (LexError.unexpected_eof fn) f q =
        (unexpected_eof fn, refl, error_text-IsLine log stage (unexpected_eof fn) n s q)
    go (LexError.unprintable_ch ch) f q =
        (unprintable_ch ch, refl, error_text-IsLine log stage (unprintable_ch ch) n s tt)
    go (LexError.bad_ch fn) f q = (bad_ch fn, refl, error_text-IsLine log stage (bad_ch fn) n s tt)
    go LexError.out_of_fuel f q = absurd (lex-ne-out_of_fuel m input f)
