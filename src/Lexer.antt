-- ===== src/Lexer.antt =====
-- lexer.c: from the bytes of the source to the token array.
mod Tests
pub mod Reports
pub mod Grammar
pub mod Switch
pub mod Capacity
pub mod Sound
pub mod Complete
use u6a.Base.{
  ℕ, zero, suc, ◌+◌, ◌*◌, Bool, true, false, ◌&&◌, ◌||◌, Option, none, some, List, [], ◌∷◌, ◌++◌,
  length, Result, ok, err, ◌>>=◌, leb, ltb, ◌==◌, if◌then◌else◌, u32,
}
use u6a.Defs.{Token, token, Memory}
use u6a.Defs.TokenFn

-- `out_of_fuel` belongs to the model.
pub data LexError : Type 0 where
  bad_alloc : ℕ → LexError
  unexpected_eof : ℕ → LexError
  unprintable_ch : ℕ → LexError
  bad_ch : ℕ → LexError
  out_of_fuel : LexError

abbrev pub init_len : ℕ
init_len = 4 * 1024

abbrev pub max_len : ℕ
max_len = 4 * 1024 * 1024

-- The C library's tests, in the C locale.
pub isspace : ℕ → Bool
isspace ch = ch == b' ' || (leb 9 ch && leb ch 13)

unfoldable pub isprint : ℕ → Bool
isprint ch = leb 32 ch && leb ch 126

-- The array up to `len`, and `token_arr_size`.
pub record LexState : Type 0 where
  pub tokens : List Token
  pub size : ℕ

-- The rest of a line comment: its newline, or the end of the file.
pub skip_comment : List ℕ → Option (ℕ × List ℕ)
skip_comment [] = none
skip_comment (ch ∷ input) = if ch == 10 then some (ch, input) else skip_comment input

-- The byte at which the loop looks.
pub next_fn : List ℕ → Option (ℕ × List ℕ)
unfolding skip_comment
next_fn [] = none
next_fn (ch ∷ input) = if ch == b'#' then skip_comment input else some (ch, input)

-- The array's growth: the new size.
pub grow : Memory → LexState → Result LexError ℕ
grow m st =
    let size = u32 (st.size * 2) in
    if leb st.size (length st.tokens)
    then (if ltb max_len size
        then err (bad_alloc size)
        else if m.grants (size * 2)
        then ok size
        else err (bad_alloc (size * 2)))
    else ok st.size

-- `READ_CH`.
pub read_ch : (tf fn : ℕ) → List ℕ → Result LexError (Token × List ℕ)
unfolding isprint
read_ch tf fn [] = err (unexpected_eof fn)
read_ch tf fn (ch ∷ input) =
    if isprint ch || ch == 10 then ok (token tf ch, input) else err (unprintable_ch ch)

-- The functions that are spelled by one byte, with a 0 for all other bytes.
pub simple_fn : ℕ → ℕ
simple_fn fn =
    if fn == b'`'
    then TokenFn.app
    else if fn == b'S' || fn == b's'
    then TokenFn.s
    else if fn == b'K' || fn == b'k'
    then TokenFn.k
    else if fn == b'I' || fn == b'i'
    then TokenFn.i
    else if fn == b'V' || fn == b'v'
    then TokenFn.v
    else if fn == b'C' || fn == b'c'
    then TokenFn.c
    else if fn == b'D' || fn == b'd'
    then TokenFn.d
    else if fn == b'@'
    then TokenFn.at
    else if fn == b'|'
    then TokenFn.pipe
    else if fn == b'E' || fn == b'e'
    then TokenFn.e
    else 0

-- The `switch`. `ch` is what the memory of the token holds: most cases do not write it.
pub switch : (ch fn : ℕ) → List ℕ → Result LexError (Token × List ℕ)
unfolding simple_fn read_ch
switch ch fn input =
    if fn == b'.'
    then read_ch TokenFn.out fn input
    else if fn == b'R' || fn == b'r'
    then ok (token TokenFn.out 10, input)
    else if fn == b'?'
    then read_ch TokenFn.cmp fn input
    else if simple_fn fn == 0
    then err (bad_ch fn)
    else ok (token (simple_fn fn) ch, input)

abbrev pub append_token : LexState → ℕ → Token → LexState
append_token st size t = record { tokens = st.tokens ++ t ∷ []; size = size }

-- The loop, with a round of fuel for each byte and one more.
pub lex_loop : ℕ → Memory → LexState → List ℕ → Result LexError (List Token)
lex_loop zero m st input = err out_of_fuel
lex_loop (suc fuel) m st input = elim (next_fn input) [
  | none ↦ ok st.tokens
  | some (fn, rest) ↦ elim (isspace fn) [
    | true ↦ lex_loop fuel m st rest
    | false ↦ grow m st >>= λ size. switch (m.fill (length st.tokens)) fn rest >>= λ (t, rest').
        lex_loop fuel m (append_token st size t) rest'
  ]
]

pub lex : Memory → List ℕ → Result LexError (List Token)
lex m input =
    if m.grants (init_len * 2)
    then lex_loop (length input + 1) m (record { tokens = []; size = init_len }) input
    else err (bad_alloc (init_len * 2))
