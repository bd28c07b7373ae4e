-- ===== src/Lexer/Grammar.antt =====
-- The lexical grammar of Unlambda, apart from the lexer.
use u6a.Base.{
  ℕ, suc, ◌≤◌, ◌≡◌, ◌≢◌, ◌⊎◌, List, [], ◌∷◌, ◌++◌, length, length-append, append_assoc, arith,
}
use u6a.Defs.{Token, token, Memory}
use u6a.Defs.TokenFn

-- The functions that one byte spells.
abbrev pub one_byte : List (ℕ × ℕ)
one_byte =
    (b'`', TokenFn.app)
    ∷ (b's', TokenFn.s)
    ∷ (b'S', TokenFn.s)
    ∷ (b'k', TokenFn.k)
    ∷ (b'K', TokenFn.k)
    ∷ (b'i', TokenFn.i)
    ∷ (b'I', TokenFn.i)
    ∷ (b'v', TokenFn.v)
    ∷ (b'V', TokenFn.v)
    ∷ (b'c', TokenFn.c)
    ∷ (b'C', TokenFn.c)
    ∷ (b'd', TokenFn.d)
    ∷ (b'D', TokenFn.d)
    ∷ (b'e', TokenFn.e)
    ∷ (b'E', TokenFn.e)
    ∷ (b'@', TokenFn.at)
    ∷ (b'|', TokenFn.pipe)
    ∷ []

abbrev pub Listed : List (ℕ × ℕ) → ℕ → ℕ → Type 0
Listed [] ch fn = ⊥
Listed ((a, f) ∷ rest) ch fn = ((ch ≡ a) × (fn ≡ f)) ⊎ Listed rest ch fn

abbrev pub IsSpace : ℕ → Type 0
IsSpace ch = (ch ≡ b' ') ⊎ ((9 ≤ ch) × (ch ≤ 13))

-- What may follow `.` and `?`.
abbrev pub IsText : ℕ → Type 0
IsText ch = ((32 ≤ ch) × (ch ≤ 126)) ⊎ (ch ≡ 10)

abbrev pub NoNewline : List ℕ → Type 0
NoNewline [] = Unit
NoNewline (ch ∷ input) = (ch ≢ 10) × NoNewline input

pub data Symbol : Type 0 where
  simple : ℕ → Symbol
  char : ℕ → ℕ → Symbol

-- The token of a symbol, given what the memory of the token held.
abbrev pub token_of : ℕ → Symbol → Token
token_of held (simple fn) = token fn held
token_of held (char fn ch) = token fn ch

abbrev pub tokens_of : Memory → ℕ → List Symbol → List Token
tokens_of m i [] = []
tokens_of m i (y ∷ ys) = token_of (m.fill i) y ∷ tokens_of m (suc i) ys

pub tokens_of-snoc :
    (m : Memory) (ts : List Token) (t : Token) (y : Symbol) (ys : List Symbol)
    → t ≡ token_of (m.fill (length ts)) y
    → (ts ++ t ∷ []) ++ tokens_of m (length (ts ++ t ∷ [])) ys
      ≡ ts ++ tokens_of m (length ts) (y ∷ ys)
tokens_of-snoc m ts t y ys p =
    let count : length (ts ++ t ∷ []) ≡ suc (length ts) =
      omega (arith, length-append {0} ts (t ∷ [])) in
    rw (count, append_assoc ts (t ∷ []) (tokens_of m (suc (length ts)) ys), p)

-- A symbol that begins with `fn`; `input` is what follows that byte, `rest` what follows the symbol.
pub data Word (fn : ℕ) : List ℕ → Symbol → List ℕ → Type 0 where
  letter : {f : ℕ} {rest : List ℕ} → Listed one_byte fn f → Word fn rest (simple f) rest
  newline : {rest : List ℕ} → (fn ≡ b'r') ⊎ (fn ≡ b'R') → Word fn rest (char TokenFn.out 10) rest
  out :
      {ch : ℕ} {rest : List ℕ}
      → fn ≡ b'.'
      → IsText ch
      → Word fn (ch ∷ rest) (char TokenFn.out ch) rest
  cmp :
      {ch : ℕ} {rest : List ℕ}
      → fn ≡ b'?'
      → IsText ch
      → Word fn (ch ∷ rest) (char TokenFn.cmp ch) rest

-- A source text and the symbols that it holds.
pub data Source : List ℕ → List Symbol → Type 0 where
  end : Source [] []
  space :
      {ch : ℕ} {rest : List ℕ} {ys : List Symbol}
      → IsSpace ch
      → Source rest ys
      → Source (ch ∷ rest) ys
  comment :
      {ch : ℕ} {rest : List ℕ} {ys : List Symbol} (text : List ℕ)
      → ch ≡ b'#'
      → NoNewline text
      → Source rest ys
      → Source (ch ∷ (text ++ 10 ∷ rest)) ys
  last_comment : {ch : ℕ} {text : List ℕ} → ch ≡ b'#' → NoNewline text → Source (ch ∷ text) []
  word :
      {fn : ℕ} {input rest : List ℕ} {y : Symbol} {ys : List Symbol}
      → Word fn input y rest
      → Source rest ys
      → Source (fn ∷ input) (y ∷ ys)
