-- ===== src/Lexer/Switch.antt =====
-- The `switch` of the lexer, and the tests before it, against the grammar.
use u6a.Base.{
  ℕ, ◌≤◌, ◌<◌, ◌≡◌, ◌≢◌, ◌⊎◌, inl, inr, refl, true, false, ◌||◌, ap, none, some, List, [], ◌∷◌,
  ◌++◌, length, length-append, ok, ◌==◌, Bool-cases, ==→eq, ==→ne, ne→==, arith,
}
use u6a.Defs.{Token, token}
use u6a.Defs.TokenFn
use u6a.Lexer.{isspace, isprint, skip_comment, next_fn, read_ch, simple_fn, switch}
use u6a.Lexer.Grammar.{
  one_byte, Listed, IsSpace, IsText, NoNewline, Symbol, simple, char, token_of, Word, letter,
  newline, out, cmp, Source, end, last_comment, comment,
}

pub isspace-IsSpace : (ch : ℕ) → isspace ch ≡ true → IsSpace ch
unfolding isspace
isspace-IsSpace ch h = ground arith

pub IsSpace-isspace : (ch : ℕ) → IsSpace ch → isspace ch ≡ true
unfolding isspace
IsSpace-isspace ch h = ground arith

IsText-from_test : (ch : ℕ) → (isprint ch || ch == 10) ≡ true → IsText ch
unfolding isprint
IsText-from_test ch h = ground arith

IsText-to_test : (ch : ℕ) → IsText ch → (isprint ch || ch == 10) ≡ true
unfolding isprint
IsText-to_test ch h = ground arith

simple_fn-Listed : (fn : ℕ) → simple_fn fn ≢ 0 → Listed one_byte fn (simple_fn fn)
unfolding simple_fn
simple_fn-Listed fn h = ground arith

Listed-simple_fn : (fn f : ℕ) → Listed one_byte fn f → simple_fn fn ≡ f
unfolding simple_fn
Listed-simple_fn fn f h = ground arith

-- Such a byte is taken neither for another symbol, nor for a space or a comment.
Listed-apart :
    (fn f : ℕ)
    → Listed one_byte fn f
    → (fn ≢ b'.') × (fn ≢ b'?') × (fn ≢ b'r') × (fn ≢ b'R') × (fn ≢ b'#') × (f ≢ 0)
Listed-apart fn f h = ground arith

read_ch-IsText :
    (tf fn ch : ℕ) (input : List ℕ)
    → IsText ch
    → read_ch tf fn (ch ∷ input) ≡ ok (token tf ch, input)
unfolding read_ch
read_ch-IsText tf fn ch input h = rw (IsText-to_test ch h)

read_ch-ok :
    (tf fn : ℕ) (input : List ℕ) {t : Token} {rest : List ℕ}
    → read_ch tf fn input ≡ ok (t, rest)
    → (ch : ℕ) × IsText ch × (input ≡ ch ∷ rest) × (t ≡ token tf ch)
unfolding read_ch
read_ch-ok tf fn [] e = cc
read_ch-ok tf fn (ch ∷ input) e = elim (Bool-cases (isprint ch || ch == 10)) [
  | inl h ↦ (ch, IsText-from_test ch h, ground arith, ground arith)
  | inr h ↦ ground arith
]

pub Word-switch :
    {fn : ℕ} {input rest : List ℕ} {y : Symbol} (held : ℕ)
    → Word fn input y rest
    → switch held fn input ≡ ok (token_of held y, rest)
unfolding switch
Word-switch {fn} held (letter {f} h) =
    let (a, b, c, d, e, g) = Listed-apart fn f h in
    rw (
      Listed-simple_fn fn f h,
      ne→== fn b'.' a,
      ne→== fn b'?' b,
      ne→== fn b'r' c,
      ne→== fn b'R' d,
      ne→== f 0 g,
    )
Word-switch held (newline (inl e)) = rw e
Word-switch held (newline (inr e)) = rw e
Word-switch held (out {ch} {rest} e h) = rw e (read_ch-IsText TokenFn.out b'.' ch rest h)
Word-switch held (cmp {ch} {rest} e h) = rw e (read_ch-IsText TokenFn.cmp b'?' ch rest h)

pub switch-Word :
    (held fn : ℕ) (input : List ℕ) {t : Token} {rest : List ℕ}
    → switch held fn input ≡ ok (t, rest)
    → (y : Symbol) × Word fn input y rest × (t ≡ token_of held y)
unfolding switch
switch-Word held fn input {t} {rest} e = elim (Bool-cases (fn == b'.')) [
  | inl dot ↦
      let (ch, h, p, q) = read_ch-ok TokenFn.out fn input (rw dot at e) in
      (char TokenFn.out ch, rw p (out (==→eq fn b'.' dot) h), q)
  | inr dot ↦ elim (Bool-cases (fn == b'R' || fn == b'r')) [
    | inl nl ↦
        let p : input ≡ rest = ground arith in
        (char TokenFn.out 10, rw p (newline (ground arith)), ground arith)
    | inr nl ↦ elim (Bool-cases (fn == b'?')) [
      | inl quest ↦
          let (ch, h, p, q) = read_ch-ok TokenFn.cmp fn input (rw (dot, nl, quest) at e) in
          (char TokenFn.cmp ch, rw p (cmp (==→eq fn b'?' quest) h), q)
      | inr quest ↦ elim (Bool-cases (simple_fn fn == 0)) [
        | inl bad ↦ ground arith
        | inr good ↦
            let p : input ≡ rest = ground arith in
            (
              simple (simple_fn fn),
              rw p (letter (simple_fn-Listed fn (==→ne _ 0 good))),
              ground arith,
            )
      ]
    ]
  ]
]

skip_comment-none : (input : List ℕ) → skip_comment input ≡ none → NoNewline input
unfolding skip_comment
skip_comment-none [] e = tt
skip_comment-none (ch ∷ input) e = ground (arith, skip_comment-none input)

skip_comment-some :
    (input : List ℕ) {fn : ℕ} {rest : List ℕ}
    → skip_comment input ≡ some (fn, rest)
    → (fn ≡ 10) × ((text : List ℕ) × NoNewline text × (input ≡ text ++ 10 ∷ rest))
unfolding skip_comment
skip_comment-some [] e = cc
skip_comment-some (ch ∷ input) {rest} e = elim (Bool-cases (ch == 10)) [
  | inl h ↦ (ground arith, ([], tt, ground arith))
  | inr h ↦
      let (p, (text, n, q)) = skip_comment-some input (rw h at e) in
      (p, (ch ∷ text, (==→ne ch 10 h, n), ap (λ l. ch ∷ l) q))
]

-- What the loop looks at next, against the text before it.
pub next_fn-none : (input : List ℕ) → next_fn input ≡ none → Source input []
unfolding next_fn
next_fn-none [] e = end
next_fn-none (ch ∷ input) e = elim (Bool-cases (ch == b'#')) [
  | inl h ↦ last_comment (==→eq ch b'#' h) (skip_comment-none input (rw h at e))
  | inr h ↦ cc (rw h at e)
]

pub next_fn-some :
    (input : List ℕ) {fn : ℕ} {rest : List ℕ}
    → next_fn input ≡ some (fn, rest)
    → (length rest < length input)
      × (((fn ≢ b'#') × (input ≡ fn ∷ rest))
          ⊎ ((fn ≡ 10) × ((ys : List Symbol) → Source rest ys → Source input ys)))
unfolding next_fn
next_fn-some [] e = cc
next_fn-some (ch ∷ input) {rest} e = elim (Bool-cases (ch == b'#')) [
  | inl h ↦
      let (p, (text, n, q)) = skip_comment-some input (rw h at e) in
      (
        omega (arith, ap (λ (l : List ℕ). length l) q, length-append {0} text (10 ∷ rest)),
        inr (p, λ ys s. rw q (comment text (==→eq ch b'#' h) n s)),
      )
  | inr h ↦ (ground arith, inl (ground arith, ground arith))
]

skip_comment-text :
    (text rest : List ℕ) → NoNewline text → skip_comment (text ++ 10 ∷ rest) ≡ some (10, rest)
unfolding skip_comment
skip_comment-text [] rest n = refl
skip_comment-text (ch ∷ text) rest n = rw (ne→== ch 10 n.0) (skip_comment-text text rest n.1)

skip_comment-last : (text : List ℕ) → NoNewline text → skip_comment text ≡ none
unfolding skip_comment
skip_comment-last [] n = refl
skip_comment-last (ch ∷ text) n = rw (ne→== ch 10 n.0) (skip_comment-last text n.1)

pub next_fn-comment :
    (ch : ℕ) (text rest : List ℕ)
    → ch ≡ b'#'
    → NoNewline text
    → next_fn (ch ∷ (text ++ 10 ∷ rest)) ≡ some (10, rest)
unfolding next_fn
next_fn-comment ch text rest e n = rw e (skip_comment-text text rest n)

pub next_fn-last :
    (ch : ℕ) (text : List ℕ) → ch ≡ b'#' → NoNewline text → next_fn (ch ∷ text) ≡ none
unfolding next_fn
next_fn-last ch text e n = rw e (skip_comment-last text n)

pub next_fn-other : (ch : ℕ) (rest : List ℕ) → ch ≢ b'#' → next_fn (ch ∷ rest) ≡ some (ch, rest)
unfolding next_fn
next_fn-other ch rest e = rw (ne→== ch b'#' e)

-- A byte that begins a symbol is neither a space nor the mark of a comment.
pub Word-apart :
    {fn : ℕ} {input rest : List ℕ} {y : Symbol}
    → Word fn input y rest
    → (isspace fn ≡ false) × (fn ≢ b'#') × (length rest ≤ length input)
unfolding isspace
Word-apart (letter h) = (ground arith, ground arith, omega arith)
Word-apart (newline h) = (ground arith, ground arith, omega arith)
Word-apart (out h i) = (ground arith, ground arith, omega arith)
Word-apart (cmp h i) = (ground arith, ground arith, omega arith)
