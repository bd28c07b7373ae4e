-- ===== src/Compiler/Printable.antt =====
-- What `.` prints in a source text (lexer.c): never 0.
use u6a.Base.{ℕ, suc, List, [], ◌∷◌, ◌++◌, arith}
use u6a.Defs.{Token, Memory}
use u6a.Lexer.Grammar.{
  Symbol, token_of, tokens_of, Word, letter, newline, out, cmp, Source, end, space, comment,
  last_comment, word,
}
use u6a.Parser.Term.{Term, leaf, app, root, args, flatten}
use u6a.Runtime.Legible.{HasText, IsPrintable}

abbrev pub AllText : List Token → Type 0
AllText [] = Unit
AllText (t ∷ ts) = HasText t × AllText ts

Word-HasText :
    {fn : ℕ} {input rest : List ℕ} {y : Symbol} (held : ℕ)
    → Word fn input y rest
    → HasText (token_of held y)
Word-HasText held (letter l) e = absurd (ground arith)
Word-HasText held (newline h) e = omega arith
Word-HasText held (out h t) e = ground arith
Word-HasText held (cmp h t) e = absurd (omega arith)

pub Source-AllText :
    {input : List ℕ} {ys : List Symbol} (m : Memory) (i : ℕ)
    → Source input ys
    → AllText (tokens_of m i ys)
Source-AllText m i end = tt
Source-AllText m i (space h s) = Source-AllText m i s
Source-AllText m i (comment text e n s) = Source-AllText m i s
Source-AllText m i (last_comment e n) = tt
Source-AllText m i (word w s) = (Word-HasText (m.fill i) w, Source-AllText m (suc i) s)

AllText-append : (xs ys : List Token) → AllText (xs ++ ys) → AllText xs × AllText ys
AllText-append [] ys a = (tt, a)
AllText-append (x ∷ xs) ys (t, a) = let (b, c) = AllText-append xs ys a in ((t, b), c)

pub flatten-IsPrintable : (t : Term) → AllText (flatten t) → IsPrintable t
flatten-IsPrintable (leaf t) a = a.0
flatten-IsPrintable (app ch l r) (top, (first, a)) =
    let (b, c) = AllText-append (args l) (root r ∷ args r) a in
    (flatten-IsPrintable l (first, b), flatten-IsPrintable r c)
