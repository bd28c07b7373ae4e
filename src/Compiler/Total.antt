-- ===== src/Compiler/Total.antt =====
-- The outcomes of the compiler (u6ac.c), if no write is refused.
use u6a.Base.{
  ℕ, ◌≡◌, refl, ◌∙◌, ◌⊎◌, inl, inr, true, Bool, Option, none, some, List, Bool-cases, ok, false,
  ◌&&◌,
}
use u6a.Defs.{Token, Memory}
use u6a.Lexer.{lex}
use u6a.Parser.{parse}
use u6a.Parser.Term.{Term, IsWellFormed}
use u6a.Parser.Accepts.{tree}
use u6a.Compiler.{ArgOptions, finished, compile}
use u6a.Compiler.Outcomes.{
  output_of, Compiled, BadSyntax, BadText, writes, compile-outcome, compile-term,
}

-- If all writes are granted.
module _ (m : Memory) (accepts : ℕ → Bool) (options : ArgOptions) (input : List ℕ)
    (g : (size : ℕ) → m.grants size ≡ true) (a : (i : ℕ) → accepts i ≡ true) where
  all_granted : writes accepts options ≡ true
  all_granted = elim (Bool-cases options.syntax_only) [
    | inl h ↦ rw h refl
    | inr h ↦ rw (h, a 1, a 2, a 3) (prefix_granted options.output_file_prefix)
  ]
    where
      prefix_granted :
          (prefix : Option (List ℕ))
          → ((elim prefix [ none ↦ true | some bytes ↦ accepts 0 ]) && true) ≡ true
      prefix_granted none = refl
      prefix_granted (some bytes) = rw (a 0) refl

  pub compiled :
      {ts : List Token} (t : Term)
      → lex m input ≡ ok ts
      → parse m ts ≡ ok (tree t)
      → IsWellFormed t
      → compile m accepts options input ≡ finished (output_of options t)
  compiled t e p w = compile-term m accepts options input g t e p w ∙ rw all_granted refl

  -- If memory and writes are granted, one of three things holds. The input is the source text of a
  -- term, the exit code is 0 and the output file holds the prefix and the bytes of the code of the
  -- program, or there is none if only the syntax is checked; or the input is a source text, but of no
  -- term, and the exit code is that of the parser; or it is no source text of at most 4194304
  -- symbols, and the exit code is that of the lexer.
  pub compile-decides :
      Compiled m accepts options input
      ⊎ (BadSyntax m accepts options input ⊎ BadText m accepts options input)
  compile-decides = elim (compile-outcome m accepts options input g) [
    | inl (ys, t, s, w, same, (h, e)) ↦ inl (ys, t, s, w, same, e)
    | inr (inl (ys, t, s, w, same, (h, e))) ↦ let bad : true ≡ false = rw all_granted at h in cc
    | inr (inr rest) ↦ inr rest
  ]
