-- ===== src/Lexer/Tests.antt =====
-- The lexer on small texts, and its theorems at them.
use u6a.Base.{
  ℕ, ◌≤◌, ◌≡◌, ◌≢◌, refl, true, some, List, [], ◌∷◌, inl, length, Result, ok, err, arith,
}
use u6a.Defs.{Token, token, Memory}
use u6a.Defs.TokenFn
use u6a.Lexer.{
  LexError, lex, lex_loop, next_fn, isspace, grow, switch, out_of_fuel, max_len, unexpected_eof,
  unprintable_ch, bad_ch,
}
use u6a.Lexer.Grammar.{
  Symbol, simple, char, Source, tokens_of, word, space, comment, end, letter, out,
}
use u6a.Lexer.Sound.{lex-Source}
use u6a.Lexer.Complete.{Source-lex, lex-ne-out_of_fuel}
use u6a.Lexer.Reports.{lex_message, lex-IsLine}
use u6a.Logging.{codes, Message, initial_logging, logging_init, error_text}
use u6a.Logging.Lines.{IsLine}

abbrev memory : Memory
memory = record { grants = λ _. true; fill = λ i. 7 }

lexed : List ℕ → Result LexError (List Token)
unfolding lex lex_loop next_fn isspace grow switch
lexed = lex memory

-- "`.a#x\n i"
abbrev sample : List ℕ
sample = b'`' ∷ b'.' ∷ b'a' ∷ b'#' ∷ b'x' ∷ 10 ∷ b' ' ∷ b'i' ∷ []

abbrev sample_symbols : List Symbol
sample_symbols = simple TokenFn.app ∷ char TokenFn.out b'a' ∷ simple TokenFn.i ∷ []

lexed-sample :
    lexed sample ≡ ok (token TokenFn.app 7 ∷ token TokenFn.out b'a' ∷ token TokenFn.i 7 ∷ [])
unfolding lexed
lexed-sample = refl

lexed-errors :
    (lexed (b'.' ∷ []) ≡ err (unexpected_eof b'.'))
    × (lexed (b'?' ∷ 9 ∷ []) ≡ err (unprintable_ch 9))
    × (lexed (b'x' ∷ []) ≡ err (bad_ch b'x'))
unfolding lexed
lexed-errors = (refl, refl, refl)

sample-Source : Source sample sample_symbols
sample-Source = word (letter (inl (refl, refl))) (
    word (out refl (inl (omega arith, omega arith))) (
      comment (b'x' ∷ []) refl (omega arith) (space (inl refl) (word (letter (ground arith)) end))))

lex-Source_example :
    (ys : List Symbol) × Source sample ys
    × ((token TokenFn.app 7 ∷ token TokenFn.out b'a' ∷ token TokenFn.i 7 ∷ [])
        ≡ tokens_of memory 0 ys)
    × (length (token TokenFn.app 7 ∷ token TokenFn.out b'a' ∷ token TokenFn.i 7 ∷ []) ≤ max_len)
unfolding lexed
lex-Source_example = lex-Source memory sample lexed-sample

Source-lex_example : lex memory sample ≡ ok (tokens_of memory 0 sample_symbols)
Source-lex_example = Source-lex memory sample-Source (omega arith) (λ size h. refl)

lex-ne-out_of_fuel_example : lex memory sample ≢ err out_of_fuel
lex-ne-out_of_fuel_example = lex-ne-out_of_fuel memory sample

lexed_end : lexed (b'i' ∷ b'.' ∷ []) ≡ err (unexpected_eof b'.')
unfolding lexed
lexed_end = refl

lex-IsLine_example :
    (message : Message) × (lex_message (unexpected_eof b'.') ≡ some message)
    × IsLine (error_text (logging_init (codes "u6ac") initial_logging) (codes "lex error") message)
unfolding lexed
lex-IsLine_example =
    lex-IsLine (logging_init (codes "u6ac") initial_logging) (codes "lex error") memory
      (b'i' ∷ b'.' ∷ []) refl refl lexed_end
