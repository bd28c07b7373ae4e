-- ===== src/Logging/Tests.antt =====
-- Messages at examples, and the theorems on them at one.
use u6a.Base.{◌+◌, ◌≡◌, refl, true, [], ◌∷◌, ◌++◌, arith}
use u6a.Lexer.{isprint}
use u6a.Dump.{hex}
use u6a.Logging.{
  codes, digits, Logging, initial_logging, logging_init, logging_verbose, bad_alloc, bad_ch,
  uint_not_in_range, write_failed, shown_ch, parts, error_text, info_text,
}
use u6a.Logging.Lines.{IsLine, error_text-IsLine}
use u6a.Logging.Tells.{error_text-bad_ch}

abbrev log : Logging
log = logging_init (codes "u6a") initial_logging

messages :
    (error_text log (codes "lex error") (bad_alloc 4096)
      ≡ codes "u6a: [lex error] allocation failed - trying to allocate 4096 bytes." ++ 10 ∷ [])
    × (error_text log (codes "lex error") (bad_ch b'x')
        ≡ codes "u6a: [lex error] unrecognizable character 'x'." ++ 10 ∷ [])
    × (error_text log (codes "lex error") (bad_ch 200)
        ≡ codes "u6a: [lex error] unrecognizable character 0xc8." ++ 10 ∷ [])
    × (error_text log (codes "toplevel") (uint_not_in_range 64 1048576 0)
        ≡ codes "u6a: [toplevel] Integer out of range - [64, 1048576] expected, 0 given."
          ++ 10 ∷ [])
    × (info_text log (codes "parser") (codes "completed") ≡ [])
    × (info_text (logging_verbose true log) (codes "parser") (codes "completed")
        ≡ codes "u6a: [parser] completed." ++ 10 ∷ [])
unfolding error_text info_text parts shown_ch digits isprint hex
messages = (refl, refl, refl, refl, refl, refl)

error_text-IsLine_example :
    IsLine (error_text log (codes "codegen") (write_failed 80 (codes "a.out")))
error_text-IsLine_example =
    error_text-IsLine log (codes "codegen") (write_failed 80 (codes "a.out")) refl refl refl

same_text :
    error_text log (codes "lex error") (bad_ch 7)
    ≡ error_text log (codes "lex error") (bad_ch (3 + 4))
same_text = refl

error_text-bad_ch_example : 7 ≡ 3 + 4
error_text-bad_ch_example =
    error_text-bad_ch log (codes "lex error") 7 (3 + 4) (omega arith) (omega arith) same_text
