-- ===== src/Dump/Tests.antt =====
-- A line of the dump, and its theorem at a small text.
use u6a.Base.{◌++◌, length, ℕ, ◌≡◌, inl, refl, true, some, List, [], ◌∷◌, arith}
use u6a.Defs.{token, Memory}
use u6a.Defs.TokenFn
use u6a.Lexer.Grammar.{simple, char, Source, word, end, letter, out}
use u6a.Parser.Term.{Term, leaf, app}
use u6a.Parser.Accepts.{tree}
use u6a.Codegen.{generate, app_ins}
use u6a.Mnemonic.{mnemonic_op, mnemonic_fn, mnemonic_ch}
use u6a.Dump.{write_mnemonic_ins, dump_mnemonics}
use u6a.Lexer.{isprint}
use u6a.Dump.{spaces, hex}
use u6a.Dump.Data.{hexdump, byte_column, length-byte_column}
use u6a.Dump.Data.Lines.{ShowsBytes, hexdump-ShowsBytes}
use u6a.Dump.Total.{dump_mnemonics-generate}

-- "00000012:  APP        .<SP>, .<LF>\n"
line_app :
    write_mnemonic_ins 18 (app_ins (token TokenFn.out b' ') (token TokenFn.out 10))
    ≡ some (
        b'0' ∷ b'0' ∷ b'0' ∷ b'0' ∷ b'0' ∷ b'0' ∷ b'1' ∷ b'2' ∷ b':' ∷ b' ' ∷ b' ' ∷ b'A' ∷ b'P'
        ∷ b'P' ∷ b' ' ∷ b' ' ∷ b' ' ∷ b' ' ∷ b' ' ∷ b' ' ∷ b' ' ∷ b' ' ∷ b'.' ∷ b'<' ∷ b'S' ∷ b'P'
        ∷ b'>' ∷ b',' ∷ b' ' ∷ b'.' ∷ b'<' ∷ b'L' ∷ b'F' ∷ b'>' ∷ 10 ∷ [])
unfolding write_mnemonic_ins mnemonic_op mnemonic_fn mnemonic_ch
line_app = refl

abbrev memory : Memory
memory = record { grants = λ _. true; fill = λ i. 7 }

-- "`.ai"
sample-Source :
    Source
      (b'`' ∷ b'.' ∷ b'a' ∷ b'i' ∷ [])
      (simple TokenFn.app ∷ char TokenFn.out b'a' ∷ simple TokenFn.i ∷ [])
sample-Source =
    word (letter (inl (refl, refl)))
      (word (out refl (inl (omega arith, omega arith))) (word (letter (ground arith)) end))

abbrev term : Term
term = app 7 (leaf (token TokenFn.out b'a')) (leaf (token TokenFn.i 7))

dump_mnemonics-generate_example :
    (lines : List ℕ) × (dump_mnemonics (generate true (tree term)).text ≡ some lines)
dump_mnemonics-generate_example =
    dump_mnemonics-generate memory true term sample-Source (omega arith) refl

-- "00000000:  6100 6264 7a  ... a.bdz\n"
hexdump-short :
    hexdump 5 0 (b'a' ∷ 0 ∷ b'b' ∷ b'd' ∷ b'z' ∷ [])
    ≡ (b'0' ∷ b'0' ∷ b'0' ∷ b'0' ∷ b'0' ∷ b'0' ∷ b'0' ∷ b'0' ∷ b':' ∷ b' ' ∷ b' ' ∷ b'6' ∷ b'1'
        ∷ b'0' ∷ b'0' ∷ b' ' ∷ b'6' ∷ b'2' ∷ b'6' ∷ b'4' ∷ b' ' ∷ b'7' ∷ b'a' ∷ b' ' ∷ b' ' ∷ b' '
        ∷ b' ' ∷ [])
      ++ (spaces 25 ++ (b'a' ∷ b'.' ∷ b'b' ∷ b'd' ∷ b'z' ∷ 10 ∷ []))
unfolding hexdump isprint hex
hexdump-short = refl

abbrev three : List ℕ
three = 1 ∷ 2 ∷ 3 ∷ []

length-byte_column_example : length (byte_column three) ≡ 41
length-byte_column_example = length-byte_column three (omega arith)

hexdump-ShowsBytes_example : ShowsBytes three (hexdump 3 0 three)
hexdump-ShowsBytes_example = hexdump-ShowsBytes 3 0 three (omega arith)
