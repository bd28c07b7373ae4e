-- ===== src/Dump.antt =====
-- dump.c: the lines of `-S` for the instructions. Where a name is asked for that mnemonic.c does
-- not have, the result is `none`. All writes are taken to succeed.
mod Tests
pub mod Names
pub mod Total
pub mod Data
use u6a.Base.{
  ℕ, zero, suc, ◌+◌, ◌-◌, ◌*◌, ◌/◌, ◌%◌, ◌^◌, Bool, Option, none, some, List, [], ◌∷◌, ◌++◌, length,
  replicate, ltb, ◌==◌, if◌then◌else◌,
}
use u6a.Defs.{Token, token}
use u6a.VmDefs.{Operand, offset, fns, VmIns}
use u6a.VmDefs.Opcode
use u6a.Bytecode.{operand_word, network}
use u6a.Mnemonic.{mnemonic_op, mnemonic_op_ex, mnemonic_fn, mnemonic_ch}

abbrev pub hex_digit : ℕ → ℕ
hex_digit n = if ltb n 10 then b'0' + n else b'a' + (n - 10)

-- `%0nx`, of an integer with at most `n` digits.
unfoldable pub hex : ℕ → ℕ → List ℕ
hex zero x = []
hex (suc n) x = hex n (x / 16) ++ hex_digit (x % 16) ∷ []

abbrev pub spaces : ℕ → List ℕ
spaces n = replicate n b' '

-- `%-ns`.
abbrev pub pad_right : ℕ → List ℕ → List ℕ
pad_right n text = text ++ spaces (n - length text)

-- Bits 4, 5 and 6 of an opcode or a function.
abbrev pub bit : ℕ → ℕ → Bool
bit i n = n / 2 ^ i % 2 == 1

-- `ntohl` of the memory of the operand.
pub operand_offset : Operand → ℕ
operand_offset o = let w = operand_word o in w.b0 * 2 ^ 24 + w.b1 * 2 ^ 16 + w.b2 * 2 ^ 8 + w.b3

-- The first function, its comma and the spaces that align the second. No name with its character
-- is longer than five bytes.
pub write_first : Token → Option (List ℕ)
write_first t = elim (mnemonic_fn t.fn) [
  | none ↦ none
  | some fn ↦
      if bit 4 t.fn
      then (elim (mnemonic_ch t.ch) [
        | none ↦ none
        | some ch ↦ some (b' ' ∷ fn ++ ch ++ b',' ∷ spaces (5 - (length fn + length ch)))
      ])
      else some (b' ' ∷ fn ++ b',' ∷ spaces (5 - length fn))
]

pub write_second : Token → Option (List ℕ)
write_second t = elim (mnemonic_fn t.fn) [
  | none ↦ none
  | some fn ↦
      if bit 4 t.fn
      then (elim (mnemonic_ch t.ch) [
        | none ↦ none
        | some ch ↦ some (b' ' ∷ fn ++ pad_right 4 ch ++ 10 ∷ [])
      ])
      else some (b' ' ∷ fn ++ 10 ∷ [])
]

abbrev pub first_of : Operand → Token
first_of (offset n) = token ((network n).b0) ((network n).b1)
first_of (fns first second) = first

abbrev pub second_of : Operand → Token
second_of (offset n) = token ((network n).b2) ((network n).b3)
second_of (fns first second) = second

-- The name of the instruction.
pub write_op : VmIns → Option (List ℕ)
write_op ins = elim (mnemonic_op ins.opcode) [
  | none ↦ none
  | some op ↦
      if bit 6 ins.opcode
      then (elim (mnemonic_op_ex ins.opcode_ex) [
        | none ↦ none
        | some op_ex ↦ some (op ++ b'<' ∷ pad_right 5 op_ex ++ b'>' ∷ spaces (3 - length op))
      ])
      else some (pad_right 10 op)
]

pub write_operand : VmIns → Option (List ℕ)
unfolding write_first write_second operand_offset
write_operand ins =
    if bit 5 ins.opcode
    then some (b' ' ∷ b'0' ∷ b'x' ∷ hex 8 (operand_offset ins.operand) ++ 10 ∷ [])
    else if ins.opcode == Opcode.app
    then (elim (write_first (first_of ins.operand)) [
      | none ↦ none
      | some first ↦ elim (write_second (second_of ins.operand)) [
        | none ↦ none
        | some second ↦ some (first ++ second)
      ]
    ])
    else some (b' ' ∷ 10 ∷ [])

pub write_mnemonic_ins : ℕ → VmIns → Option (List ℕ)
unfolding hex write_op write_operand
write_mnemonic_ins position ins = elim (write_op ins) [
  | none ↦ none
  | some op ↦ elim (write_operand ins) [
    | none ↦ none
    | some operand ↦ some (hex 8 position ++ b':' ∷ b' ' ∷ b' ' ∷ op ++ operand)
  ]
]

pub write_lines : ℕ → List VmIns → Option (List ℕ)
write_lines position [] = some (10 ∷ [])
write_lines position (ins ∷ text) =
    let rest = write_lines (position + 1) text in
    elim (write_mnemonic_ins position ins) [
      | none ↦ none
      | some line ↦ elim rest [ none ↦ none | some lines ↦ some (line ++ lines) ]
    ]

pub dump_mnemonics : List VmIns → Option (List ℕ)
unfolding write_lines
dump_mnemonics text = elim (write_lines 0 text) [
  | none ↦ none
  | some lines ↦ some (b'.' ∷ b't' ∷ b'e' ∷ b'x' ∷ b't' ∷ 10 ∷ lines)
]
