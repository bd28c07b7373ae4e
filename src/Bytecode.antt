-- ===== src/Bytecode.antt =====
-- The bytes of a bytecode file: `write_bc_header` and the last part of `u6a_codegen` in codegen.c.
use u6a.Base.{
  ℕ, ◌*◌, ◌/◌, ◌%◌, ◌^◌, Bool, List, [], ◌∷◌, ◌++◌, length, Result, ok, err, if◌then◌else◌, u32,
}
use u6a.Defs.{AstNode, Memory}
use u6a.VmDefs.{Operand, offset, fns, VmIns}
use u6a.Codegen.{generate}

-- Four bytes of memory, in the order of their addresses.
pub record Word4 : Type 0 where
  pub b0 : ℕ
  pub b1 : ℕ
  pub b2 : ℕ
  pub b3 : ℕ

abbrev pub word4 : ℕ → ℕ → ℕ → ℕ → Word4
word4 a b c d = record { b0 = a; b1 = b; b2 = c; b3 = d }

-- What `htonl` leaves in memory, on every host: the most significant byte first.
unfoldable pub network : ℕ → Word4
network n = word4 (n / 2 ^ 24 % 256) (n / 2 ^ 16 % 256) (n / 2 ^ 8 % 256) (n % 256)

abbrev pub word_bytes : Word4 → List ℕ
word_bytes w = w.b0 ∷ w.b1 ∷ w.b2 ∷ w.b3 ∷ []

-- The memory of an operand.
unfoldable pub operand_word : Operand → Word4
operand_word (offset n) = network n
operand_word (fns first second) = word4 first.fn first.ch second.fn second.ch

abbrev pub ins_size : ℕ
ins_size = 8

unfoldable pub ins_bytes : VmIns → List ℕ
ins_bytes i = i.opcode ∷ i.opcode_ex ∷ 0 ∷ 0 ∷ word_bytes (operand_word i.operand)

unfoldable pub text_bytes : List VmIns → List ℕ
text_bytes [] = []
text_bytes (i ∷ text) = ins_bytes i ++ text_bytes text

abbrev pub magic : ℕ
magic = 0xDC

abbrev pub ver_major : ℕ
ver_major = 0

abbrev pub ver_minor : ℕ
ver_minor = 1

abbrev pub file_header_size : ℕ
file_header_size = 4

abbrev pub prog_header_size : ℕ
prog_header_size = 8

unfoldable pub header_bytes : (text_len rodata_len : ℕ) → List ℕ
header_bytes text_len rodata_len =
    magic
    ∷ ver_major
    ∷ ver_minor
    ∷ prog_header_size
    ∷ (word_bytes (network (u32 (text_len * ins_size))) ++ word_bytes (network (u32 rodata_len)))

pub data CodegenError : Type 0 where
  bad_alloc : ℕ → CodegenError
  write_failed : ℕ → CodegenError

-- `accepts` says of each of the three calls of `fwrite` whether it writes everything.
unfoldable pub codegen :
    Memory → (accepts : ℕ → Bool) → Bool → List AstNode → Result CodegenError (List ℕ)
codegen m accepts optimize_const ast =
    let ast_len = length ast in
    let st = generate optimize_const ast in
    let text_len = length st.text in
    let rodata_len = length st.rodata in
    if m.grants (ast_len * 9)
    then (if m.grants (ast_len * 12)
        then (if accepts 0
            then (if accepts 1
                then (if accepts 2
                    then ok (header_bytes text_len rodata_len ++ (text_bytes st.text ++ st.rodata))
                    else err (write_failed rodata_len))
                else err (write_failed (u32 (text_len * ins_size))))
            else err (write_failed 12))
        else err (bad_alloc (ast_len * 12)))
    else err (bad_alloc (ast_len * 9))
