-- ===== src/Loader.antt =====
-- runtime.c, up to the execution: reading a bytecode file into the memory of the virtual machine.
mod Tests
pub mod RoundTrip
pub mod Info
use u6a.Base.{
  ℕ, zero, suc, ◌+◌, ◌*◌, ◌/◌, ◌%◌, ◌^◌, Bool, true, false, ◌&&◌, ◌||◌, not, Option, none, some,
  List, [], ◌∷◌, ◌++◌, length, get_or, drop, leb, ltb, ◌==◌, if◌then◌else◌, u32,
}
use u6a.Defs.{Memory}
use u6a.VmDefs.Opcode
use u6a.Bytecode.{
  Word4, word4, magic, ver_major, ver_minor, file_header_size, prog_header_size, ins_size,
}

-- An instruction in memory.
pub record RawIns : Type 0 where
  pub opcode : ℕ
  pub opcode_ex : ℕ
  pub operand : Word4

abbrev pub raw_ins : ℕ → ℕ → Word4 → RawIns
raw_ins op ex w = record { opcode = op; opcode_ex = ex; operand = w }

-- Which byte of an integer the host stores first: the least significant if `little`.
unfoldable pub host_word : Bool → Word4 → ℕ
host_word little w =
    if little
    then w.b0 + w.b1 * 2 ^ 8 + w.b2 * 2 ^ 16 + w.b3 * 2 ^ 24
    else w.b3 + w.b2 * 2 ^ 8 + w.b1 * 2 ^ 16 + w.b0 * 2 ^ 24

-- `x = ntohl(x)`, as a change of the memory of `x`.
unfoldable pub swap_word : Bool → Word4 → Word4
swap_word little w = if little then word4 w.b3 w.b2 w.b1 w.b0 else w

-- The value of `ntohl` of an integer in memory.
abbrev pub net_word : Bool → Word4 → ℕ
net_word little w = host_word little (swap_word little w)

pub record BcHeader : Type 0 where
  pub major : ℕ
  pub minor : ℕ
  pub header_size : ℕ
  pub text_size : Word4
  pub rodata_size : Word4

-- Reading the header: it fails, writes behind the end of the structure, or gives the header and the
-- rest of the input.
pub data HeaderRead : Type 0 where
  failed : HeaderRead
  overrun : HeaderRead
  read : BcHeader → List ℕ → HeaderRead

-- `fread` of `n` bytes: those bytes and the rest, or none where the input is shorter.
pub take_bytes : ℕ → List ℕ → Option (List ℕ × List ℕ)
take_bytes zero input = some ([], input)
take_bytes (suc n) [] = none
take_bytes (suc n) (ch ∷ input) = elim (take_bytes n input) [
  | none ↦ none
  | some (bytes, rest) ↦ some (ch ∷ bytes, rest)
]

-- The input from the first magic byte on, where `ungetc` has put it back.
pub seek_magic : List ℕ → List ℕ
seek_magic [] = []
seek_magic (ch ∷ input) = if ch == magic then ch ∷ input else seek_magic input

-- The four bytes at an index of the program header.
pub word_at : ℕ → List ℕ → Word4
word_at i bytes =
    word4 (get_or bytes i 0) (get_or bytes (i + 1) 0) (get_or bytes (i + 2) 0)
      (get_or bytes (i + 3) 0)

abbrev pub bc_header : (major minor size : ℕ) → List ℕ → BcHeader
bc_header major minor size prog = record {
  major = major;
  minor = minor;
  header_size = size;
  text_size = word_at 0 prog;
  rodata_size = word_at 4 prog;
}

-- The second `fread`. `held` is what the eight bytes of the program header held before.
pub read_prog : (held : List ℕ) → (major minor size : ℕ) → List ℕ → HeaderRead
unfolding word_at take_bytes
read_prog held major minor size input =
    if leb size prog_header_size
    then (elim (take_bytes size input) [
      | none ↦ failed
      | some (bytes, rest) ↦ read (bc_header major minor size (bytes ++ drop size held)) rest
    ])
    else if leb (length input) prog_header_size
    then failed
    else overrun

-- `read_bc_header`, from the magic byte on.
pub read_file_header : (held : List ℕ) → List ℕ → HeaderRead
unfolding read_prog
read_file_header held (_ ∷ major ∷ minor ∷ size ∷ input) =
    if leb file_header_size size
    then read_prog held major minor size input
    else read (bc_header major minor size held) input
read_file_header held _ = failed

pub read_bc_header : (held : List ℕ) → List ℕ → HeaderRead
unfolding read_file_header seek_magic
read_bc_header held input = read_file_header held (seek_magic input)

-- `fread` of `n` instructions, then the conversion of offsets below.
pub read_text : ℕ → List ℕ → Option (List RawIns × List ℕ)
read_text zero input = some ([], input)
read_text (suc n) (op ∷ ex ∷ _ ∷ _ ∷ a ∷ b ∷ c ∷ d ∷ input) = elim (read_text n input) [
  | none ↦ none
  | some (text, rest) ↦ some (raw_ins op ex (word4 a b c d) ∷ text, rest)
]
read_text (suc n) _ = none

-- `U6A_VM_OP_OFFSET`, bit 5 of the opcode.
unfoldable pub has_offset : ℕ → Bool
has_offset op = op / 2 ^ 5 % 2 == 1

abbrev pub zero_word : Word4
zero_word = word4 0 0 0 0

-- `text_subst`.
abbrev pub text_subst : List RawIns
text_subst =
    raw_ins Opcode.la 0 zero_word
    ∷ raw_ins Opcode.xch 0 zero_word
    ∷ raw_ins Opcode.la 0 zero_word
    ∷ raw_ins Opcode.la 0 zero_word
    ∷ raw_ins Opcode.la 0 zero_word
    ∷ []

abbrev pub text_subst_len : ℕ
text_subst_len = 5

-- The loop over `text + text_subst_len` up to `text + text_len`, from position `j`.
unfoldable pub convert : Bool → (text_len j : ℕ) → List RawIns → List RawIns
convert little text_len j [] = []
convert little text_len j (ins ∷ text) =
    (if ltb j text_len && has_offset ins.opcode
      then record ins { operand = swap_word little ins.operand }
      else ins)
    ∷ convert little text_len (j + 1) text

-- What `u6a_runtime_init` sets up; `istream` is the input that is left.
pub record Machine : Type 0 where
  pub text : List RawIns
  pub rodata : List ℕ
  pub istream : List ℕ
  pub force_exec : Bool
  pub stack_seg_len : ℕ
  pub pool_len : ℕ

pub record RuntimeOptions : Type 0 where
  pub stack_segment_size : ℕ
  pub pool_size : ℕ
  pub force_exec : Bool

pub data InitResult : Type 0 where
  init_failed : InitResult
  init_overrun : InitResult
  running : Machine → InitResult

-- The allocations of `u6a_vm_stack_init` and `u6a_vm_pool_init`.
pub vm_allocs : Memory → RuntimeOptions → (text_len : ℕ) → Bool
vm_allocs m opts text_len =
    m.grants (u32 (16 + opts.stack_segment_size * 8))
    && (m.grants (u32 (8 + opts.pool_size * 24))
        && (m.grants (u32 (8 + opts.pool_size * 8)) && m.grants (u32 (text_len * 8))))

-- The rest of `u6a_runtime_init`, given the sizes in bytes.
pub load :
    Memory → (little : Bool) → RuntimeOptions → (text_size rodata_len : ℕ) → List ℕ → InitResult
load m little opts text_size rodata_len input =
    let text_len = text_size / ins_size in
    if m.grants (text_size + 40) && m.grants rodata_len
    then (elim (read_text text_len input) [
      | none ↦ init_failed
      | some (text, rest) ↦ elim (take_bytes rodata_len rest) [
        | none ↦ init_failed
        | some (rodata, istream) ↦
            if vm_allocs m opts text_len
            then running (record {
              text = text_subst ++ convert little text_len text_subst_len text;
              rodata = rodata;
              istream = istream;
              force_exec = opts.force_exec;
              stack_seg_len = opts.stack_segment_size;
              pool_len = opts.pool_size;
            })
            else init_failed
      ]
    ])
    else init_failed

-- Whether the version of the file, or `-f`, lets the program run.
pub version_passes : RuntimeOptions → BcHeader → Bool
version_passes opts h =
    (h.major == ver_major && h.minor == ver_minor)
    || (opts.force_exec && h.header_size == file_header_size)

pub runtime_init : Memory → (little : Bool) → (held : List ℕ) → RuntimeOptions → List ℕ → InitResult
runtime_init m little held opts input = elim (read_bc_header held input) [
  | failed ↦ init_failed
  | overrun ↦ init_overrun
  | read h rest ↦
      if version_passes opts h
      then load m little opts (net_word little h.text_size) (net_word little h.rodata_size) rest
      else init_failed
]
