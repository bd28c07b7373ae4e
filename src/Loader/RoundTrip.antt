-- ===== src/Loader/RoundTrip.antt =====
-- What the loader makes of the bytes that the compiler writes.
use u6a.Base.{
  ℕ, suc, ◌+◌, ◌*◌, ◌/◌, ◌%◌, ◌^◌, ◌<◌, ◌≡◌, ◌≢◌, refl, ◌∙◌, length-append, Bool, true, false, not,
  ◌||◌, Bool-cases, inl, inr, some, List, [], ◌∷◌, ◌++◌, map, length, arith, ltb, leb,
  if◌then◌else◌, u32, ne→==, get_or,
}
use u6a.Defs.{Memory}
use u6a.VmDefs.{offset, VmIns}
use u6a.Bytecode.{
  network, operand_word, ins_bytes, text_bytes, header_bytes, magic, ver_major, ver_minor,
  prog_header_size, ins_size,
}
use u6a.Loader.{
  RawIns, raw_ins, zero_word, host_word, swap_word, net_word, take_bytes, seek_magic,
  read_bc_header, read_text, convert, has_offset, text_subst, text_subst_len, Machine,
  RuntimeOptions, running, BcHeader, read, load, version_passes, vm_allocs, runtime_init,
}

-- The memory of an instruction as the compiler writes it.
unfoldable pub raw : VmIns → RawIns
raw i = raw_ins i.opcode i.opcode_ex (operand_word i.operand)

-- `htonl` and `ntohl` are inverse, whichever byte the host stores first.
pub net_word-network : (little : Bool) (n : ℕ) → n < 2 ^ 32 → net_word little (network n) ≡ n
unfolding network host_word swap_word
net_word-network true n h = omega arith
net_word-network false n h = omega arith

take_bytes-append :
    (bytes rest : List ℕ) → take_bytes (length bytes) (bytes ++ rest) ≡ some (bytes, rest)
unfolding take_bytes
take_bytes-append [] rest = refl
take_bytes-append (x ∷ bytes) rest = rw (take_bytes-append bytes rest)

read_text-bytes :
    (text : List VmIns) (rest : List ℕ)
    → read_text (length text) (text_bytes text ++ rest) ≡ some (map raw text, rest)
unfolding read_text text_bytes ins_bytes raw
read_text-bytes [] rest = refl
read_text-bytes (i ∷ text) rest = rw (read_text-bytes text rest)

-- A text before the header, such as `#!/usr/bin/env u6a`, that holds no magic byte.
abbrev pub NoMagic : List ℕ → Type 0
NoMagic [] = Unit
NoMagic (x ∷ xs) = (x ≢ magic) × NoMagic xs

seek_magic-skip :
    (prefix rest : List ℕ) → NoMagic prefix → seek_magic (prefix ++ magic ∷ rest) ≡ magic ∷ rest
unfolding seek_magic
seek_magic-skip [] rest n = refl
seek_magic-skip (x ∷ prefix) rest n = rw (ne→== x magic n.0) (seek_magic-skip prefix rest n.1)

-- Every allocation of the loader is granted.
abbrev pub GrantsAll : Memory → Type 0
GrantsAll m = (size : ℕ) → m.grants size ≡ true

abbrev pub loaded : Bool → RuntimeOptions → List VmIns → List ℕ → List ℕ → Machine
loaded little opts text rodata rest = record {
  text = text_subst ++ convert little (length text) text_subst_len (map raw text);
  rodata = rodata;
  istream = rest;
  force_exec = opts.force_exec;
  stack_seg_len = opts.stack_segment_size;
  pool_len = opts.pool_size;
}

load-bytes :
    (m : Memory) (little : Bool) (opts : RuntimeOptions) (text : List VmIns) (rodata rest : List ℕ)
    → GrantsAll m
    → load m little opts
        (length text * ins_size)
        (length rodata)
        (text_bytes text ++ (rodata ++ rest))
      ≡ running (loaded little opts text rodata rest)
unfolding load vm_allocs
load-bytes m little opts text rodata rest g =
    let same : length text * ins_size / ins_size ≡ length text = omega arith in
    rw (
      g (length text * ins_size + 40),
      g (length rodata),
      same,
      read_text-bytes text (rodata ++ rest),
      take_bytes-append rodata rest,
      same,
      g (u32 (16 + opts.stack_segment_size * 8)),
      g (u32 (8 + opts.pool_size * 24)),
      g (u32 (8 + opts.pool_size * 8)),
      g (u32 (length text * 8)),
    )

abbrev pub header : (text_len rodata_len : ℕ) → BcHeader
header text_len rodata_len = record {
  major = ver_major;
  minor = ver_minor;
  header_size = prog_header_size;
  text_size = network (u32 (text_len * ins_size));
  rodata_size = network (u32 rodata_len);
}

pub read_bc_header-bytes :
    (held prefix rest : List ℕ) (text_len rodata_len : ℕ)
    → NoMagic prefix
    → read_bc_header held (prefix ++ (header_bytes text_len rodata_len ++ rest))
      ≡ read (header text_len rodata_len) rest
unfolding read_bc_header header_bytes
read_bc_header-bytes held prefix rest text_len rodata_len n = rw (seek_magic-skip prefix _ n)

-- The file that the compiler writes for a text and constants, behind any prefix with no magic byte
-- and before any other bytes, is loaded: the constants as they were, the text behind the five
-- instructions of the runtime and with its offsets converted, and the other bytes left to be read.
pub runtime_init-bytes :
    (m : Memory) (little : Bool) (held : List ℕ) (opts : RuntimeOptions) (prefix : List ℕ)
    (text : List VmIns) (rodata rest : List ℕ)
    → GrantsAll m
    → NoMagic prefix
    → length text * ins_size < 2 ^ 32
    → length rodata < 2 ^ 32
    → runtime_init m little held opts (
        prefix
        ++ (header_bytes (length text) (length rodata) ++ (text_bytes text ++ (rodata ++ rest))))
      ≡ running (loaded little opts text rodata rest)
unfolding runtime_init version_passes
runtime_init-bytes m little held opts prefix text rodata rest g n h k =
    let len : u32 (length text * ins_size) ≡ length text * ins_size = omega arith in
    let rolen : u32 (length rodata) ≡ length rodata = omega arith in
    rw
      (
        read_bc_header-bytes held prefix (text_bytes text ++ (rodata ++ rest)) (length text)
            (length rodata) n,
        runtime_init,
        net_word-network little (u32 (length text * ins_size)) (omega arith),
        net_word-network little (u32 (length rodata)) (omega arith),
        len,
        rolen,
      )
      (load-bytes m little opts text rodata rest g)

-- The number whose four bytes are those of `n` in the opposite order.
abbrev pub byte_swapped : ℕ → ℕ
byte_swapped n =
    n % 256 * 2 ^ 24 + n / 2 ^ 8 % 256 * 2 ^ 16 + n / 2 ^ 16 % 256 * 2 ^ 8 + n / 2 ^ 24 % 256

-- The offset that the virtual machine reads in an instruction.
abbrev pub offset_at : Bool → List RawIns → ℕ → ℕ
offset_at little text i = host_word little (get_or text i (raw_ins 0 0 zero_word)).operand

converted :
    (little : Bool) (n : ℕ)
    → n < 2 ^ 32
    → net_word little (network n) ≡ (if not little || true then n else byte_swapped n)
unfolding network host_word swap_word
converted true n h = omega arith
converted false n h = omega arith

left_alone :
    (little : Bool) (n : ℕ)
    → n < 2 ^ 32
    → host_word little (network n) ≡ (if not little || false then n else byte_swapped n)
unfolding network host_word
left_alone true n h = omega arith
left_alone false n h = omega arith

convert-offset :
    (little : Bool) (text_len : ℕ) (A B : List VmIns) (ins : VmIns) (n j : ℕ)
    → ins.operand ≡ offset n
    → has_offset ins.opcode ≡ true
    → n < 2 ^ 32
    → offset_at little (convert little text_len j (map raw (A ++ ins ∷ B))) (length A)
      ≡ (if not little || ltb (j + length A) text_len then n else byte_swapped n)
unfolding convert raw operand_word
convert-offset little text_len [] B ins n j e o h =
    rw (e, o, let q : j + 0 ≡ j = omega arith in q)
      (elim (Bool-cases (ltb j text_len)) [
        | inl c ↦ rw c (converted little n h)
        | inr c ↦ rw c (left_alone little n h)
      ])
convert-offset little text_len (x ∷ A) B ins n j e o h =
    rw (let q : j + suc (length A) ≡ j + 1 + length A = omega arith in q)
      (convert-offset little text_len A B ins n (j + 1) e o h)

subst-offset :
    (little : Bool) (text : List RawIns) (i : ℕ)
    → offset_at little (text_subst ++ text) (text_subst_len + i) ≡ offset_at little text i
subst-offset little text i = rw (let q : 5 + i ≡ suc (suc (suc (suc (suc i)))) = omega arith in q)

-- In a loaded text, an instruction with an offset reads as that offset if the host stores the most
-- significant byte first, or if five or more instructions follow it in the text. Otherwise it is one
-- of the last five, which the loader does not convert, and reads as the offset with its bytes in the
-- opposite order.
pub loaded-offset :
    (little : Bool) (opts : RuntimeOptions) (A B : List VmIns) (ins : VmIns) (n : ℕ)
    (rodata rest : List ℕ)
    → ins.operand ≡ offset n
    → has_offset ins.opcode ≡ true
    → n < 2 ^ 32
    → offset_at little (loaded little opts (A ++ ins ∷ B) rodata rest).text (5 + length A)
      ≡ (if not little || leb 5 (length B) then n else byte_swapped n)
loaded-offset little opts A B ins n rodata rest e o h =
    let text_len : ℕ = length (A ++ ins ∷ B) in
    let count : length (A ++ ins ∷ B) ≡ length A + suc (length B) =
      omega (arith, length-append {0} A (ins ∷ B)) in
    let same : ltb (5 + length A) (length (A ++ ins ∷ B)) ≡ leb 5 (length B) =
      rw count (ground arith) in
    subst-offset little (convert little text_len 5 (map raw (A ++ ins ∷ B))) (length A)
    ∙ convert-offset little text_len A B ins n 5 e o h
    ∙ rw same
