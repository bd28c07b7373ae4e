-- ===== src/Loader/Info.antt =====
-- runtime.c: `u6a_runtime_info`, what `-i` prints of a bytecode file.
use u6a.Base.{ℕ, ◌*◌, ◌<◌, ◌^◌, ◌≡◌, refl, Bool, ◌&&◌, List, ◌++◌, ◌==◌, if◌then◌else◌, u32, arith}
use u6a.Bytecode.{ver_major, ver_minor, prog_header_size, ins_size, header_bytes}
use u6a.Loader.{BcHeader, failed, overrun, read, net_word, read_bc_header}
use u6a.Loader.RoundTrip.{NoMagic, net_word-network, read_bc_header-bytes}

-- The lines behind the version: none for another version, else the two sizes in bytes, or the size of
-- a program header that is not recognised.
pub data InfoLines : Type 0 where
  other_version : InfoLines
  unrecognizable : ℕ → InfoLines
  sizes : ℕ → ℕ → InfoLines

pub data InfoResult : Type 0 where
  info_failed : InfoResult
  info_overrun : InfoResult
  info : (major minor : ℕ) → InfoLines → InfoResult

pub info_lines : (little : Bool) → BcHeader → InfoLines
info_lines little h =
    if h.major == ver_major && h.minor == ver_minor
    then (if h.header_size == prog_header_size
        then sizes (net_word little h.text_size) (net_word little h.rodata_size)
        else unrecognizable h.header_size)
    else other_version

pub runtime_info : (little : Bool) → (held : List ℕ) → List ℕ → InfoResult
unfolding info_lines
runtime_info little held input = elim (read_bc_header held input) [
  | failed ↦ info_failed
  | overrun ↦ info_overrun
  | read h rest ↦ info h.major h.minor (info_lines little h)
]

-- Of a file that the compiler writes, behind any prefix with no magic byte and whatever follows the
-- header, the version and the two sizes are reported, if the sizes fit 32 bits.
pub runtime_info-header_bytes :
    (little : Bool) (held prefix rest : List ℕ) (text_len rodata_len : ℕ)
    → NoMagic prefix
    → text_len * ins_size < 2 ^ 32
    → rodata_len < 2 ^ 32
    → runtime_info little held (prefix ++ (header_bytes text_len rodata_len ++ rest))
      ≡ info ver_major ver_minor (sizes (text_len * ins_size) rodata_len)
unfolding runtime_info info_lines
runtime_info-header_bytes little held prefix rest text_len rodata_len n h k =
    let len : u32 (text_len * ins_size) ≡ text_len * ins_size = omega arith in
    let rolen : u32 rodata_len ≡ rodata_len = omega arith in
    rw
      (
        read_bc_header-bytes held prefix rest text_len rodata_len n,
        runtime_info,
        net_word-network little (u32 (text_len * ins_size)) (omega arith),
        net_word-network little (u32 rodata_len) (omega arith),
        len,
        rolen,
      )
      refl
