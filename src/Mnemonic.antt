-- ===== src/Mnemonic.antt =====
-- mnemonic.c: the names of instructions and functions, as bytes. `none` stands for
-- `U6A_NOT_REACHED`, behind which nothing is defined.
use u6a.Base.{ℕ, Option, none, some, List, [], ◌∷◌, ltb, ◌==◌, ◌&&◌, if◌then◌else◌}
use u6a.Defs.TokenFn
use u6a.VmDefs.Opcode

unfoldable pub mnemonic_op : ℕ → Option (List ℕ)
mnemonic_op op =
    if op == Opcode.app
    then some (b'A' ∷ b'P' ∷ b'P' ∷ [])
    else if op == Opcode.la
    then some (b'L' ∷ b'A' ∷ [])
    else if op == Opcode.sa
    then some (b'S' ∷ b'A' ∷ [])
    else if op == Opcode.del
    then some (b'D' ∷ b'E' ∷ b'L' ∷ [])
    else if op == Opcode.lc
    then some (b'L' ∷ b'C' ∷ [])
    else if op == Opcode.xch
    then some (b'X' ∷ b'C' ∷ b'H' ∷ [])
    else none

unfoldable pub mnemonic_op_ex : ℕ → Option (List ℕ)
mnemonic_op_ex op_ex =
    if op_ex == Opcode.ex_print then some (b'p' ∷ b'r' ∷ b'i' ∷ b'n' ∷ b't' ∷ []) else none

-- The functions that only the virtual machine makes: with a reference, promises and internal ones.
unfoldable pub mnemonic_vm_fn : ℕ → Option (List ℕ)
mnemonic_vm_fn fn =
    if fn == 32
    then some (b'`' ∷ b'k' ∷ [])
    else if fn == 33
    then some (b'`' ∷ b's' ∷ [])
    else if fn == 34
    then some (b'`' ∷ b'`' ∷ b's' ∷ [])
    else if fn == 35
    then some (b'`' ∷ b'c' ∷ [])
    else if fn == 96
    then some (b'`' ∷ b'd' ∷ [])
    else if fn == 97
    then some (b'`' ∷ b'd' ∷ [])
    else if fn == 64
    then some (b'`' ∷ b'd' ∷ [])
    else if fn == 128
    then some (b'~' ∷ b'j' ∷ [])
    else if fn == 129
    then some (b'~' ∷ b'f' ∷ [])
    else if fn == 130
    then some (b'~' ∷ b'p' ∷ [])
    else none

unfoldable pub mnemonic_fn : ℕ → Option (List ℕ)
mnemonic_fn fn =
    if fn == TokenFn.placeholder
    then some (b'a' ∷ b'c' ∷ b'c' ∷ [])
    else if fn == TokenFn.k
    then some (b'k' ∷ [])
    else if fn == TokenFn.s
    then some (b's' ∷ [])
    else if fn == TokenFn.i
    then some (b'i' ∷ [])
    else if fn == TokenFn.v
    then some (b'v' ∷ [])
    else if fn == TokenFn.c
    then some (b'c' ∷ [])
    else if fn == TokenFn.d
    then some (b'd' ∷ [])
    else if fn == TokenFn.e
    then some (b'e' ∷ [])
    else if fn == TokenFn.at
    then some (b'@' ∷ [])
    else if fn == TokenFn.pipe
    then some (b'|' ∷ [])
    else if fn == TokenFn.out
    then some (b'.' ∷ [])
    else if fn == TokenFn.cmp
    then some (b'?' ∷ [])
    else mnemonic_vm_fn fn

-- The entry of `ascii_table` for a printable byte is that byte.
unfoldable pub mnemonic_ch : ℕ → Option (List ℕ)
mnemonic_ch ch =
    if ch == b' '
    then some (b'<' ∷ b'S' ∷ b'P' ∷ b'>' ∷ [])
    else if ch == 10
    then some (b'<' ∷ b'L' ∷ b'F' ∷ b'>' ∷ [])
    else if ltb 32 ch && ltb ch 127
    then some (ch ∷ [])
    else none
