-- ===== src/VmDefs/Opcode.antt =====
-- `enum u6a_vm_opcode` and `enum u6a_vm_opcode_ex` of vm_defs.h.
use u6a.Base.{ℕ}

abbrev pub app : ℕ
app = 16

abbrev pub la : ℕ
la = 17

abbrev pub sa : ℕ
sa = 32

abbrev pub del : ℕ
del = 33

abbrev pub lc : ℕ
lc = 96

abbrev pub xch : ℕ
xch = 128

abbrev pub ex_print : ℕ
ex_print = 16
