-- ===== src/VmDefs.antt =====
-- vm_defs.h: the instructions of the virtual machine.
pub mod Opcode
use u6a.Base.{ℕ}
use u6a.Defs.{Token, token}

-- The union of an instruction: a position, or two functions of which 0 stands for the accumulator.
pub data Operand : Type 0 where
  offset : ℕ → Operand
  fns : Token → Token → Operand

pub record VmIns : Type 0 where
  pub opcode : ℕ
  pub opcode_ex : ℕ
  pub operand : Operand

abbrev pub vm_ins : ℕ → Operand → VmIns
vm_ins op o = record { opcode = op; opcode_ex = 0; operand = o }

abbrev pub no_token : Token
no_token = token 0 0

abbrev pub set_offset : ℕ → VmIns → VmIns
set_offset n ins = record ins { operand = offset n }
