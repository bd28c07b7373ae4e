-- ===== src/Runtime.antt =====
-- runtime.c, `u6a_runtime_execute`: its variables, and the macros that its cases use.
pub mod Fn
pub mod Apply
pub mod Step
pub mod Start
pub mod Rounds
pub mod Values
pub mod Cases
pub mod Steps
pub mod Macros
pub mod Yields
pub mod Holding
pub mod Reads
pub mod Serving
pub mod Distributes
pub mod Applications
pub mod Code
pub mod Strings
pub mod Legible
pub mod Computes
pub mod Loading
pub mod Correct
pub mod Agrees
mod Tests
use u6a.Base.{
  ℕ, ◌+◌, Bool, true, false, Option, none, some, List, [], ◌∷◌, ◌++◌, Result, ok, err, ◌>>=◌, ◌==◌,
  if◌then◌else◌,
}
use u6a.Defs.{Token, token}
use u6a.VmHeap.{VarFn, StackError, invalid}
use u6a.VmStack.{is_ref, push, top, pop, xch}
use u6a.VmPool.{Held, Vm, with_stack, pool_alloc, var_fn_addref, free_loop, clear_fstack, empty_fn}
use u6a.Loader.{RawIns, Machine}

-- What does not change while the program runs: the loaded text and constants, which byte of an
-- integer the host stores first, which segments are granted, and the fuel for each release of pool
-- elements.
pub record Program : Type 0 where
  pub machine : Machine
  pub little : Bool
  pub grants : ℕ → Bool
  pub fuel : ℕ

-- The local variables and the two streams; the position of `ins` in the text, and `none` for EOF.
pub record ExecState : Type 0 where
  pub vm : Vm
  pub acc : VarFn
  pub top : VarFn
  pub func : VarFn
  pub arg : VarFn
  pub ins : ℕ
  pub current_char : Option ℕ
  pub istream : List ℕ
  pub ostream : List ℕ

-- `U6A_VM_VAR_FN_REF`.
abbrev pub fn_ref : ℕ → ℕ → VarFn
fn_ref f r = record { fn = f; ch = 0; ref = r }

-- `x.token = t`.
abbrev pub set_token : Token → VarFn → VarFn
set_token t x = record x { fn = t.fn; ch = t.ch }

abbrev pub set_fn : ℕ → VarFn → VarFn
set_fn f x = record x { fn = f }

abbrev pub set_acc : VarFn → ExecState → ExecState
set_acc x st = record st { acc = x }

-- `++ins` at the end of a case, and `VM_JMP`.
abbrev pub advance : ExecState → ExecState
advance st = record st { ins = st.ins + 1 }

abbrev pub jump : ℕ → ExecState → ExecState
jump p st = record st { ins = p }

abbrev pub put_char : ℕ → ExecState → ExecState
put_char ch st = record st { ostream = st.ostream ++ ch ∷ [] }

-- `vm_var_fn_addref`.
abbrev pub add_ref : VarFn → ExecState → ExecState
add_ref x st = record st { vm = var_fn_addref x st.vm }

-- `STACK_PUSH1` to `STACK_PUSH4`, the last pushed first.
unfoldable pub stack_push : Program → List VarFn → ExecState → Result StackError ExecState
stack_push pr xs st =
    push pr.grants xs st.vm.stack >>= λ ctx. ok (record st { vm = with_stack ctx st.vm })

-- `vm_var_fn_free`.
unfoldable pub var_fn_free : Program → VarFn → Vm → Result StackError Vm
var_fn_free pr x v = elim (is_ref x) [
  | true ↦ free_loop pr.fuel x.ref (clear_fstack v)
  | false ↦ ok v
]

-- `STACK_POP`, without the assignment to its argument.
unfoldable pub stack_pop : Program → ExecState → Result StackError (VarFn × ExecState)
unfolding var_fn_free
stack_pop pr st = var_fn_free pr st.top st.vm >>= λ v. top v.stack >>= λ (x, ctx).
    pop pr.grants ctx >>= λ ctx'. ok (x, record st { vm = with_stack ctx' v; top = x })

-- `STACK_XCH`.
unfoldable pub stack_xch : Program → VarFn → ExecState → Result StackError (VarFn × ExecState)
stack_xch pr x st =
    xch pr.grants x st.vm.stack >>= λ (y, ctx). ok (y, record st { vm = with_stack ctx st.vm })

-- `ACC_FN_REF` of an element that is allocated for it.
unfoldable pub alloc_acc : ℕ → Held → ExecState → Result StackError ExecState
alloc_acc f h st = pool_alloc h st.vm >>= λ (e, v). ok (set_acc (fn_ref f e) (record st { vm = v }))

-- `CHECK_FORCE`: the case ends, or the program does.
unfoldable pub check_force : Program → ExecState → Result StackError ExecState
check_force pr st = if pr.machine.force_exec then ok (advance st) else err invalid
