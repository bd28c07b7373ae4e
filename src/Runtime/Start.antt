-- ===== src/Runtime/Start.antt =====
-- runtime.c: the stack and the pool that `u6a_runtime_init` sets up, and a run of the program.
use u6a.Base.{ℕ, ◌-◌, Bool, none, List, [], length, Result, ok, err, ◌>>=◌}
use u6a.VmHeap.{StackCtx, StackError}
use u6a.VmStack.{stack_init}
use u6a.VmPool.{Held, Vm, vm, pool_init}
use u6a.Loader.{Machine, text_subst_len}
use u6a.Runtime.{Program}
use u6a.Runtime.Step.{Ending, runtime_error, runtime_execute}

-- A heap without segments, and a pool with what its memory holds.
abbrev pub no_segments : (refs : ℕ → ℕ) → StackCtx
no_segments refs = record { heap = λ a. none; next = 0; active = 0; seg_len = 0; refs = refs }

unfoldable pub vm_init :
    (grants : ℕ → Bool) → (held : ℕ → Held) → (refs : ℕ → ℕ) → Machine → Result StackError Vm
vm_init grants held refs machine =
    stack_init grants machine.stack_seg_len (no_segments refs) >>= λ ctx.
    ok (vm ctx (pool_init held machine.pool_len (length machine.text - text_subst_len)))

-- `u6a_runtime_execute` behind `u6a_runtime_init`, with the input.
unfoldable pub run :
    (rounds : ℕ) → Program → (held : ℕ → Held) → (refs : ℕ → ℕ) → (input : List ℕ) → Ending
unfolding vm_init
run rounds pr held refs input = elim (vm_init pr.grants held refs pr.machine) [
  | err e ↦ runtime_error e []
  | ok v ↦ runtime_execute rounds pr v input
]
