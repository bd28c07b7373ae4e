-- ===== src/VmHeap.antt =====
-- The segments of the stack of vm_stack.h in memory, and the context that points to them.
use u6a.Base.{ℕ, ◌+◌, Option, none, some, List, Result, ok, err, ◌>>=◌, ◌==◌, if◌then◌else◌, u32}

-- `struct u6a_vm_var_fn`.
pub record VarFn : Type 0 where
  pub fn : ℕ
  pub ch : ℕ
  pub ref : ℕ

-- `elems` up to `top`, the element at `top` first; it is empty where `top` is UINT32_MAX.
pub record Segment : Type 0 where
  pub prev : Option ℕ
  pub elems : List VarFn
  pub refcnt : ℕ

abbrev pub segment : Option ℕ → List VarFn → ℕ → Segment
segment p es r = record { prev = p; elems = es; refcnt = r }

-- What stands at an address.
abbrev pub Heap : Type 0
Heap = ℕ → Option Segment

abbrev pub put : ℕ → Option Segment → Heap → Heap
put a o h = λ b. if a == b then o else h b

-- The heap with the address of the next segment that is allocated, the context, and the reference
-- counts of the pool.
pub record StackCtx : Type 0 where
  pub heap : Heap
  pub next : ℕ
  pub active : ℕ
  pub seg_len : ℕ
  pub refs : ℕ → ℕ

-- The errors of the virtual machine. `bad_pointer` and `out_of_bounds` belong to the model: what they
-- stand for is undefined in C; and so does `out_of_fuel`. `vm_err` is a jump out of the program
-- without a message, `invalid` the end at an opcode or a function that there is not.
pub data StackError : Type 0 where
  bad_alloc : StackError
  stack_underflow : StackError
  vm_err : StackError
  bad_pointer : StackError
  out_of_bounds : StackError
  pool_oom : StackError
  invalid : StackError
  out_of_fuel : StackError

-- Increment and decrement of a `uint32_t`.
abbrev pub inc : ℕ → ℕ
inc n = u32 (n + 1)

abbrev pub dec : ℕ → ℕ
dec n = u32 (n + 0xFFFFFFFF)

abbrev pub set_prev : Option ℕ → Segment → Segment
set_prev p s = record s { prev = p }

abbrev pub set_elems : List VarFn → Segment → Segment
set_elems es s = record s { elems = es }

abbrev pub set_refcnt : ℕ → Segment → Segment
set_refcnt r s = record s { refcnt = r }

-- Reading and writing through a pointer, and `free`.
unfoldable pub segment_at : ℕ → StackCtx → Result StackError Segment
segment_at a ctx = elim (ctx.heap a) [ none ↦ err bad_pointer | some s ↦ ok s ]

abbrev pub store : ℕ → Segment → StackCtx → StackCtx
store a s ctx = record ctx { heap = put a (some s) ctx.heap }

unfoldable pub update : ℕ → (Segment → Segment) → StackCtx → Result StackError StackCtx
unfolding segment_at
update a f ctx = segment_at a ctx >>= λ s. ok (store a (f s) ctx)

abbrev pub free : ℕ → StackCtx → StackCtx
free a ctx = record ctx { heap = put a none ctx.heap }

abbrev pub activate : ℕ → StackCtx → StackCtx
activate a ctx = record ctx { active = a }
