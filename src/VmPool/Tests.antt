-- ===== src/VmPool/Tests.antt =====
-- The pool with three elements taken, and its theorems at it.
use u6a.Base.{inr, ◌⊎◌, refl, none, [], ◌∷◌, arith, ◌==◌, if◌then◌else◌}
use u6a.VmHeap.{VarFn, StackCtx}
use u6a.VmPool.{fns, empty_fn, Vm, vm, pool_init}
use u6a.VmPool.Owed.{Pins, Sound-fewer}
use u6a.VmPool.Begins.{no_pins, pool_init-Sound}
use u6a.VmPool.Allocs.{Gives, Sound-alloc}
use u6a.VmPool.Frees.{Frees}
use u6a.VmPool.Alloc.{IsValid, Allocated, Exhausted, pool_alloc-IsValid}
use u6a.VmPool.Free.{Freed, free_loop-IsValid}

abbrev no_stack : StackCtx
no_stack = record {
  heap = λ a. none;
  next = 0;
  active = 0;
  seg_len = 64;
  refs = λ e. if e == 1 then 0 else 1;
}

-- The element 1 is a hole.
abbrev three_taken : Vm
three_taken = vm no_stack (record {
  held = λ e. fns empty_fn empty_fn;
  used = 3;
  holes = 1 ∷ [];
  fstack = [];
  pool_len = 16;
  fstack_len = 8;
})

three_taken-IsValid : IsValid three_taken
three_taken-IsValid = (omega arith, (omega arith, tt, tt))

pool_alloc-IsValid_example :
    Allocated (fns empty_fn empty_fn) three_taken ⊎ Exhausted (fns empty_fn empty_fn) three_taken
pool_alloc-IsValid_example =
    pool_alloc-IsValid (fns empty_fn empty_fn) three_taken three_taken-IsValid

free_loop-IsValid_example : Freed 0 2 three_taken
free_loop-IsValid_example =
    free_loop-IsValid 0 2 three_taken empty_fn empty_fn three_taken-IsValid
      (omega arith, (omega arith, tt)) refl refl refl refl refl

-- Nothing is taken yet.
abbrev at_start : Vm
at_start = vm no_stack (pool_init (λ e. fns empty_fn empty_fn) 16 8)

Sound-alloc_example : Gives at_start no_pins [] empty_fn empty_fn 1 5
Sound-alloc_example =
    Sound-alloc at_start no_pins [] empty_fn empty_fn 1 5
      (Sound-fewer [] (empty_fn ∷ empty_fn ∷ []) 2 5
        (pool_init-Sound no_stack (λ e. fns empty_fn empty_fn) 16 8 2 5 (omega arith) (omega arith)
          (inr (omega arith)))
        (λ e. omega arith) (omega arith) (omega arith))
      (λ r. cc) (λ r. cc)

-- The functions that hold the elements 0 and 1.
abbrev holds_0 : VarFn
holds_0 = record { fn = 34; ch = 0; ref = 0 }

abbrev holds_1 : VarFn
holds_1 = record { fn = 32; ch = 0; ref = 1 }

-- The element 0 holds the element 1, which the accumulator has held.
abbrev two_taken : Vm
two_taken =
    vm (record no_stack { refs = λ e. if e == 1 then 2 else 1 })
      (record {
        held = λ e. if e == 0 then fns holds_1 empty_fn else fns empty_fn empty_fn;
        used = 2;
        holes = [];
        fstack = [];
        pool_len = 16;
        fstack_len = 8;
      })

abbrev one_pinned : Pins
one_pinned = λ e. e == 1
