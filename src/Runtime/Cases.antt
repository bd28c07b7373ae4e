-- ===== src/Runtime/Cases.antt =====
-- runtime.c, `u6a_runtime_execute`: which case of the `switch` at `do_apply` is taken.
use u6a.Base.{◌≡◌, refl, ok}
use u6a.Defs.TokenFn
use u6a.Runtime.{Program, ExecState, set_fn, set_acc, jump, advance, put_char}
use u6a.Runtime.Fn
use u6a.Runtime.Apply.{
  next, apply_in, apply_cmp, apply_pipe, apply_hold, apply_s1, apply_s2, apply_k1,
}
use u6a.Runtime.Step.{apply, apply_control, apply_input, apply_simple}

pub apply-at :
    (pr : Program) (st : ExecState) → st.func.fn ≡ TokenFn.at → apply pr st ≡ apply_in pr st
unfolding apply apply_control apply_input
apply-at pr st h = rw h refl

pub apply-cmp :
    (pr : Program) (st : ExecState) → st.func.fn ≡ TokenFn.cmp → apply pr st ≡ apply_cmp pr st
unfolding apply apply_control apply_input
apply-cmp pr st h = rw h refl

pub apply-pipe :
    (pr : Program) (st : ExecState) → st.func.fn ≡ TokenFn.pipe → apply pr st ≡ apply_pipe pr st
unfolding apply apply_control apply_input
apply-pipe pr st h = rw h refl

pub apply-i :
    (pr : Program) (st : ExecState)
    → st.func.fn ≡ TokenFn.i
    → apply pr st ≡ ok (next (advance (set_acc st.arg st)))
unfolding apply apply_control apply_input apply_simple
apply-i pr st h = rw h refl

pub apply-v :
    (pr : Program) (st : ExecState)
    → st.func.fn ≡ TokenFn.v
    → apply pr st ≡ ok (next (advance (set_acc (set_fn TokenFn.v st.acc) st)))
unfolding apply apply_control apply_input apply_simple
apply-v pr st h = rw h refl

pub apply-out :
    (pr : Program) (st : ExecState)
    → st.func.fn ≡ TokenFn.out
    → apply pr st ≡ ok (next (advance (put_char st.func.ch (set_acc st.arg st))))
unfolding apply apply_control apply_input apply_simple
apply-out pr st h = rw h refl

pub apply-j :
    (pr : Program) (st : ExecState)
    → st.func.fn ≡ Fn.j
    → apply pr st ≡ ok (next (advance (jump st.func.ref (set_acc st.arg st))))
unfolding apply apply_control apply_input apply_simple
apply-j pr st h = rw h refl

pub apply-k :
    (pr : Program) (st : ExecState) → st.func.fn ≡ TokenFn.k → apply pr st ≡ apply_hold Fn.k1 st
unfolding apply
apply-k pr st h = rw h refl

pub apply-s :
    (pr : Program) (st : ExecState) → st.func.fn ≡ TokenFn.s → apply pr st ≡ apply_hold Fn.s1 st
unfolding apply
apply-s pr st h = rw h refl

pub apply-s1 : (pr : Program) (st : ExecState) → st.func.fn ≡ Fn.s1 → apply pr st ≡ apply_s1 st
unfolding apply
apply-s1 pr st h = rw h refl

pub apply-s2 : (pr : Program) (st : ExecState) → st.func.fn ≡ Fn.s2 → apply pr st ≡ apply_s2 pr st
unfolding apply
apply-s2 pr st h = rw h refl

pub apply-k1 : (pr : Program) (st : ExecState) → st.func.fn ≡ Fn.k1 → apply pr st ≡ apply_k1 st
unfolding apply
apply-k1 pr st h = rw h refl
