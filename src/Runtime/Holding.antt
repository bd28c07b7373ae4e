-- ===== src/Runtime/Holding.antt =====
-- runtime.c, `u6a_runtime_execute`: the application of `k` and `s`, and of the functions that hold an
-- argument of theirs, to one.
use u6a.Base.{
  ℕ, ◌+◌, ◌<◌, ◌≡◌, refl, ◌∙◌, ap, true, false, List, ◌∷◌, Result, ok, arith, Bool-cases, inl, inr,
  ◌&&◌, ◌==◌,
}
use u6a.VmHeap.{VarFn, StackError}
use u6a.VmStack.{is_ref}
use u6a.VmPool.{Held, PoolCtx, fns, Vm, empty_fn, var_fn_addref, pool_get2}
use u6a.VmPool.Alloc.{InUse}
use u6a.VmPool.Owed.{
  Pins, Pinned, Sound, owed, pin, pin_also, Pinned-also, pin_also-Pinned, Live-head, Live-Pinned,
}
use u6a.VmPool.Allocs.{Sound-alloc}
use u6a.Semantics.{Value, World, constant_of, distribute_of, distribute_both}
use u6a.Runtime.{Program, ExecState, fn_ref, set_acc, advance, add_ref, alloc_acc}
use u6a.Runtime.Fn
use u6a.Runtime.Values.{Represents, Represents-mono}
use u6a.Runtime.Apply.{Round, next, and_advance, apply_hold, apply_s1, apply_k1}
use u6a.Runtime.Steps.{
  done, world, seg_len, Good, Ready, Good-fewer, Good-pin, Holds-refs, Fits-refs,
}
use u6a.Runtime.Macros.{Good-addref, addref-pool}
use u6a.Runtime.Yields.{Kept, Kept-same, Kept-trans, Goes}

-- The end of an application in one round.
pub at_once :
    {pr : Program} {r : Result StackError Round} {held : ℕ → Held} {pins : Pins} {p : ℕ} {y : Value}
    {w : World} {zs : List VarFn} {cells grows : ℕ} (st : ExecState) (pins' : Pins)
    → r ≡ ok (next st)
    → st.ins ≡ p
    → Represents st.vm.pool.held pins' st.acc y
    → world st ≡ w
    → Ready pr st pins' st.acc zs cells grows
    → Kept pins zs held st.vm.pool.held pins'
    → Goes pr r held pins p y w zs cells grows
at_once st pins' e h s w r k = record {
  after = st;
  goes = e;
  yields = record {
    final = st;
    pins' = pins';
    steps = done;
    here = h;
    represents = s;
    same = w;
    ready = r;
    kept = k;
  };
}

-- What there is a reference to is in use.
pub pinned-InUse :
    {v : Vm} {pins : Pins} {xs : List VarFn} {cells grows : ℕ}
    → Sound v pins xs cells grows
    → (d : ℕ) → pins d ≡ true
    → InUse v d
pinned-InUse {pins} s d h =
    let one : pin d pins ≡ 1 = rw h refl in (s.counted d (omega (arith, one))).0

pub owed-InUse :
    {v : Vm} {pins : Pins} {xs : List VarFn} {cells grows : ℕ}
    → Sound v pins xs cells grows
    → (d : ℕ) → 0 < owed d xs
    → InUse v d
owed-InUse s d h = (s.counted d (omega (arith, h))).0

more_pins : (x : VarFn) (pins : Pins) (d : ℕ) → pins d ≡ true → pin_also x pins d ≡ true
more_pins x pins d h =
    rw h (elim (Bool-cases (is_ref x && x.ref == d)) [ inl q ↦ rw q refl | inr q ↦ rw q refl ])

-- The last step: an element is allocated for two functions.
hold_both :
    {pr : Program} {held : ℕ → Held} {pins pins1 : Pins} {w : World} {zs : List VarFn}
    {cells grows : ℕ} (f : ℕ) (a b : VarFn) (st : ExecState) (y : Value)
    → ((e : ℕ) → is_ref (fn_ref f e) ≡ true)
    → Good pr st.vm pins1 zs (a ∷ b ∷ st.top ∷ zs) (1 + cells) grows
    → Pinned pins1 a
    → Pinned pins1 b
    → Kept pins zs held st.vm.pool.held pins1
    → world st ≡ w
    → ((e : ℕ) (held' : ℕ → Held)
        → held' e ≡ fns a b
        → ((d : ℕ) → InUse st.vm d → held' d ≡ st.vm.pool.held d)
        → Represents held' pins1 (fn_ref f e) y)
    → Goes pr (and_advance (alloc_acc f (fns a b) st)) held pins (st.ins + 1) y w zs cells grows
unfolding alloc_acc
hold_both {pr} {pins1 = pins1} {zs = zs} {cells = cells} {grows = grows} f a b st y is r pa pb kept
      ew rep =
    let (e, v1, alloc, stack, here, same, sound) =
      Sound-alloc st.vm pins1 (st.top ∷ zs) a b cells grows r.sound pa pb in
    let st1 : ExecState = advance (set_acc (fn_ref f e) (record st { vm = v1 })) in
    at_once st1 pins1 (rw (alloc, alloc_acc) refl) refl (rep e v1.pool.held here same) ew
      (record {
        stacked = Holds-refs st.vm.stack v1.stack zs stack r.stacked;
        fits = Fits-refs (seg_len pr) st.vm.stack v1.stack stack r.fits;
        sound = sound (fn_ref f e) (is e, refl);
      })
      (Kept-trans kept (λ d. omega arith)
        (record {
          pinned = λ d h. same d (pinned-InUse r.sound d h);
          on_stack = λ d h. same d (owed-InUse r.sound d (omega (arith, h)));
          more_pins = λ d h. h;
        }))

-- A reference to the argument is added for an element that will hold it, and it is pinned.
pub arg_added :
    {pr : Program} {pins : Pins} {zs : List VarFn} {cells : ℕ} (grows : ℕ) (st : ExecState)
    → Ready pr st pins st.arg zs cells (1 + grows)
    → Good pr
        (var_fn_addref st.arg st.vm)
        (pin_also st.arg pins)
        zs
        (st.arg ∷ st.top ∷ zs)
        cells
        grows
arg_added {pins = pins} {zs = zs} grows st r =
    Good-pin st.arg (st.arg ∷ st.top ∷ zs)
      (Good-addref grows st.arg r (Live-head st.vm pins st.arg (st.top ∷ zs)))

arg-Kept :
    (pins : Pins) (zs : List VarFn) (st : ExecState)
    → Kept pins zs st.vm.pool.held (var_fn_addref st.arg st.vm).pool.held (pin_also st.arg pins)
arg-Kept pins zs st = record {
  pinned = λ d h. ap (λ p. p.held d) (addref-pool st.arg st.vm);
  on_stack = λ d h. ap (λ p. p.held d) (addref-pool st.arg st.vm);
  more_pins = more_pins st.arg pins;
}

-- `k` and `s`.
pub apply_hold-Goes :
    {pr : Program} {pins : Pins} {w : World} {zs : List VarFn} {cells grows : ℕ} (f : ℕ)
    (st : ExecState) (x y : Value)
    → ((e : ℕ) → is_ref (fn_ref f e) ≡ true)
    → Ready pr st pins st.arg zs (1 + cells) (1 + grows)
    → Represents st.vm.pool.held pins st.arg x
    → world st ≡ w
    → ((e : ℕ) (held' : ℕ → Held) (pins' : Pins)
        → held' e ≡ fns st.arg empty_fn
        → Pinned pins' st.arg
        → Represents held' pins' st.arg x
        → Represents held' pins' (fn_ref f e) y)
    → Goes pr (apply_hold f st) st.vm.pool.held pins (st.ins + 1) y w zs cells grows
unfolding apply_hold
apply_hold-Goes {pins = pins} {zs = zs} {cells = cells} {grows = grows} f st x y is r rx ew rep =
    let pins1 : Pins = pin_also st.arg pins in
    let added = arg_added grows st r in
    hold_both f st.arg empty_fn (add_ref st.arg st) y is
      (Good-fewer (st.arg ∷ empty_fn ∷ st.top ∷ zs) (1 + cells) grows added (λ d. omega arith)
        (omega arith) (omega arith))
      (pin_also-Pinned st.arg pins) (λ h. (let b : false ≡ true = h in cc)) (arg-Kept pins zs st) ew
      (λ e held' here same.
        let same' : (d : ℕ) → InUse (var_fn_addref st.arg st.vm) d → held' d ≡ st.vm.pool.held d =
          λ d u. same d u ∙ ap (λ p. p.held d) (addref-pool st.arg st.vm) in
        rep e held' pins1 here (pin_also-Pinned st.arg pins) (
          Represents-mono st.arg x
            (λ d h. same' d (pinned-InUse added.sound d (more_pins st.arg pins d h)))
            (more_pins st.arg pins)
            (λ h.
              same' st.arg.ref
                (pinned-InUse added.sound st.arg.ref (pin_also-Pinned st.arg pins h)))
            rx))

pub pool_get2-fns :
    (e : ℕ) (v : Vm) {a b : VarFn} → v.pool.held e ≡ fns a b → pool_get2 e v ≡ ok (a, b)
unfolding pool_get2
pool_get2-fns e v h = rw (h, pool_get2) refl

-- `s` with an argument.
pub apply_s1-Goes :
    {pr : Program} {pins : Pins} {w : World} {zs : List VarFn} {cells grows : ℕ} (st : ExecState)
    (x y : Value)
    → Ready pr st pins st.arg zs (1 + cells) (2 + grows)
    → Represents st.vm.pool.held pins st.func (distribute_of x)
    → Represents st.vm.pool.held pins st.arg y
    → world st ≡ w
    → Goes pr (apply_s1 st) st.vm.pool.held pins (st.ins + 1) (distribute_both x y) w zs cells grows
unfolding apply_s1
apply_s1-Goes {pr} {pins} {w} {zs} {cells} {grows} st x y r (fn, p, q, h, pp, rp) ry ew =
    let pins1 : Pins = pin_also st.arg pins in
    let v1 : Vm = var_fn_addref st.arg st.vm in
    let two : Ready pr st pins st.arg zs (1 + cells) (1 + (1 + grows)) =
      Good-fewer (st.arg ∷ st.top ∷ zs) (1 + cells) (1 + (1 + grows)) r (λ d. omega arith)
        (omega arith) (omega arith) in
    let pp1 : Pinned pins1 p = Pinned-also st.arg p pins pp in
    let both =
      Good-addref grows p (arg_added (1 + grows) st two)
        (Live-Pinned v1 pins1 p (st.arg ∷ st.top ∷ zs) pp1) in
    let same_pool : (d : ℕ) → (var_fn_addref p v1).pool.held d ≡ st.vm.pool.held d =
      λ d. ap (λ p. p.held d) (addref-pool p v1) ∙ ap (λ p. p.held d) (addref-pool st.arg st.vm) in
    let goes =
      hold_both {held = st.vm.pool.held} {pins = pins} Fn.s2 p st.arg
        (add_ref p (add_ref st.arg st)) (distribute_both x y) (λ e. refl) both pp1
        (pin_also-Pinned st.arg pins)
        (record {
          pinned = λ d k. same_pool d;
          on_stack = λ d k. same_pool d;
          more_pins = more_pins st.arg pins;
        })
        ew
        (λ e held' here same.
          let old : (d : ℕ) → pins1 d ≡ true → held' d ≡ st.vm.pool.held d =
            λ d k. same d (pinned-InUse both.sound d k) ∙ same_pool d in
          let old0 : (d : ℕ) → pins d ≡ true → held' d ≡ st.vm.pool.held d =
            λ d k. old d (more_pins st.arg pins d k) in
          (
            refl,
            p,
            st.arg,
            here,
            pp1,
            pin_also-Pinned st.arg pins,
            Represents-mono p x old0 (more_pins st.arg pins) (λ k. old0 p.ref (pp k)) rp,
            Represents-mono st.arg y old0 (more_pins st.arg pins)
                (λ k. old st.arg.ref (pin_also-Pinned st.arg pins k)) ry,
          )) in
    rw (pool_get2-fns st.func.ref st.vm h, apply_s1) goes

-- `k` with an argument.
pub apply_k1-Goes :
    {pr : Program} {pins : Pins} {w : World} {zs : List VarFn} {cells grows : ℕ} (st : ExecState)
    (x : Value)
    → Ready pr st pins st.arg zs cells (1 + grows)
    → Represents st.vm.pool.held pins st.func (constant_of x)
    → world st ≡ w
    → Goes pr (apply_k1 st) st.vm.pool.held pins (st.ins + 1) x w zs cells grows
unfolding apply_k1
apply_k1-Goes {pr} {pins} {w} {zs} {cells} {grows} st x r (fn, p, q, h, pp, rp) ew =
    let added = Good-addref grows p r (Live-Pinned st.vm pins p (st.arg ∷ st.top ∷ zs) pp) in
    let same : (var_fn_addref p st.vm).pool.held ≡ st.vm.pool.held =
      ap (λ (c : PoolCtx). c.held) (addref-pool p st.vm) in
    let st1 : ExecState = advance (set_acc p (add_ref p st)) in
    at_once {zs = zs} st1 pins (rw (pool_get2-fns st.func.ref st.vm h, apply_k1) refl) refl
      (Represents-mono p x (λ d k. ap (λ (g : ℕ → Held). g d) same) (λ d k. k)
        (λ k. ap (λ (g : ℕ → Held). g p.ref) same) rp)
      ew
      (Good-fewer (p ∷ st.top ∷ zs) cells grows added (λ d. omega arith) (omega arith)
        (omega arith))
      (Kept-same same)
