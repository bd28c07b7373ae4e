-- ===== src/Runtime/Yields.antt =====
-- runtime.c, `u6a_runtime_execute`: the rounds of the loop that come to a position with a value.
use u6a.Base.{ℕ, ◌+◌, ◌≤◌, ◌<◌, ◌≡◌, ◌∙◌, ap, true, some, List, Result, ok, arith}
use u6a.VmDefs.Opcode
use u6a.VmHeap.{VarFn, StackError}
use u6a.VmPool.{Held}
use u6a.VmPool.Owed.{Pins, owed}
use u6a.Loader.{raw_ins, zero_word}
use u6a.Semantics.{Value, World}
use u6a.Runtime.{Program, ExecState}
use u6a.Runtime.Values.{Represents}
use u6a.Runtime.Apply.{Round, next}
use u6a.Runtime.Step.{apply, ins_at, step}
use u6a.Runtime.Steps.{Steps, done, more, Steps-trans, world, Ready}

-- The instructions of the runtime that apply what is on the stack.
abbrev pub Substituted : Program → Type 0
Substituted pr =
    (ins_at pr.machine.text 0 ≡ some (raw_ins Opcode.la 0 zero_word))
    × (ins_at pr.machine.text 1 ≡ some (raw_ins Opcode.xch 0 zero_word))
    × (ins_at pr.machine.text 2 ≡ some (raw_ins Opcode.la 0 zero_word))
    × (ins_at pr.machine.text 3 ≡ some (raw_ins Opcode.la 0 zero_word))
    × (ins_at pr.machine.text 4 ≡ some (raw_ins Opcode.la 0 zero_word))

abbrev pub GrantsStack : Program → Type 0
GrantsStack pr = (a : ℕ) → pr.grants a ≡ true

-- What is pinned, and what the stack Refers to, holds what it held.
pub record Kept (pins : Pins) (zs : List VarFn) (held held' : ℕ → Held) (pins' : Pins)
    : Type 0 where
  pub pinned : (d : ℕ) → pins d ≡ true → held' d ≡ held d
  pub on_stack : (d : ℕ) → 0 < owed d zs → held' d ≡ held d
  pub more_pins : (d : ℕ) → pins d ≡ true → pins' d ≡ true

pub Kept-same :
    {pins : Pins} {zs : List VarFn} {held held' : ℕ → Held}
    → held' ≡ held
    → Kept pins zs held held' pins
Kept-same e = record {
  pinned = λ d h. ap (λ (f : ℕ → Held). f d) e;
  on_stack = λ d h. ap (λ (f : ℕ → Held). f d) e;
  more_pins = λ d h. h;
}

pub Kept-trans :
    {pins pins1 pins2 : Pins} {zs zs' : List VarFn} {held held1 held2 : ℕ → Held}
    → Kept pins zs held held1 pins1
    → ((d : ℕ) → owed d zs' ≤ owed d zs)
    → Kept pins1 zs' held1 held2 pins2
    → Kept pins zs' held held2 pins2
Kept-trans k wider l = record {
  pinned = λ d h. l.pinned d (k.more_pins d h) ∙ k.pinned d h;
  on_stack = λ d h. l.on_stack d h ∙ k.on_stack d (let w = wider d in omega arith);
  more_pins = λ d h. l.more_pins d (k.more_pins d h);
}

-- The loop comes to the position with the value in the accumulator, if the pool held `held` before.
pub record Yields (pr : Program) (st : ExecState) (held : ℕ → Held) (pins : Pins) (p : ℕ)
    (y : Value) (w : World) (zs : List VarFn) (cells grows : ℕ) : Type 0 where
  pub final : ExecState
  pub pins' : Pins
  pub steps : Steps pr st final
  pub here : final.ins ≡ p
  pub represents : Represents final.vm.pool.held pins' final.acc y
  pub same : world final ≡ w
  pub ready : Ready pr final pins' final.acc zs cells grows
  pub kept : Kept pins zs held final.vm.pool.held pins'

pub Yields-more :
    {pr : Program} {st st1 : ExecState} {held : ℕ → Held} {pins : Pins} {p : ℕ} {y : Value}
    {w : World} {zs : List VarFn} {cells grows : ℕ}
    → Steps pr st st1
    → Yields pr st1 held pins p y w zs cells grows
    → Yields pr st held pins p y w zs cells grows
Yields-more s r = record {
  final = r.final;
  pins' = r.pins';
  steps = Steps-trans s r.steps;
  here = r.here;
  represents = r.represents;
  same = r.same;
  ready = r.ready;
  kept = r.kept;
}

-- From there on to another position.
pub Yields-then :
    {pr : Program} {st : ExecState} {held : ℕ → Held} {pins : Pins} {p p' : ℕ} {y y' : Value}
    {w w' : World} {zs zs' : List VarFn} {cells grows cells' grows' : ℕ}
    (r : Yields pr st held pins p y w zs cells grows)
    → ((d : ℕ) → owed d zs' ≤ owed d zs)
    → Yields pr r.final r.final.vm.pool.held r.pins' p' y' w' zs' cells' grows'
    → Yields pr st held pins p' y' w' zs' cells' grows'
Yields-then r wider k = record {
  final = k.final;
  pins' = k.pins';
  steps = Steps-trans r.steps k.steps;
  here = k.here;
  represents = k.represents;
  same = k.same;
  ready = k.ready;
  kept = Kept-trans r.kept wider k.kept;
}

-- So it does after a round with the result.
pub record Goes (pr : Program) (r : Result StackError Round) (held : ℕ → Held) (pins : Pins) (p : ℕ)
    (y : Value) (w : World) (zs : List VarFn) (cells grows : ℕ) : Type 0 where
  pub after : ExecState
  pub goes : r ≡ ok (next after)
  pub yields : Yields pr after held pins p y w zs cells grows

pub Yields-Goes :
    {pr : Program} {st : ExecState} {held : ℕ → Held} {pins : Pins} {p : ℕ} {y : Value} {w : World}
    {zs : List VarFn} {cells grows : ℕ}
    → Goes pr (step pr st) held pins p y w zs cells grows
    → Yields pr st held pins p y w zs cells grows
Yields-Goes g = Yields-more (more g.goes done) g.yields

-- The pool may have held something else before, if that is kept.
pub Yields-before :
    {pr : Program} {st : ExecState} {held held' : ℕ → Held} {pins pins' : Pins} {p : ℕ} {y : Value}
    {w : World} {zs zs' : List VarFn} {cells grows : ℕ}
    → Kept pins zs held held' pins'
    → ((d : ℕ) → owed d zs' ≤ owed d zs)
    → Yields pr st held' pins' p y w zs' cells grows
    → Yields pr st held pins p y w zs' cells grows
Yields-before k wider r = record {
  final = r.final;
  pins' = r.pins';
  steps = r.steps;
  here = r.here;
  represents = r.represents;
  same = r.same;
  ready = r.ready;
  kept = Kept-trans k wider r.kept;
}

abbrev pub Applied :
    Program → ExecState → Pins → Value → World → List VarFn → (cells grows : ℕ) → Type 0
Applied pr st pins y w zs cells grows =
    Goes pr (apply pr st) st.vm.pool.held pins (st.ins + 1) y w zs cells grows
