-- ===== src/VmStack/Tests.antt =====
-- The stack on small chains, and its theorems at them.
use u6a.Base.{
  Bool-cases, inl, inr, ◌==◌, sym, ℕ, ◌≡◌, refl, Bool, true, none, some, [], ◌∷◌, ok, err, arith,
}
use u6a.VmHeap.{VarFn, segment, StackCtx, put, vm_err}
use u6a.VmStack.{xch, top, pop, save}
use u6a.VmStack.Chain.{bottom, above, Holds, At, Within}
use u6a.VmStack.Push.{Pushed, push-Holds}
use u6a.VmStack.Pop.{top-pop, top-empty, top-pop-shared}
use u6a.VmStack.Copy.{save-Holds}
use u6a.VmStack.Exchange.{xch-Holds, xch-shared}
use u6a.VmStack.Grows.{Meets, Fits}
use u6a.VmStack.Exchanges.{Exchanges, xch-Copies}
use u6a.VmStack.InPlace.{Exchanged, SharedBelow}

abbrev granted : ℕ → Bool
granted a = true

abbrev fun : ℕ → VarFn
fun f = record { fn = f; ch = 0; ref = 0 }

-- One element in the active segment, and two in the segment below, which a saved stack shares.
abbrev two_segments : StackCtx
two_segments = record {
  heap =
      put 1 (some (segment (some 0) (fun 3 ∷ []) 0))
        (put 0 (some (segment none (fun 2 ∷ fun 1 ∷ []) 2)) (λ a. none));
  next = 2;
  active = 1;
  seg_len = 5;
  refs = λ r. 0;
}

two_segments-Holds : Holds two_segments (fun 3 ∷ fun 2 ∷ fun 1 ∷ [])
two_segments-Holds = (
  omega arith,
  λ a k. ground arith,
  (
    segment (some 0) (fun 3 ∷ []) 0,
    refl,
    fun 2 ∷ fun 1 ∷ [],
    above (segment none (fun 2 ∷ fun 1 ∷ []) 2) refl (omega arith) bottom,
    refl,
  ),
)

two_segments-SharedBelow : SharedBelow two_segments
two_segments-SharedBelow s t p e link e' =
    let prev : some 0 ≡ some p = cc in
    let place : 0 ≡ p = cc in
    let below : two_segments.heap 0 ≡ some t = rw (sym place) at e' in
    let seg : segment none (fun 2 ∷ fun 1 ∷ []) 2 ≡ t = cc in rw⁻¹ seg refl

abbrev empty : StackCtx
empty = record {
  heap = put 0 (some (segment none [] 0)) (λ a. none);
  next = 1;
  active = 0;
  seg_len = 5;
  refs = λ r. 0;
}

empty-Holds : Holds empty []
empty-Holds = (omega arith, λ a k. ground arith, (segment none [] 0, refl, [], bottom, refl))

push-Holds_example :
    Pushed granted (fun 7 ∷ fun 6 ∷ fun 5 ∷ fun 4 ∷ []) two_segments (fun 3 ∷ fun 2 ∷ fun 1 ∷ [])
push-Holds_example =
    push-Holds granted (fun 7 ∷ fun 6 ∷ fun 5 ∷ fun 4 ∷ []) two_segments
      (fun 3 ∷ fun 2 ∷ fun 1 ∷ []) two_segments-Holds (omega arith) refl

top-pop_example :
    (ctx1 ctx2 : StackCtx) × (top two_segments ≡ ok (fun 3, ctx1))
    × (pop granted ctx1 ≡ ok ctx2)
    × Holds ctx2 (fun 2 ∷ fun 1 ∷ [])
top-pop_example = top-pop granted two_segments (fun 3) (fun 2 ∷ fun 1 ∷ []) two_segments-Holds

top-empty_example : top empty ≡ err vm_err
top-empty_example = top-empty empty empty-Holds

save-Holds_example :
    (ctx' : StackCtx) × (save granted two_segments ≡ ok (2, ctx'))
    × Holds ctx' (fun 3 ∷ fun 2 ∷ fun 1 ∷ [])
    × At ctx'.seg_len ctx'.heap 2 (fun 3 ∷ fun 2 ∷ fun 1 ∷ [])
    × Within two_segments.heap ctx'.heap
save-Holds_example =
    save-Holds granted two_segments (fun 3 ∷ fun 2 ∷ fun 1 ∷ []) two_segments-Holds refl

xch-Holds_example : Exchanged granted (fun 9) (fun 3) (fun 2) (fun 1 ∷ []) two_segments
xch-Holds_example =
    xch-Holds granted (fun 9) (fun 3) (fun 2) (fun 1 ∷ []) two_segments two_segments-Holds refl

-- Two elements below an empty active segment, in a segment that a saved stack shares.
abbrev emptied : StackCtx
emptied = record {
  heap = put 2 (some (segment (some 0) [] 0)) (
      put 1 (some (segment (some 0) (fun 3 ∷ []) 1))
        (put 0 (some (segment none (fun 2 ∷ fun 1 ∷ []) 2)) (λ a. none)));
  next = 3;
  active = 2;
  seg_len = 5;
  refs = λ r. 0;
}

-- The saved stack at 1 loses its element `fun 2`.
top-pop-shared_example :
    (ctx1 ctx2 : StackCtx) × (top emptied ≡ ok (fun 2, ctx1))
    × (pop granted ctx1 ≡ ok ctx2)
    × (ctx2.heap 0 ≡ some (segment none (fun 1 ∷ []) 2))
    × (ctx2.heap 2 ≡ some (segment (some 0) [] 0))
top-pop-shared_example =
    top-pop-shared granted emptied (fun 2) (fun 1 ∷ []) (segment (some 0) [] 0)
      (segment none (fun 2 ∷ fun 1 ∷ []) 2) 0 refl refl refl (omega arith) refl refl

xch-shared_example :
    (ctx' : StackCtx) × (xch granted (fun 9) two_segments ≡ ok (fun 2, ctx'))
    × Within (put 1 none two_segments.heap) ctx'.heap
xch-shared_example =
    xch-shared granted (fun 9) (fun 3) (fun 2) (fun 1 ∷ []) two_segments two_segments-Holds refl
      two_segments-SharedBelow

two_segments-Fits : Fits 5 two_segments
two_segments-Fits = (
  refl,
  λ a s h. elim (Bool-cases (1 == a)) [
    | inl q ↦
        let same : some (segment (some 0) (fun 3 ∷ []) 0) ≡ some s = rw q at h in
        rw⁻¹ (let r : segment (some 0) (fun 3 ∷ []) 0 ≡ s = cc in r) (omega arith)
    | inr q ↦ elim (Bool-cases (0 == a)) [
      | inl r ↦
          let same : some (segment none (fun 2 ∷ fun 1 ∷ []) 2) ≡ some s = rw (q, r) at h in
          rw⁻¹ (let t : segment none (fun 2 ∷ fun 1 ∷ []) 2 ≡ s = cc in t) (omega arith)
      | inr r ↦ let none_there : none ≡ some s = rw (q, r) at h in cc
    ]
  ],
)

xch-Copies_example : Meets (Exchanges 5 two_segments) (xch granted (fun 9) two_segments)
xch-Copies_example = xch-Copies 5 granted (fun 9) two_segments two_segments-Fits
