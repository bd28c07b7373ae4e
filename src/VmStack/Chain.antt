-- ===== src/VmStack/Chain.antt =====
-- What a chain of segments holds, and which changes of the heap it does not notice.
use u6a.Base.{
  ℕ, ◌+◌, ◌≤◌, ◌≡◌, ◌≢◌, refl, sym, ◌∙◌, ap, Option, none, some, List, [], ◌++◌, length, ◌==◌, inl,
  inr, Bool-cases, ==-refl, ne→==, ==→eq, ok,
}
use u6a.VmHeap.{
  VarFn, Segment, Heap, put, set_refcnt, set_elems, StackCtx, segment_at, update, store,
}

-- The chain from a pointer on holds the elements, last pushed first. No segment occurs twice, and
-- each has at most three places left: only then a segment is put on top of it. `n` is the length of
-- a segment.
pub data Below (n : ℕ) : Heap → Option ℕ → List VarFn → Type 0 where
  bottom : {h : Heap} → Below n h none []
  above :
      {h : Heap} {a : ℕ} (s : Segment) {ys : List VarFn}
      → h a ≡ some s
      → n ≤ length s.elems + 3
      → Below n (put a none h) s.prev ys
      → Below n h (some a) (s.elems ++ ys)

-- All segments of the first heap are in the second, with the same elements.
abbrev pub Within : Heap → Heap → Type 0
Within h h' = (a : ℕ) (s : Segment) → h a ≡ some s → (r : ℕ) × (h' a ≡ some (set_refcnt r s))

pub Within-put : {h h' : Heap} (a : ℕ) → Within h h' → Within (put a none h) (put a none h')
Within-put {h} {h'} a w b s e = elim (Bool-cases (a == b)) [
  | inl q ↦ cc (rw q at e)
  | inr q ↦ let (r, f) = w b s (rw q at e) in (r, rw q f)
]

pub Below-mono :
    {n : ℕ} {h h' : Heap} {p : Option ℕ} {xs : List VarFn}
    → Below n h p xs
    → Within h h'
    → Below n h' p xs
Below-mono bottom w = bottom
Below-mono (above {a = a} s e k b) w =
    let (r, f) = w a s e in above (set_refcnt r s) f k (Below-mono b (Within-put a w))

pub put-same : (a : ℕ) (o : Option Segment) (h : Heap) → put a o h a ≡ o
put-same a o h = rw (==-refl a)

pub put-other : (a b : ℕ) (o : Option Segment) (h : Heap) → a ≢ b → put a o h b ≡ h b
put-other a b o h n = rw (ne→== a b n)

-- Two addresses differ if something stands at one only.
pub ne-addresses : (h : Heap) {a b : ℕ} {s : Segment} → h a ≡ some s → h b ≡ none → a ≢ b
ne-addresses h e f q = cc (ap h q)

pub Within-refl : (h : Heap) → Within h h
Within-refl h b s e = (s.refcnt, e)

pub Within-trans : {h h' h'' : Heap} → Within h h' → Within h' h'' → Within h h''
Within-trans w w' b s e = let (r, f) = w b s e in let (r', g) = w' b (set_refcnt r s) f in (r', g)

-- What is hidden may change.
pub Within-hidden : (h : Heap) (a : ℕ) (o : Option Segment) → Within (put a none h) (put a o h)
Within-hidden h a o b s e = elim (Bool-cases (a == b)) [
  | inl q ↦ cc (rw q at e)
  | inr q ↦ (s.refcnt, rw q (rw q at e))
]

pub Within-shadow :
    (h : Heap) (a : ℕ) (o : Option Segment) → Within (put a none h) (put a none (put a o h))
Within-shadow h a o b s e = elim (Bool-cases (a == b)) [
  | inl q ↦ cc (rw q at e)
  | inr q ↦ (s.refcnt, rw q (rw q at e))
]

-- A free address may be used.
pub Within-fresh : (h : Heap) (c : ℕ) (o : Option Segment) → h c ≡ none → Within h (put c o h)
Within-fresh h c o f b s e = rw (ne→== c b (λ q. ne-addresses h e f (sym q))) (s.refcnt, e)

-- A reference count may change.
pub Within-count :
    (h : Heap) (a r : ℕ) {s : Segment} → h a ≡ some s → Within h (put a (some (set_refcnt r s)) h)
Within-count h a r {s} f b t e = elim (Bool-cases (a == b)) [
  | inl q ↦ (r, rw q (let p : some s ≡ some t = sym f ∙ (ap h (==→eq a b q) ∙ e) in cc))
  | inr q ↦ (t.refcnt, rw q e)
]

-- The segment at an address and those below it hold the elements.
abbrev pub At : (n : ℕ) → Heap → ℕ → List VarFn → Type 0
At n h a xs =
    (s : Segment) × (h a ≡ some s)
    × (ys : List VarFn) × Below n (put a none h) s.prev ys
    × (xs ≡ s.elems ++ ys)

-- The active stack holds the elements, the address of the next segment and those behind it are
-- free, and a segment has room for more than four elements.
abbrev pub Holds : StackCtx → List VarFn → Type 0
Holds ctx xs =
    (5 ≤ ctx.seg_len)
    × ((a : ℕ) → ctx.next ≤ a → ctx.heap a ≡ none)
    × At ctx.seg_len ctx.heap ctx.active xs

pub At-mono :
    {n : ℕ} {h h' : Heap} (a : ℕ) {xs : List VarFn} → At n h a xs → Within h h' → At n h' a xs
At-mono a (s, e, ys, b, f) w =
    let (r, g) = w a s e in (set_refcnt r s, g, ys, Below-mono b (Within-put a w), f)

-- Writing to a segment in use leaves the free addresses free.
pub free-put :
    (h : Heap) (a n : ℕ) (o : Option Segment) {s : Segment}
    → h a ≡ some s
    → ((b : ℕ) → n ≤ b → h b ≡ none)
    → (b : ℕ) → n ≤ b
    → put a o h b ≡ none
free-put h a n o e f b k = rw (ne→== a b (ne-addresses h e (f b k))) (f b k)

-- New elements for a segment.
pub At-elems :
    {n : ℕ} (h : Heap) (a : ℕ) (s : Segment) {ys : List VarFn} (es : List VarFn)
    → Below n (put a none h) s.prev ys
    → At n (put a (some (set_elems es s)) h) a (es ++ ys)
At-elems h a s {ys} es b = (
  set_elems es s,
  put-same a (some (set_elems es s)) h,
  ys,
  Below-mono b (Within-shadow h a (some (set_elems es s))),
  refl,
)

pub segment_at-some :
    (a : ℕ) (ctx : StackCtx) {s : Segment} → ctx.heap a ≡ some s → segment_at a ctx ≡ ok s
unfolding segment_at
segment_at-some a ctx e = rw (e, segment_at) refl

pub update-some :
    (a : ℕ) (f : Segment → Segment) (ctx : StackCtx) {s : Segment}
    → ctx.heap a ≡ some s
    → update a f ctx ≡ ok (store a (f s) ctx)
unfolding update
update-some a f ctx e = rw (segment_at-some a ctx e) refl

pub Within-less : (h : Heap) (a : ℕ) → Within (put a none h) h
Within-less h a b s e = elim (Bool-cases (a == b)) [
  | inl q ↦ cc (rw q at e)
  | inr q ↦ (s.refcnt, rw q at e)
]

-- The second heap may lose what the first does not have.
pub Within-vacant :
    {h h' : Heap} (c : ℕ) (o : Option Segment) → h c ≡ none → Within h h' → Within h (put c o h')
Within-vacant {h} c o f w b s e = rw (ne→== c b (λ q. ne-addresses h e f (sym q))) (w b s e)
