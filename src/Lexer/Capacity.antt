-- ===== src/Lexer/Capacity.antt =====
-- The token array grows by doubling, from 4096 tokens to 4194304.
use u6a.Base.{
  ℕ, zero, suc, ◌*◌, ◌≤◌, ◌<◌, ◌≡◌, true, false, length, ok, leb, ltb, Bool-cases, inl, inr, arith,
  u32,
}
use u6a.Defs.{Memory}
use u6a.Lexer.{LexState, grow, max_len}

-- After `r` more doublings the size is the largest.
abbrev pub Room : ℕ → ℕ → Type 0
Room zero size = size ≡ max_len
Room (suc r) size = Room r (size * 2)

pub Room-le : (r size : ℕ) → Room r size → size ≤ max_len
Room-le zero size h = omega arith
Room-le (suc r) size h = omega (arith, Room-le r (size * 2) h)

Room-pos : (r size : ℕ) → Room r size → 0 < size
Room-pos zero size h = omega arith
Room-pos (suc r) size h = omega (arith, Room-pos r (size * 2) h)

-- Every request that the lexer can make is granted.
abbrev pub GrantsAll : Memory → Type 0
GrantsAll m = (size : ℕ) → size ≤ max_len * 2 → m.grants size ≡ true

pub grow-ok :
    (m : Memory) (st : LexState) (r : ℕ)
    → Room r st.size
    → length st.tokens < max_len
    → GrantsAll m
    → (size : ℕ) × ((s : ℕ) × Room s size) × (grow m st ≡ ok size)
unfolding grow
grow-ok m st zero h l g = (st.size, (0, h), ground arith)
grow-ok m st (suc r) h l g = elim (Bool-cases (leb st.size (length st.tokens))) [
  | inr no_need ↦ (st.size, (suc r, h), rw no_need)
  | inl need ↦
      let fits : st.size * 2 ≤ max_len = Room-le r (st.size * 2) h in
      let same : u32 (st.size * 2) ≡ st.size * 2 = omega arith in
      (
        st.size * 2,
        (r, h),
        rw (
          need,
          same,
          g (st.size * 2 * 2) (omega arith),
          let q : ltb max_len (st.size * 2) ≡ false = ground arith in q,
        ),
      )
]

-- A successful growth leaves room for one token, within the largest size.
pub grow-Room :
    (m : Memory) (st : LexState) (r : ℕ) {size : ℕ}
    → Room r st.size
    → length st.tokens ≤ st.size
    → grow m st ≡ ok size
    → (length st.tokens < size) × ((s : ℕ) × Room s size)
unfolding grow
grow-Room m st zero {size} h l e =
    let p : size ≡ st.size = ground arith in (ground arith, (0, rw p h))
grow-Room m st (suc r) {size} h l e = elim (Bool-cases (leb st.size (length st.tokens))) [
  | inr no_need ↦ let p : size ≡ st.size = ground arith in (ground arith, (suc r, rw p h))
  | inl need ↦
      let fits : st.size * 2 ≤ max_len = Room-le r (st.size * 2) h in
      let p : size ≡ st.size * 2 = ground arith in
      let some_room : 0 < st.size = Room-pos (suc r) st.size h in (ground arith, (r, rw p h))
]
