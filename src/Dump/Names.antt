-- ===== src/Dump/Names.antt =====
-- Which tokens and instructions the dump has names for (dump.c and mnemonic.c).
use u6a.Base.{ℕ, ◌≤◌, ◌≡◌, ◌≢◌, refl, ◌⊎◌, inl, inr, true, false, Option, none, some, List, arith}
use u6a.Defs.{Token}
use u6a.Defs.TokenFn
use u6a.VmDefs.{VmIns}
use u6a.VmDefs.Opcode
use u6a.Lexer.Grammar.{IsText}
use u6a.Codegen.{app_ins, lc_ins}
use u6a.Mnemonic.{mnemonic_op, mnemonic_op_ex, mnemonic_fn, mnemonic_ch}
use u6a.Dump.{bit, write_op, write_first, write_second, write_operand, write_mnemonic_ins}

-- A function that the lexer makes, with a printable character or a newline if it takes one; or 0.
abbrev pub IsNamed : Token → Type 0
IsNamed t = (t.fn ≤ TokenFn.pipe) ⊎ (((t.fn ≡ TokenFn.out) ⊎ (t.fn ≡ TokenFn.cmp)) × IsText t.ch)

mnemonic_fn-IsNamed : (t : Token) → IsNamed t → mnemonic_fn t.fn ≢ none
unfolding mnemonic_fn
mnemonic_fn-IsNamed t (inl h) = ground arith
mnemonic_fn-IsNamed t (inr h) = ground arith

mnemonic_ch-IsText : (ch : ℕ) → IsText ch → mnemonic_ch ch ≢ none
unfolding mnemonic_ch
mnemonic_ch-IsText ch h = ground arith

bit-simple : (t : Token) → t.fn ≤ TokenFn.pipe → bit 4 t.fn ≡ false
bit-simple t h = ground arith

bit-char : (t : Token) → (t.fn ≡ TokenFn.out) ⊎ (t.fn ≡ TokenFn.cmp) → bit 4 t.fn ≡ true
bit-char t h = ground arith

-- The name that is there.
pub name : (o : Option (List ℕ)) → o ≢ none → (bytes : List ℕ) × (o ≡ some bytes)
name none h = absurd (h refl)
name (some bytes) h = (bytes, refl)

write_first-IsNamed : (t : Token) → IsNamed t → write_first t ≢ none
unfolding write_first
write_first-IsNamed t (inl h) =
    let (fn, e) = name (mnemonic_fn t.fn) (mnemonic_fn-IsNamed t (inl h)) in
    rw (e, bit-simple t h, write_first) (λ q. cc)
write_first-IsNamed t (inr (f, h)) =
    let (fn, e) = name (mnemonic_fn t.fn) (mnemonic_fn-IsNamed t (inr (f, h))) in
    let (ch, e') = name (mnemonic_ch t.ch) (mnemonic_ch-IsText t.ch h) in
    rw (e, write_first) (rw (bit-char t f) (rw e' (λ q. cc)))

write_second-IsNamed : (t : Token) → IsNamed t → write_second t ≢ none
unfolding write_second
write_second-IsNamed t (inl h) =
    let (fn, e) = name (mnemonic_fn t.fn) (mnemonic_fn-IsNamed t (inl h)) in
    rw (e, bit-simple t h, write_second) (λ q. cc)
write_second-IsNamed t (inr (f, h)) =
    let (fn, e) = name (mnemonic_fn t.fn) (mnemonic_fn-IsNamed t (inr (f, h))) in
    let (ch, e') = name (mnemonic_ch t.ch) (mnemonic_ch-IsText t.ch h) in
    rw (e, write_second) (rw (bit-char t f) (rw e' (λ q. cc)))

-- An instruction of which the dump knows all names.
abbrev pub IsDumped : VmIns → Type 0
IsDumped ins =
    ((first second : Token) × (ins ≡ app_ins first second) × IsNamed first × IsNamed second)
    ⊎ (((ins.opcode ≡ Opcode.la) ⊎ ((ins.opcode ≡ Opcode.sa) ⊎ (ins.opcode ≡ Opcode.del)))
        ⊎ ((o : ℕ) × (ins ≡ lc_ins o)))

write_mnemonic_ins-app :
    (position : ℕ) (first second : Token)
    → IsNamed first
    → IsNamed second
    → write_mnemonic_ins position (app_ins first second) ≢ none
unfolding write_mnemonic_ins write_op write_operand mnemonic_op
write_mnemonic_ins-app position first second f g =
    let (a, e) = name (write_first first) (write_first-IsNamed first f) in
    let (b, e') = name (write_second second) (write_second-IsNamed second g) in
    rw (e, write_mnemonic_ins) (rw e' (λ q. cc))

write_op-jump :
    (ins : VmIns)
    → (ins.opcode ≡ Opcode.la) ⊎ ((ins.opcode ≡ Opcode.sa) ⊎ (ins.opcode ≡ Opcode.del))
    → write_op ins ≢ none
unfolding write_op mnemonic_op
write_op-jump ins (inl h) = rw h (λ q. cc)
write_op-jump ins (inr (inl h)) = rw h (λ q. cc)
write_op-jump ins (inr (inr h)) = rw h (λ q. cc)

write_operand-jump :
    (ins : VmIns)
    → (ins.opcode ≡ Opcode.la) ⊎ ((ins.opcode ≡ Opcode.sa) ⊎ (ins.opcode ≡ Opcode.del))
    → write_operand ins ≢ none
unfolding write_operand
write_operand-jump ins (inl h) = rw h (λ q. cc)
write_operand-jump ins (inr (inl h)) = rw h (λ q. cc)
write_operand-jump ins (inr (inr h)) = rw h (λ q. cc)

pub write_mnemonic_ins-IsDumped :
    (position : ℕ) (ins : VmIns) → IsDumped ins → write_mnemonic_ins position ins ≢ none
unfolding write_mnemonic_ins write_op write_operand mnemonic_op mnemonic_op_ex
write_mnemonic_ins-IsDumped position ins (inl (a, b, e, f, g)) =
    rw e (write_mnemonic_ins-app position a b f g)
write_mnemonic_ins-IsDumped position ins (inr (inl h)) =
    let (a, e) = name (write_op ins) (write_op-jump ins h) in
    let (b, e') = name (write_operand ins) (write_operand-jump ins h) in
    rw (e, write_mnemonic_ins) (rw e' (λ q. cc))
write_mnemonic_ins-IsDumped position ins (inr (inr (o, e))) = rw e (λ q. cc)
