-- ===== src/Codegen/Correct.antt =====
-- The generator against the recursion of `Compile`.
use mathlib.Core.Path.{◌≡⟨◌⟩◌, ◌∎}
use u6a.Base.{
  ℕ, suc, ◌+◌, ◌≡◌, ◌≢◌, refl, ap, ◌∙◌, Bool, true, List, [], ◌∷◌, ◌++◌, length, length-append,
  append_assoc, append-nil, arith, ne→==, ◌==◌, Bool-cases, ==→eq, inl, inr, ltb, ◌&&◌,
}
use u6a.Defs.{Token, token}
use u6a.Defs.TokenFn
use u6a.VmDefs.{offset, VmIns, vm_ins, no_token}
use u6a.VmDefs.Opcode
use u6a.Parser.Term.{Term, leaf, app, IsWellFormed, root, encode}
use u6a.Codegen.{pending, codegen_state, app_ins, la_ins, lc_ins, flush, visit, generate}
use u6a.Codegen.Visit.{gen, generate-gen}
use u6a.Codegen.Compile.{is_app, prints, constants, code}
use u6a.Codegen.Flush.{
  waiting, take_string-waiting, flush-app, flush-waiting, flush-sa, flush-nil, flush-la, Generates,
}

leaves :
    (o : Bool) (ch : ℕ) (a b : Token)
    → IsWellFormed (app ch (leaf a) (leaf b))
    → Generates o (app ch (leaf a) (leaf b))
unfolding gen visit code
leaves o ch a b w c T R K k =
    rw (ne→== a.fn TokenFn.app w.0.1, ne→== b.fn TokenFn.app w.1.1)
      (elim (Bool-cases (o && a.fn == TokenFn.out)) [
        | inr f ↦
            rw (f, append-nil R)
              (flush-waiting c (T ++ app_ins a b ∷ []) R K
                ∙ rw (append_assoc T (app_ins a b ∷ []) (prints c)))
        | inl t ↦
            rw (t, take_string-waiting c K k)
              (elim (Bool-cases (ltb (suc (length c)) 4)) [
                | inl short ↦
                    rw (short, append-nil R)
                      (flush-waiting c (T ++ app_ins a b ∷ []) R K
                        ∙ rw (append_assoc T (app_ins a b ∷ []) (prints c)))
                | inr long ↦ rw (
                  long,
                  append_assoc T (lc_ins (length R) ∷ []) (app_ins no_token b ∷ []),
                  append_assoc R (a.ch ∷ c) (0 ∷ []),
                )
              ])
      ])

root-app : (t : Term) → is_app t ≡ true → ((root t).fn == TokenFn.app) ≡ true
root-app (leaf a) h = cc
root-app (app ch l r) h = refl

left_only :
    (o : Bool) (ch : ℕ) (l : Term) (b : Token)
    → is_app l ≡ true
    → b.fn ≢ TokenFn.app
    → Generates o l
    → Generates o (app ch l (leaf b))
unfolding gen visit code
left_only o ch l b h ne ih c T R K k =
    let first : List VmIns = code o (length T) (length R) [] l in
    rw (root-app l h, ne→== b.fn TokenFn.app ne, h)
      (ih [] T R (pending (app_ins no_token b) 0 ∷ (waiting c ++ K)) refl
        ∙ flush-app (T ++ first) (R ++ constants o [] l) no_token b 0 (waiting c ++ K)
        ∙ flush-waiting c ((T ++ first) ++ app_ins no_token b ∷ []) (R ++ constants o [] l) K
        ∙ rw (
          append_assoc T first (app_ins no_token b ∷ []),
          append_assoc T (first ++ app_ins no_token b ∷ []) (prints c),
          append_assoc first (app_ins no_token b ∷ []) (prints c),
        ))

both :
    (o : Bool) (ch : ℕ) (l r : Term)
    → is_app l ≡ true
    → is_app r ≡ true
    → Generates o l
    → Generates o r
    → Generates o (app ch l r)
unfolding gen visit code
both o ch l r hl hr ihl ihr c T R K k =
    let first : List VmIns = code o (length T) (length R) [] l in
    let sa_ins : VmIns = vm_ins Opcode.sa (offset 0) in
    let T1 : List VmIns = T ++ first in
    let R1 : List ℕ = R ++ constants o [] l in
    let second : List VmIns = code o (length (T1 ++ sa_ins ∷ [])) (length R1) [] r in
    let R2 : List ℕ = R1 ++ constants o [] r in
    let len_t : length T1 ≡ length T + length first = length-append T first in
    let len_r : length R1 ≡ length R + length (constants o [] l) =
      length-append R (constants o [] l) in
    let pos : length (T1 ++ sa_ins ∷ []) ≡ suc (length T + length first) =
      omega (arith, length-append {0} T1 (sa_ins ∷ [])) in
    rw (root-app l hl, root-app r hr, hl, hr)
      (gen o r (gen o l (codegen_state T R (pending sa_ins 0 ∷ (waiting c ++ K))))
        ≡⟨ ap (gen o r) (
            ihl [] T R (pending sa_ins 0 ∷ (waiting c ++ K)) refl
            ∙ flush-sa T1 R1 (waiting c ++ K)) ⟩
          gen o r
            (codegen_state (T1 ++ sa_ins ∷ []) R1 (pending la_ins (length T1) ∷ (waiting c ++ K)))
        ≡⟨ ihr [] (T1 ++ sa_ins ∷ []) R1 (pending la_ins (length T1) ∷ (waiting c ++ K)) refl ⟩
          flush (
            codegen_state ((T1 ++ sa_ins ∷ []) ++ second) R2
              (pending la_ins (length T1) ∷ (waiting c ++ K)))
        ≡⟨ flush-la T1 second R2 sa_ins (waiting c ++ K) ⟩
          flush (
            codegen_state
              (T1
                ++ vm_ins Opcode.sa (offset (length T1 + length second + 2))
                  ∷ (second ++ la_ins ∷ []))
              R2 (waiting c ++ K))
        ≡⟨ flush-waiting c
            (T1
              ++ vm_ins Opcode.sa (offset (length T1 + length second + 2))
                ∷ (second ++ la_ins ∷ []))
            R2 K ⟩
          flush (
            codegen_state
              ((T1
                  ++ vm_ins Opcode.sa (offset (length T1 + length second + 2))
                    ∷ (second ++ la_ins ∷ []))
                ++ prints c)
              R2 K)
        ≡⟨ (rw (pos, len_r, len_t) (simp append_assoc)) ⟩
          flush
            (codegen_state
              (T
                ++ (first
                    ++ (vm_ins Opcode.sa (
                          offset (
                            length T
                            + length first
                            + length (
                                code o (suc (length T + length first))
                                  (length R + length (constants o [] l)) [] r)
                            + 2))
                        ∷ (code o (suc (length T + length first))
                              (length R + length (constants o [] l)) [] r
                            ++ la_ins ∷ prints c))))
              (R ++ (constants o [] l ++ constants o [] r)) K) ∎)

right_only :
    (o : Bool) (ch : ℕ) (a : Token) (r : Term)
    → is_app r ≡ true
    → a.fn ≢ TokenFn.app
    → Generates o r
    → Generates o (app ch (leaf a) r)
unfolding gen visit code
right_only o ch a r h ne ih c T R K k =
    let only : List VmIns = code o (length T) (length R) [] r in
    let del_ins : VmIns = vm_ins Opcode.del (offset 0) in
    let behind : List VmIns = code o (length (T ++ del_ins ∷ [])) (length R) [] r in
    let R' : List ℕ = R ++ constants o [] r in
    let pos : length (T ++ del_ins ∷ []) ≡ suc (length T) =
      omega (arith, length-append {0} T (del_ins ∷ [])) in
    rw (ne→== a.fn TokenFn.app ne, root-app r h, h)
      (elim (Bool-cases (a.fn == TokenFn.d)) [
        | inl d ↦ rw d (
            ih [] (T ++ del_ins ∷ []) R (pending la_ins (length T) ∷ (waiting c ++ K)) refl
            ∙ flush-la T behind R' del_ins (waiting c ++ K)
            ∙ flush-waiting c
                (T
                  ++ vm_ins Opcode.del (offset (length T + length behind + 2))
                    ∷ (behind ++ la_ins ∷ []))
                R' K
            ∙ rw pos (simp append_assoc))
        | inr nd ↦ rw nd (elim (Bool-cases (a.fn == TokenFn.out)) [
          | inl out ↦
              let is : a ≡ token TokenFn.out a.ch =
                λ j. record { fn = ==→eq a.fn TokenFn.out out j; ch = a.ch } in
              rw out (
                ap
                  (λ u.
                    gen o r (codegen_state T R (pending (app_ins u no_token) 0 ∷ (waiting c ++ K))))
                  is
                ∙ ih (a.ch ∷ c) T R K k)
          | inr other ↦ rw other (
              ih [] T R (pending (app_ins a no_token) 0 ∷ (waiting c ++ K)) (rw other)
              ∙ flush-app (T ++ only) R' a no_token 0 (waiting c ++ K)
              ∙ flush-waiting c ((T ++ only) ++ app_ins a no_token ∷ []) R' K
              ∙ simp append_assoc)
        ])
      ])

-- The nodes of an application below printing functions give the code and the constants of `Compile`,
-- whatever is on the stack below, and then empty the stack up to an `SA`.
pub gen-code : (o : Bool) (t : Term) → IsWellFormed t → is_app t ≡ true → Generates o t
gen-code o (leaf a) w h = cc
gen-code o (app ch (leaf a) (leaf b)) w h = leaves o ch a b w
gen-code o (app ch (leaf a) (app ch' l r)) w h =
    right_only o ch a (app ch' l r) refl w.0.1 (gen-code o (app ch' l r) w.1 refl)
gen-code o (app ch (app ch' l r) (leaf b)) w h =
    left_only o ch (app ch' l r) b refl w.1.1 (gen-code o (app ch' l r) w.0 refl)
gen-code o (app ch (app ch' l r) (app ch'' l' r')) w h =
    both o ch (app ch' l r) (app ch'' l' r') refl refl (gen-code o (app ch' l r) w.0 refl)
      (gen-code o (app ch'' l' r') w.1 refl)

-- For the nodes of a well-formed application the generator's text and constants are those of the
-- recursion on the term, and its stack ends empty.
pub generate-code :
    (o : Bool) (ch : ℕ) (l r : Term)
    → IsWellFormed (app ch l r)
    → generate o (encode 0 0 (app ch l r))
      ≡ codegen_state (code o 0 0 [] (app ch l r)) (constants o [] (app ch l r)) []
generate-code o ch l r w =
    generate-gen o (app ch l r) w
    ∙ gen-code o (app ch l r) w refl [] [] [] [] tt
    ∙ flush-nil (code o 0 0 [] (app ch l r)) (constants o [] (app ch l r))
