-- ===== src/Logging/Tells.antt =====
-- logging.c: which numbers and characters the messages tell apart.
use u6a.Base.{
  ℕ, zero, suc, ◌+◌, ◌-◌, ◌*◌, ◌/◌, ◌%◌, ◌<◌, ◌≤◌, ◌≡◌, ◌≢◌, refl, sym, ap, ◌∙◌, true, false, List,
  [], ◌∷◌, ◌++◌, append_assoc, ltb, ◌==◌, ==→eq, Bool-cases, inl, inr, arith,
}
use u6a.Lexer.{isprint}
use u6a.Dump.{hex, hex_digit}
use u6a.Logging.{
  codes, quote, digits, decimal, Logging, bad_ch, shown_ch, join, parts, heading, error_text,
}

at_least : (n m : ℕ) → ltb n m ≡ false → m ≤ n
at_least n m e = ground arith

-- What a sequence of decimal digits stands for.
abbrev read : (before : ℕ) → List ℕ → ℕ
read before [] = before
read before (ch ∷ text) = read (before * 10 + (ch - b'0')) text

read-append :
    (before ch : ℕ) (text : List ℕ)
    → read before (text ++ ch ∷ []) ≡ read before text * 10 + (ch - b'0')
read-append before ch [] = refl
read-append before ch (x ∷ text) = read-append (before * 10 + (x - b'0')) ch text

-- A round for each digit is enough.
read-digits : (fuel n : ℕ) → n < fuel → read 0 (digits fuel n) ≡ n
unfolding digits
read-digits zero n l = absurd (omega (arith, l))
read-digits (suc fuel) n l = elim (Bool-cases (ltb n 10)) [
  | inl q ↦ rw q (omega arith)
  | inr q ↦
      rw
        (
          q,
          read-append 0 (b'0' + n % 10) (digits fuel (n / 10)),
          read-digits fuel (n / 10) (omega (arith, l, at_least n 10 q)),
        )
        (omega (arith, at_least n 10 q))
]

read-decimal : (n : ℕ) → read 0 (decimal n) ≡ n
read-decimal n = read-digits (suc n) n (omega arith)

abbrev char_at : ℕ → List ℕ → ℕ
char_at i [] = 0
char_at zero (ch ∷ text) = ch
char_at (suc i) (ch ∷ text) = char_at i text

append-cancel : (a b c : List ℕ) → a ++ b ≡ a ++ c → b ≡ c
append-cancel [] b c e = e
append-cancel (ch ∷ a) b c e = append-cancel a b c (ap rest e)
  where
    rest : List ℕ → List ℕ
    rest [] = []
    rest (x ∷ xs) = xs

hex_digit-injective : (m n : ℕ) → m < 16 → n < 16 → hex_digit m ≡ hex_digit n → m ≡ n
hex_digit-injective m n l k e = ground arith

-- How a character is shown.
data Shown (got : ℕ) : Type 0 where
  plain : ((end : List ℕ) → shown_ch got ++ end ≡ quote ∷ got ∷ quote ∷ end) → got ≢ 10 → Shown got
  newline :
      ((end : List ℕ) → shown_ch got ++ end ≡ quote ∷ 92 ∷ b'n' ∷ quote ∷ end)
      → got ≡ 10
      → Shown got
  number :
      ((end : List ℕ)
        → shown_ch got ++ end
          ≡ b'0' ∷ b'x' ∷ hex_digit (got / 16 % 16) ∷ hex_digit (got % 16) ∷ end)
      → Shown got

Shown-cases : (got : ℕ) → Shown got
unfolding shown_ch isprint hex
Shown-cases got = elim (Bool-cases (got == 10)) [
  | inl q ↦ newline (rw (==→eq got 10 q) (λ end. refl)) (==→eq got 10 q)
  | inr q ↦ elim (Bool-cases (isprint got)) [
    | inl p ↦ plain (rw p (λ end. refl)) (λ e. (let b : true ≡ false = rw e at q in cc))
    | inr p ↦ number (rw (p, q) (λ end. refl))
  ]
]

shown_ch-injective :
    (a b : ℕ)
    → a < 256
    → b < 256
    → shown_ch a ++ b'.' ∷ 10 ∷ [] ≡ shown_ch b ++ b'.' ∷ 10 ∷ []
    → a ≡ b
shown_ch-injective a b l k same = go (Shown-cases a) (Shown-cases b)
  where
    at :
        (i : ℕ)
        → char_at i (shown_ch a ++ b'.' ∷ 10 ∷ []) ≡ char_at i (shown_ch b ++ b'.' ∷ 10 ∷ [])
    at i = ap (char_at i) same

    go : Shown a → Shown b → a ≡ b
    go (plain p n) (plain q o) = rw (p, q) at (at 1)
    go (plain p n) (newline q o) = absurd (omega (arith, (rw (p, q) at (at 3))))
    go (plain p n) (number q) = absurd (omega (arith, (rw (p, q) at (at 0))))
    go (newline p n) (plain q o) = absurd (omega (arith, (rw (p, q) at (at 3))))
    go (newline p n) (newline q o) = n ∙ sym o
    go (newline p n) (number q) = absurd (omega (arith, (rw (p, q) at (at 0))))
    go (number p) (plain q o) = absurd (omega (arith, (rw (p, q) at (at 0))))
    go (number p) (newline q o) = absurd (omega (arith, (rw (p, q) at (at 0))))
    go (number p) (number q) =
        let high : a / 16 % 16 ≡ b / 16 % 16 =
          hex_digit-injective (a / 16 % 16) (b / 16 % 16) (omega arith) (omega arith)
            (rw (p, q) at (at 2)) in
        let low : a % 16 ≡ b % 16 =
          hex_digit-injective (a % 16) (b % 16) (omega arith) (omega arith) (rw (p, q) at (at 3)) in
        omega (arith, high, low, l, k)

-- Two bytes that are reported as unrecognizable, by the same program in the same stage, with the same
-- text are the same.
pub error_text-bad_ch :
    (log : Logging) (stage : List ℕ) (a b : ℕ)
    → a < 256
    → b < 256
    → error_text log stage (bad_ch a) ≡ error_text log stage (bad_ch b)
    → a ≡ b
unfolding error_text parts
error_text-bad_ch log stage a b l k same =
    let text : List ℕ = codes "unrecognizable character " in
    let tail : List ℕ = b'.' ∷ [] in
    let bodies : (text ++ (shown_ch a ++ tail)) ++ 10 ∷ []
        ≡ (text ++ (shown_ch b ++ tail)) ++ 10 ∷ [] =
      append-cancel (join (heading log stage)) _ _ same in
    shown_ch-injective a b l k (
      sym (append_assoc (shown_ch a) tail (10 ∷ []))
      ∙ append-cancel text ((shown_ch a ++ tail) ++ 10 ∷ []) ((shown_ch b ++ tail) ++ 10 ∷ [])
          bodies
      ∙ append_assoc (shown_ch b) tail (10 ∷ []))
