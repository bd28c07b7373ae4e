-- ===== src/Logging/Lines.antt =====
-- logging.c: what one can tell from the messages.
use u6a.Base.{
  ℕ, zero, suc, ◌+◌, ◌/◌, ◌%◌, ◌≡◌, ◌≢◌, refl, sym, Bool, true, false, not, ◌&&◌, List, [], ◌∷◌,
  ◌++◌, append_assoc, ltb, ◌==◌, ==→eq, ne→==, Bool-cases, inl, inr, arith,
}
use u6a.Lexer.{isprint}
use u6a.Dump.{hex, hex_digit}
use u6a.Logging.{
  codes, digits, decimal, Logging, Message, bad_alloc, unexpected_eof, unprintable_ch, bad_ch,
  bad_syntax, write_failed, path_too_long, no_input_file, custom, cannot_open_file, stack_underflow,
  invalid_uint, uint_not_in_range, invalid_bc_file, bad_bc_ver, vm_pool_oom, invalid_opcode,
  invalid_ex_opcode, invalid_vm_func, shown_ch, join, parts, heading, error_text,
}

abbrev pub one_line : List ℕ → Bool
one_line [] = true
one_line (ch ∷ text) = not (ch == 10) && one_line text

abbrev pub NoNewline : List ℕ → Type 0
NoNewline text = one_line text ≡ true

-- A text whose only newline is its last character.
abbrev pub IsLine : List ℕ → Type 0
IsLine bytes = (text : List ℕ) × (bytes ≡ text ++ 10 ∷ []) × NoNewline text

-- The texts that stand in a message have no newline.
abbrev pub IsClean : Message → Type 0
IsClean (unexpected_eof after) = after ≢ 10
IsClean (write_failed bytes filename) = NoNewline filename
IsClean (custom err_message) = NoNewline err_message
IsClean (cannot_open_file filename) = NoNewline filename
IsClean (invalid_uint str) = NoNewline str
IsClean (invalid_bc_file filename) = NoNewline filename
IsClean (bad_bc_ver filename ver_major ver_minor) = NoNewline filename
IsClean _ = Unit

pub NoNewline-cons : (ch : ℕ) (text : List ℕ) → ch ≢ 10 → NoNewline text → NoNewline (ch ∷ text)
NoNewline-cons ch text n h = rw (ne→== ch 10 n, h) refl

pub NoNewline-append : (a b : List ℕ) → NoNewline a → NoNewline b → NoNewline (a ++ b)
NoNewline-append [] b h k = k
NoNewline-append (ch ∷ a) b h k = elim (Bool-cases (ch == 10)) [
  | inl q ↦ let bad : false ≡ true = rw q at h in cc
  | inr q ↦ rw q (NoNewline-append a b (rw q at h) k)
]

hex_digit-ne : (n : ℕ) → hex_digit n ≢ 10
hex_digit-ne n = elim (Bool-cases (ltb n 10)) [
  | inl q ↦ rw q (λ e. omega (arith, e))
  | inr q ↦ rw q (λ e. omega (arith, e))
]

pub NoNewline-hex : (n x : ℕ) → NoNewline (hex n x)
unfolding hex
NoNewline-hex zero x = refl
NoNewline-hex (suc n) x =
    NoNewline-append (hex n (x / 16)) (hex_digit (x % 16) ∷ []) (NoNewline-hex n (x / 16))
      (NoNewline-cons (hex_digit (x % 16)) [] (hex_digit-ne (x % 16)) refl)

NoNewline-digits : (fuel n : ℕ) → NoNewline (digits fuel n)
unfolding digits
NoNewline-digits zero n = refl
NoNewline-digits (suc fuel) n = elim (Bool-cases (ltb n 10)) [
  | inl q ↦ rw q (NoNewline-cons (b'0' + n) [] (λ e. omega (arith, e)) refl)
  | inr q ↦ rw q (
      NoNewline-append (digits fuel (n / 10)) ((b'0' + n % 10) ∷ [])
        (NoNewline-digits fuel (n / 10))
        (NoNewline-cons (b'0' + n % 10) [] (λ e. omega (arith, e)) refl))
]

NoNewline-shown_ch : (got : ℕ) → NoNewline (shown_ch got)
unfolding shown_ch isprint
NoNewline-shown_ch got = elim (Bool-cases (got == 10)) [
  | inl q ↦ rw (==→eq got 10 q) refl
  | inr q ↦ elim (Bool-cases (isprint got)) [
    | inl p ↦ rw (p, q) refl
    | inr p ↦ rw (p, q) (NoNewline-append (codes "0x") (hex 2 got) refl (NoNewline-hex 2 got))
  ]
]

NoNewline-decimal : (n : ℕ) → NoNewline (decimal n)
NoNewline-decimal n = NoNewline-digits (suc n) n

abbrev pub AllNoNewline : List (List ℕ) → Type 0
AllNoNewline [] = Unit
AllNoNewline (text ∷ texts) = NoNewline text × AllNoNewline texts

NoNewline-join : (texts : List (List ℕ)) → AllNoNewline texts → NoNewline (join texts)
NoNewline-join [] h = refl
NoNewline-join (text ∷ texts) (h, k) = NoNewline-append text (join texts) h (NoNewline-join texts k)

NoNewline-parts : (e : Message) → IsClean e → AllNoNewline (parts e)
unfolding parts
NoNewline-parts (bad_alloc size) c = (refl, (NoNewline-decimal size, (refl, tt)))
NoNewline-parts (unexpected_eof after) c = (refl, ((rw (ne→== after 10 c) refl), (refl, tt)))
NoNewline-parts (unprintable_ch got) c = (refl, (refl, (refl, (NoNewline-hex 2 got, (refl, tt)))))
NoNewline-parts (bad_ch got) c = (refl, (NoNewline-shown_ch got, (refl, tt)))
NoNewline-parts bad_syntax c = (refl, tt)
NoNewline-parts (write_failed bytes filename) c = elim (Bool-cases (ltb 0 bytes)) [
  | inl q ↦ rw q (refl, (NoNewline-decimal bytes, (refl, (c, (refl, tt)))))
  | inr q ↦ rw q (refl, (c, (refl, tt)))
]
NoNewline-parts (path_too_long maximum given) c =
    (refl, (NoNewline-decimal maximum, (refl, (NoNewline-decimal given, (refl, tt)))))
NoNewline-parts no_input_file c = (refl, tt)
NoNewline-parts (custom err_message) c = (c, (refl, tt))
NoNewline-parts (cannot_open_file filename) c = (refl, (c, (refl, tt)))
NoNewline-parts stack_underflow c = (refl, tt)
NoNewline-parts (invalid_uint str) c = (refl, (c, (refl, (refl, tt))))
NoNewline-parts (uint_not_in_range min_val max_val got) c = (
  refl,
  (
    NoNewline-decimal min_val,
    (refl, (NoNewline-decimal max_val, (refl, (NoNewline-decimal got, (refl, tt))))),
  ),
)
NoNewline-parts (invalid_bc_file filename) c = (c, (refl, tt))
NoNewline-parts (bad_bc_ver filename ver_major ver_minor) c = (
  refl,
  (c, (refl, (NoNewline-decimal ver_major, (refl, (NoNewline-decimal ver_minor, (refl, tt)))))),
)
NoNewline-parts vm_pool_oom c = (refl, tt)
NoNewline-parts (invalid_opcode opcode) c = (refl, (NoNewline-decimal opcode, (refl, tt)))
NoNewline-parts (invalid_ex_opcode opcode) c = (refl, (NoNewline-decimal opcode, (refl, tt)))
NoNewline-parts (invalid_vm_func fn) c = (refl, (NoNewline-decimal fn, (refl, tt)))

-- Every error message is one line: it ends with the only newline in it. The name of the program, the
-- stage, and the texts that the message quotes are to have no newline, and the character behind
-- which the input ended is to be none.
pub error_text-IsLine :
    (log : Logging) (stage : List ℕ) (e : Message)
    → NoNewline log.prog_name
    → NoNewline stage
    → IsClean e
    → IsLine (error_text log stage e)
unfolding error_text
error_text-IsLine log stage e n s c =
    let first : List ℕ = join (heading log stage) in
    (
      first ++ join (parts e),
      sym (append_assoc first (join (parts e)) (10 ∷ [])),
      NoNewline-append first (join (parts e))
          (NoNewline-join (heading log stage) (n, (refl, (s, (refl, tt)))))
          (NoNewline-join (parts e) (NoNewline-parts e c)),
    )
