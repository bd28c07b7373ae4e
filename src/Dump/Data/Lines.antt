-- ===== src/Dump/Data/Lines.antt =====
-- dump.c, `u6a_hexdump`: the lines of the dump.
use u6a.Base.{
  ℕ, zero, suc, ◌+◌, ◌-◌, ◌/◌, ◌%◌, ◌*◌, ◌≤◌, ◌<◌, ◌≡◌, ◌≢◌, refl, sym, ap, ◌∙◌, true, false, List,
  [], ◌∷◌, ◌++◌, length, length-append, append_assoc, take, drop, map, replicate, ◌==◌, ne→==,
  ==→eq, ==→ne, if◌then◌else◌, arith, inl, inr, ◌⊎◌, Bool-cases,
}
use u6a.Lexer.{isprint}
use u6a.Dump.{hex, spaces}
use u6a.Dump.Data.{
  bytes_per_line, hex_groups, formatted, byte_column, hexdump_line, hexdump, length-hex,
  length-formatted, length-byte_column, length-take, take-full,
}
use u6a.Logging.Lines.{NoNewline, AllNoNewline, NoNewline-cons, NoNewline-append, NoNewline-hex}

-- Each line with a newline behind it, and texts one behind the other.
abbrev pub unlines : List (List ℕ) → List ℕ
unlines [] = []
unlines (line ∷ lines) = line ++ 10 ∷ unlines lines

abbrev pub concat : List (List ℕ) → List ℕ
concat [] = []
concat (text ∷ texts) = text ++ concat texts

-- The lengths of the lines for `n` bytes: a line for every sixteen, and one for those that are left.
abbrev pub widths : ℕ → List ℕ
widths n = replicate (n / 16) 68 ++ (if n % 16 == 0 then [] else (52 + n % 16) ∷ [])

widths-full : (m : ℕ) → widths (16 + m) ≡ 68 ∷ widths m
widths-full m =
    let lines : (16 + m) / 16 ≡ suc (m / 16) = omega arith in
    let left : (16 + m) % 16 ≡ m % 16 = omega arith in rw (lines, left) refl

widths-part : (n : ℕ) → 1 ≤ n → n < 16 → widths n ≡ (52 + n) ∷ []
widths-part n some_bytes few =
    let lines : n / 16 ≡ 0 = omega arith in
    let left : n % 16 ≡ n = omega arith in
    let more : (n == 0) ≡ false = ne→== n 0 (λ e. omega (arith, e)) in rw (lines, left, more) refl

widths-step :
    (a m n : ℕ) {ls : List ℕ}
    → a + m ≡ n
    → 1 ≤ a
    → a ≤ 16
    → (a ≡ 16) ⊎ (m ≡ 0)
    → ls ≡ widths m
    → (52 + a) ∷ ls ≡ widths n
widths-step a m n all some_taken few full sizes = elim (Bool-cases (a == 16)) [
  | inl q ↦
      let whole : a ≡ 16 = ==→eq a 16 q in
      let all16 : 16 + m ≡ n = omega (arith, all, whole) in
      rw (whole, sizes) (sym (widths-full m) ∙ ap widths all16)
  | inr q ↦
      let other : a ≢ 16 = ==→ne a 16 q in
      let none_left : m ≡ 0 = elim full [ inl e ↦ absurd (other e) | inr e ↦ e ] in
      let same : a ≡ n = omega (arith, all, none_left) in
      rw (sizes, none_left)
        (sym (widths-part a some_taken (omega (arith, few, other))) ∙ ap widths same)
]

NoNewline-spaces : (n : ℕ) → NoNewline (spaces n)
NoNewline-spaces zero = refl
NoNewline-spaces (suc n) = NoNewline-spaces n

NoNewline-hex_groups : (bytes : List ℕ) → NoNewline (hex_groups bytes)
unfolding hex_groups
NoNewline-hex_groups [] = refl
NoNewline-hex_groups (x ∷ []) =
    NoNewline-append (hex 2 x) (b' ' ∷ b' ' ∷ b' ' ∷ []) (NoNewline-hex 2 x) refl
NoNewline-hex_groups (x ∷ y ∷ bytes) =
    NoNewline-append (hex 2 x ++ hex 2 y ++ b' ' ∷ []) (hex_groups bytes)
      (NoNewline-append (hex 2 x ++ hex 2 y) (b' ' ∷ [])
        (NoNewline-append (hex 2 x) (hex 2 y) (NoNewline-hex 2 x) (NoNewline-hex 2 y)) refl)
      (NoNewline-hex_groups bytes)

NoNewline-formatted : (bytes : List ℕ) → NoNewline (formatted bytes)
unfolding formatted isprint
NoNewline-formatted [] = refl
NoNewline-formatted (ch ∷ bytes) = elim (Bool-cases (isprint ch)) [
  | inl p ↦
      let other : ch ≢ 10 = λ e. (let bad : isprint 10 ≡ true = rw e at p in cc) in
      rw p (NoNewline-cons ch (formatted bytes) other (NoNewline-formatted bytes))
  | inr p ↦ rw p (NoNewline-formatted bytes)
]

-- A line without its newline: 52 characters in front of those that are shown.
before : ℕ → List ℕ → List ℕ
before idx bytes = (hex 8 idx ++ b':' ∷ b' ' ∷ b' ' ∷ []) ++ byte_column bytes

length-before :
    (idx : ℕ) (bytes : List ℕ) → length bytes ≤ bytes_per_line → length (before idx bytes) ≡ 52
unfolding before
length-before idx bytes h = omega (
  arith,
  length-append {0} (hex 8 idx ++ b':' ∷ b' ' ∷ b' ' ∷ []) (byte_column bytes),
  length-append {0} (hex 8 idx) (b':' ∷ b' ' ∷ b' ' ∷ []),
  length-hex 8 idx,
  length-byte_column bytes h,
)

NoNewline-before : (idx : ℕ) (bytes : List ℕ) → NoNewline (before idx bytes)
unfolding before byte_column
NoNewline-before idx bytes =
    NoNewline-append (hex 8 idx ++ b':' ∷ b' ' ∷ b' ' ∷ []) (byte_column bytes)
      (NoNewline-append (hex 8 idx) (b':' ∷ b' ' ∷ b' ' ∷ []) (NoNewline-hex 8 idx) refl)
      (NoNewline-append (hex_groups bytes) _ (NoNewline-hex_groups bytes)
        (NoNewline-spaces ((bytes_per_line - length bytes) / 2 * 5)))

hexdump_line-before :
    (idx : ℕ) (bytes rest : List ℕ)
    → hexdump_line idx bytes ++ rest ≡ (before idx bytes ++ formatted bytes) ++ 10 ∷ rest
unfolding hexdump_line before
hexdump_line-before idx bytes rest =
    shifted (hex 8 idx ++ b':' ∷ b' ' ∷ b' ' ∷ []) (byte_column bytes) (formatted bytes)
  where
    shifted : (a b f : List ℕ) → (a ++ (b ++ (f ++ 10 ∷ []))) ++ rest ≡ ((a ++ b) ++ f) ++ 10 ∷ rest
    shifted a b f =
        rw
          (
            append_assoc a (b ++ (f ++ 10 ∷ [])) rest,
            append_assoc b (f ++ 10 ∷ []) rest,
            append_assoc f (10 ∷ []) rest,
            append_assoc a b f,
            append_assoc a (b ++ f) (10 ∷ rest),
            append_assoc b f (10 ∷ rest),
          )
          refl

drop-append : (n : ℕ) (a b : List ℕ) → length a ≡ n → drop n (a ++ b) ≡ b
drop-append zero [] b h = refl
drop-append zero (x ∷ a) b h = absurd (omega (arith, h))
drop-append (suc n) [] b h = absurd (omega (arith, h))
drop-append (suc n) (x ∷ a) b h = drop-append n a b (omega (arith, h))

formatted-take :
    (n : ℕ) (bytes : List ℕ)
    → formatted (take n bytes) ++ formatted (drop n bytes) ≡ formatted bytes
unfolding formatted
formatted-take zero bytes = refl
formatted-take (suc n) [] = refl
formatted-take (suc n) (x ∷ bytes) =
    ap (λ l. (if isprint x then x else b'.') ∷ l) (formatted-take n bytes)

-- The text is that of lines without newlines, of those lengths, which show the bytes behind their
-- first 52 characters.
abbrev pub ShowsBytes : List ℕ → List ℕ → Type 0
ShowsBytes bytes text =
    (lines : List (List ℕ)) × (text ≡ unlines lines)
    × AllNoNewline lines
    × (map (λ (l : List ℕ). length l) lines ≡ widths (length bytes))
    × (concat (map (λ (l : List ℕ). drop 52 l) lines) ≡ formatted bytes)

-- With a round of fuel for each byte or more, the hexadecimal dump is a number of lines, each with a
-- newline behind it and no other in it: one of 68 characters for every sixteen bytes, and if bytes are
-- left, one of 52 characters and one more for each of them. Behind their first 52 characters the
-- lines show all bytes in their order, those that cannot be printed as a dot.
pub hexdump-ShowsBytes :
    (fuel idx : ℕ) (bytes : List ℕ)
    → length bytes ≤ fuel
    → ShowsBytes bytes (hexdump fuel idx bytes)
unfolding hexdump formatted
hexdump-ShowsBytes zero idx [] h = ([], refl, tt, refl, refl)
hexdump-ShowsBytes zero idx (ch ∷ bytes) h = absurd (omega arith)
hexdump-ShowsBytes (suc fuel) idx [] h = ([], refl, tt, refl, refl)
hexdump-ShowsBytes (suc fuel) idx (ch ∷ bytes) h =
    let chunk : List ℕ = take 16 (ch ∷ bytes) in
    let left : List ℕ = drop 16 (ch ∷ bytes) in
    let (few, all) = length-take 16 (ch ∷ bytes) in
    let some_taken : 1 ≤ length chunk = omega arith in
    let (lines, text, clean, sizes, shown) =
      hexdump-ShowsBytes fuel (idx + 16) left (omega (arith, all, some_taken, h)) in
    let first : List ℕ = before idx chunk in
    let line : List ℕ = first ++ formatted chunk in
    let width : length line ≡ 52 + length chunk = omega (
      arith,
      length-append {0} first (formatted chunk),
      length-before idx chunk few,
      length-formatted chunk,
    ) in
    (
      line ∷ lines,
      hexdump_line-before idx chunk (hexdump fuel (idx + 16) left) ∙ ap (λ t. line ++ 10 ∷ t) text,
      (
        NoNewline-append first (formatted chunk) (NoNewline-before idx chunk)
            (NoNewline-formatted chunk),
        clean,
      ),
      rw width (
          widths-step (length chunk) (length left) (length (ch ∷ bytes)) all some_taken few
            (take-full 16 (ch ∷ bytes)) sizes),
      ap (λ t. t ++ concat (map (λ (l : List ℕ). drop 52 l) lines))
            (drop-append 52 first (formatted chunk) (length-before idx chunk few))
          ∙ (ap (λ t. formatted chunk ++ t) shown ∙ formatted-take 16 (ch ∷ bytes)),
    )
