-- ===== src/Dump/Data.antt =====
-- dump.c: `u6a_hexdump` and `u6a_dump_data`, the lines of `-S` for the constants. All writes are
-- taken to succeed. The bytes of constants are below 128, so that a `char` is the byte.
pub mod Lines
use u6a.Base.{
  ℕ, zero, suc, ◌+◌, ◌-◌, ◌*◌, ◌/◌, ◌%◌, ◌≤◌, ◌≡◌, refl, List, [], ◌∷◌, ◌++◌, length, length-append,
  take, drop, map, if◌then◌else◌, arith, ap, inl, inr, ◌⊎◌,
}
use u6a.Lexer.{isprint}
use u6a.Dump.{hex, hex_digit, spaces}

abbrev pub bytes_per_line : ℕ
bytes_per_line = 16

-- The bytes of a line in groups of two, the last one of one byte if their number is odd.
pub hex_groups : List ℕ → List ℕ
hex_groups [] = []
hex_groups (x ∷ []) = hex 2 x ++ b' ' ∷ b' ' ∷ b' ' ∷ []
hex_groups (x ∷ y ∷ bytes) = (hex 2 x ++ hex 2 y ++ b' ' ∷ []) ++ hex_groups bytes

pub formatted : List ℕ → List ℕ
formatted = map (λ ch. if isprint ch then ch else b'.')

-- The two columns behind the position: the bytes, and behind the blanks the characters.
pub byte_column : List ℕ → List ℕ
unfolding hex_groups
byte_column bytes = hex_groups bytes ++ b' ' ∷ spaces ((bytes_per_line - length bytes) / 2 * 5)

pub hexdump_line : ℕ → List ℕ → List ℕ
unfolding byte_column formatted
hexdump_line idx bytes =
    (hex 8 idx ++ b':' ∷ b' ' ∷ b' ' ∷ []) ++ (byte_column bytes ++ (formatted bytes ++ 10 ∷ []))

-- The loop over the lines, with a round of fuel for each byte.
unfoldable pub hexdump : ℕ → (idx : ℕ) → List ℕ → List ℕ
unfolding hexdump_line
hexdump zero idx bytes = []
hexdump (suc fuel) idx [] = []
hexdump (suc fuel) idx (ch ∷ bytes) =
    hexdump_line idx (take bytes_per_line (ch ∷ bytes))
    ++ hexdump fuel (idx + bytes_per_line) (drop bytes_per_line (ch ∷ bytes))

pub dump_data : List ℕ → List ℕ
unfolding hexdump
dump_data bytes =
    b'.' ∷ b'r' ∷ b'o' ∷ b'd' ∷ b'a' ∷ b't' ∷ b'a' ∷ 10 ∷ hexdump (length bytes) 0 bytes

pub length-hex : (n x : ℕ) → length (hex n x) ≡ n
unfolding hex
length-hex zero x = refl
length-hex (suc n) x =
    omega
      (arith, length-append {0} (hex n (x / 16)) (hex_digit (x % 16) ∷ []), length-hex n (x / 16))

length-hex_groups : (bytes : List ℕ) → length (hex_groups bytes) ≡ (length bytes + 1) / 2 * 5
unfolding hex_groups
length-hex_groups [] = refl
length-hex_groups (x ∷ []) =
    omega (arith, length-append {0} (hex 2 x) (b' ' ∷ b' ' ∷ b' ' ∷ []), length-hex 2 x)
length-hex_groups (x ∷ y ∷ bytes) = omega (
  arith,
  length-append {0} (hex 2 x ++ hex 2 y ++ b' ' ∷ []) (hex_groups bytes),
  length-append {0} (hex 2 x ++ hex 2 y) (b' ' ∷ []),
  length-append {0} (hex 2 x) (hex 2 y),
  length-hex 2 x,
  length-hex 2 y,
  length-hex_groups bytes,
)

length-spaces : (n : ℕ) → length (spaces n) ≡ n
length-spaces zero = refl
length-spaces (suc n) = omega (arith, length-spaces n)

pub length-formatted : (bytes : List ℕ) → length (formatted bytes) ≡ length bytes
unfolding formatted
length-formatted [] = refl
length-formatted (x ∷ bytes) = omega (arith, length-formatted bytes)

-- On every line of at most sixteen bytes, full or not, the characters begin at the same place.
pub length-byte_column :
    (bytes : List ℕ) → length bytes ≤ bytes_per_line → length (byte_column bytes) ≡ 41
unfolding byte_column
length-byte_column bytes h = omega (
  arith,
  length-append {0} (hex_groups bytes) (b' ' ∷ spaces ((16 - length bytes) / 2 * 5)),
  length-hex_groups bytes,
  length-spaces ((16 - length bytes) / 2 * 5),
)

pub length-take :
    (n : ℕ) (bytes : List ℕ)
    → (length (take n bytes) ≤ n) × (length (take n bytes) + length (drop n bytes) ≡ length bytes)
length-take zero bytes = (omega arith, omega arith)
length-take (suc n) [] = (omega arith, refl)
length-take (suc n) (x ∷ bytes) =
    let (a, b) = length-take n bytes in (omega (arith, a), omega (arith, b))

pub take-full : (n : ℕ) (bytes : List ℕ) → (length (take n bytes) ≡ n) ⊎ (length (drop n bytes) ≡ 0)
take-full zero bytes = inl refl
take-full (suc n) [] = inr refl
take-full (suc n) (x ∷ bytes) = elim (take-full n bytes) [ inl a ↦ inl (ap suc a) | inr b ↦ inr b ]
