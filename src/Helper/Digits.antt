-- ===== src/Helper/Digits.antt =====
-- Hexadecimal digits: the table and the function of helper.c against each other, and the digits of
-- a byte read back.
use thesis_software.Base.{
  ℕ, ◌+◌, ◌-◌, ◌*◌, ◌/◌, ◌%◌, ◌^◌, ◌<◌, bit_or, ◌≡◌, ◌≢◌, refl, Bool, true, ◌&&◌, ◌||◌, not, Option,
  none, some, arith, ltb, ◌==◌, ==_iff, if◌then◌else◌, all_below, all_below-true,
}
use thesis_software.Base.Bits.{bit_or_shifted}
use thesis_software.Helper.{hexchar_to_uint8, hex_lut, ends_line, is_blank}

-- A digit as the table tells it: `none` at the entry 0xff.
abbrev pub lut_digit : ℕ → Option ℕ
lut_digit c = if hex_lut c == 0xff then none else some (hex_lut c)

abbrev same_digit : Option ℕ → Option ℕ → Bool
same_digit none none = true
same_digit (some a) (some b) = a == b
same_digit _ _ = Bool.false

same_digit-true : (a b : Option ℕ) → same_digit a b ≡ true → a ≡ b
same_digit-true none none h = refl
same_digit-true (some a) (some b) h = ground (arith, ==_iff a b)
same_digit-true none (some b) h = ground arith
same_digit-true (some a) none h = ground arith

lut_table : all_below 256 (λ c. same_digit (lut_digit c) (hexchar_to_uint8 c)) ≡ true
unfolding all_below hex_lut hexchar_to_uint8
lut_table = refl

-- On every `unsigned char` the table `HEX_LUT` and the function `hexchar_to_uint8` agree: the entry
-- is 0xff exactly where the function returns -1, and elsewhere it is the digit that it stores.
pub hex_lut-hexchar_to_uint8 : (c : ℕ) → c < 256 → lut_digit c ≡ hexchar_to_uint8 c
hex_lut-hexchar_to_uint8 c h = same_digit-true _ _ (all_below-true 256 _ c lut_table h)

lut_range : all_below 256 (λ c. hex_lut c == 0xff || ltb (hex_lut c) 16) ≡ true
unfolding all_below hex_lut
lut_range = refl

-- A digit is below 16.
pub hex_lut-lt : (c : ℕ) → c < 256 → hex_lut c ≢ 0xff → hex_lut c < 16
hex_lut-lt c h ne =
    ground (arith, all_below-true 256 (λ c. hex_lut c == 0xff || ltb (hex_lut c) 16) c lut_range h)

-- The lower-case digit of a nibble, as `%x` prints it.
abbrev pub hex_digit : ℕ → ℕ
hex_digit n = if ltb n 10 then b'0' + n else b'a' + (n - 10)

-- A byte that neither ends a line nor is skipped at its start.
abbrev pub is_plain : ℕ → Bool
is_plain c = not (ends_line c || is_blank c || c == b'#')

digit_table : all_below 16 (λ n. hex_lut (hex_digit n) == n && is_plain (hex_digit n)) ≡ true
unfolding all_below hex_lut
digit_table = refl

digit_facts : (n : ℕ) → n < 16 → (hex_lut (hex_digit n) == n && is_plain (hex_digit n)) ≡ true
digit_facts n h =
    all_below-true 16 (λ n. hex_lut (hex_digit n) == n && is_plain (hex_digit n)) n digit_table h

pub hex_lut-hex_digit : (n : ℕ) → n < 16 → hex_lut (hex_digit n) ≡ n
hex_lut-hex_digit n h = ground (arith, digit_facts n h)

pub hex_digit_plain : (n : ℕ) → n < 16 → is_plain (hex_digit n) ≡ true
hex_digit_plain n h = ground (arith, digit_facts n h)

-- The two nibbles of a byte put together again.
pub nibbles_join : (b : ℕ) → b < 256 → bit_or (b / 16 * 2 ^ 4) (b % 16) % 2 ^ 8 ≡ b
nibbles_join b h = omega (arith, bit_or_shifted 4 (b / 16) (b % 16) (omega arith))
