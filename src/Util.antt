-- ===== src/Util.antt =====
-- src/util.c: byte order, decimal numbers and counted strings. On the AVR `short` has 16 bits and
-- `long` 32, stored with the lowest byte first.
pub mod Bytes
pub mod Decimal
use avr_net_enc28j.Base.{
  ℕ, zero, suc, ◌+◌, ◌-◌, ◌*◌, ◌/◌, ◌%◌, ◌^◌, Bool, true, false, Option, none, some, not, ◌||◌,
  ◌&&◌, ◌==◌, ltb, if◌then◌else◌, Mem, put, copy, same,
}

-- `a - b` and `a + b` in `unsigned short`; the modulus is added first, since `-` stops at 0.
abbrev pub sub16 : ℕ → ℕ → ℕ
sub16 a b = (a + 65536 - b % 65536) % 65536

abbrev pub add16 : ℕ → ℕ → ℕ
add16 a b = (a + b) % 65536

-- `a + b` in `unsigned long`.
abbrev pub add32 : ℕ → ℕ → ℕ
add32 a b = (a + b) % 2 ^ 32

abbrev pub low : ℕ → ℕ
low value = value % 256

abbrev pub high : ℕ → ℕ
high value = value / 256 % 256

unfoldable pub low_put : ℕ → ℕ → ℕ
low_put value ch = value / 256 * 256 + ch % 256

unfoldable pub high_put : ℕ → ℕ → ℕ
high_put value ch = ch % 256 * 256 + value % 256

unfoldable pub chars_to_short : Mem → ℕ
chars_to_short value = value 0 * 256 + value 1

-- `CharsPutShort(m + at, value)`.
unfoldable pub chars_put_short : Mem → ℕ → ℕ → Mem
unfolding put
chars_put_short m at value = put (put m at (high value)) (at + 1) (low value)

unfoldable pub chars_to_long : Mem → ℕ
chars_to_long value = ((value 0 * 256 + value 1) * 256 + value 2) * 256 + value 3

abbrev pub is_digit : ℕ → Bool
is_digit c = not (ltb c b'0' || ltb b'9' c)

-- The loop of `ParseLong` from index `i` down to 0; `none` is the `return 0`.
unfoldable pub parse_long_from : Mem → ℕ → ℕ → ℕ → Option ℕ
parse_long_from ch zero decimal_index number =
    if is_digit (ch 0) then some (add32 number ((ch 0 - b'0') * decimal_index)) else none
parse_long_from ch (suc i) decimal_index number =
    let rest =
      parse_long_from ch i (decimal_index * 10 % 2 ^ 32)
        (add32 number ((ch (suc i) - b'0') * decimal_index)) in
    if is_digit (ch (suc i)) then rest else none

unfoldable pub parse_long : Mem → ℕ → Option ℕ
unfolding parse_long_from
parse_long ch zero = none
parse_long ch (suc i) = parse_long_from ch i 1 0

unfoldable pub chars_cmp : Mem → ℕ → Mem → ℕ → Bool
unfolding same
chars_cmp ch1 length1 ch2 length2 = length1 == length2 && same ch1 ch2 length1

-- The destination and the new value of `*destinationLength`.
unfoldable pub chars_cat : Mem → ℕ → Mem → ℕ → Mem × ℕ
unfolding copy
chars_cat destination destination_length source source_length = (
  copy destination destination_length source source_length,
  add16 destination_length source_length,
)
