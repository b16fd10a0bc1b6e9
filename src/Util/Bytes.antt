-- ===== src/Util/Bytes.antt =====
-- Numbers in byte arrays: the readers and writers of src/util.c undo one another.
use avr_net_enc28j.Base.{
  ℕ, ◌+◌, ◌/◌, ◌%◌, ◌^◌, ◌<◌, ◌≡◌, ◌≢◌, arith, Mem, IsBytes, put, put-IsBytes, offset, fun_ext,
}
use avr_net_enc28j.Util.{
  low, high, low_put, high_put, chars_to_short, chars_put_short, chars_to_long,
}

module _ (m : Mem) (at v : ℕ) where
  pub chars_put_short_high : chars_put_short m at v at ≡ v / 256 % 256
  unfolding chars_put_short
  chars_put_short_high = ground arith

  pub chars_put_short_low : chars_put_short m at v (at + 1) ≡ v % 256
  unfolding chars_put_short
  chars_put_short_low = ground arith

  pub chars_put_short_ne : (i : ℕ) → i ≢ at → i ≢ at + 1 → chars_put_short m at v i ≡ m i
  unfolding chars_put_short
  chars_put_short_ne i p q = ground arith

  pub chars_put_short-IsBytes : IsBytes m → IsBytes (chars_put_short m at v)
  unfolding chars_put_short
  chars_put_short-IsBytes h = put-IsBytes _ (at + 1) (low v) (put-IsBytes m at (high v) h)

  -- A field that was cleared byte by byte is not changed by writing 0.
  pub chars_put_short_cleared :
      chars_put_short (put (put m at 0) (at + 1) 0) at 0 ≡ put (put m at 0) (at + 1) 0
  unfolding chars_put_short put
  chars_put_short_cleared = fun_ext λ i. ground arith

  -- What `CharsPutShort` writes, `CharsToShort` reads.
  pub chars_to_short-chars_put_short :
      v < 65536 → chars_to_short (offset (chars_put_short m at v) at) ≡ v
  unfolding chars_to_short
  chars_to_short-chars_put_short h =
      let z : at + 0 ≡ at = omega arith in
      rw z (omega (arith, chars_put_short_high, chars_put_short_low))

pub chars_to_short-lt : (m : Mem) → IsBytes m → chars_to_short m < 65536
unfolding chars_to_short
chars_to_short-lt m h = omega (arith, h 0, h 1)

pub chars_to_long-lt : (m : Mem) → IsBytes m → chars_to_long m < 2 ^ 32
unfolding chars_to_long
chars_to_long-lt m h = omega (arith, h 0, h 1, h 2, h 3)

-- A number put together from its two bytes, low byte first, is that number.
pub low_put-high_put : (v w : ℕ) → v < 65536 → high_put (low_put w (low v)) (high v) ≡ v
unfolding low_put high_put
low_put-high_put v w h = omega arith
