-- ===== src/Checksum/Laws.antt =====
-- The Internet checksum as arithmetic modulo 65535, and what a receiver finds who sums up a
-- message that carries its checksum.
use avr_net_enc28j.Base.{
  ℕ, zero, suc, ◌+◌, ◌-◌, ◌*◌, ◌/◌, ◌%◌, ◌^◌, ◌≤◌, ◌<◌, ◌≡◌, refl, sym, ap, arith, Mem, IsBytes,
  ◌==◌, if◌then◌else◌,
}
use avr_net_enc28j.Util.{add32, chars_put_short}
use avr_net_enc28j.Util.Bytes.{chars_put_short_high, chars_put_short_low, chars_put_short_ne}
use avr_net_enc28j.Checksum.{word, sum_words, fold_carry, fold_fuel, software_checksum}

-- The sum of the 16-bit words of `len` bytes, without a bound.
unfoldable pub word_sum : Mem → ℕ → ℕ → ℕ
word_sum m p zero = 0
word_sum m p (suc zero) = m p * 256
word_sum m p (suc (suc len)) = word m p + word_sum m (p + 2) len

-- The one's complement residue: 0 for 0, otherwise from 1 to 65535.
unfoldable pub residue : ℕ → ℕ
residue s = if s == 0 then 0 else (s - 1) % 65535 + 1

-- One round keeps the residue.
residue-fold : (s : ℕ) → residue (s % 65536 + s / 65536) ≡ residue s
unfolding residue
residue-fold s = ground arith

residue-small : (s : ℕ) → s < 65536 → residue s ≡ s
unfolding residue
residue-small s h = ground arith

pub residue-lt : (s : ℕ) → residue s < 65536
unfolding residue
residue-lt s = ground arith

-- From a sum of 32 bits, with three rounds or more, the loop ends by its test, and the carries are
-- folded in.
pub fold_carry-residue : (k s : ℕ) → s < 2 ^ 32 → fold_carry (suc (suc (suc k))) s ≡ residue s
unfolding fold_carry
fold_carry-residue k s h =
    let t = s % 65536 + s / 65536 in
    let u = t % 65536 + t / 65536 in
    ground
      (arith, residue-fold s, residue-fold t, residue-small s, residue-small t, residue-small u)

word_sum-le : (m : Mem) (p len : ℕ) → IsBytes m → word_sum m p len ≤ 32768 * (len + 1)
unfolding word_sum
word_sum-le m p zero h = omega arith
word_sum-le m p (suc zero) h = omega (arith, h p)
word_sum-le m p (suc (suc len)) h = omega (arith, h p, h (p + 1), word_sum-le m (p + 2) len h)

sum_words-word_sum :
    (m : Mem) (p len sum : ℕ)
    → word_sum m p len + sum < 2 ^ 32
    → sum_words m p len sum ≡ word_sum m p len + sum
unfolding word_sum sum_words
sum_words-word_sum m p zero sum h = omega arith
sum_words-word_sum m p (suc zero) sum h = omega arith
sum_words-word_sum m p (suc (suc len)) sum h =
    let e : add32 sum (word m p) ≡ sum + word m p = omega arith in
    rw e (omega (arith, sum_words-word_sum m (p + 2) len (sum + word m p) (omega arith)))

-- The checksum is the complement of the residue of all words, if their sum fits 32 bits.
pub software_checksum-residue :
    (m : Mem) (p len sum : ℕ)
    → word_sum m p len + sum < 2 ^ 32
    → software_checksum m p len sum ≡ 65535 - residue (word_sum m p len + sum)
unfolding software_checksum
software_checksum-residue m p len sum h = omega (
  arith,
  sum_words-word_sum m p len sum h,
  ap (fold_carry fold_fuel) (sum_words-word_sum m p len sum h),
  fold_carry-residue 0 (word_sum m p len + sum) h,
  residue-lt (word_sum m p len + sum),
)

-- Two memories that agree on an area have the same sum there.
word_sum_ext :
    (m m' : Mem) (p len : ℕ)
    → ((i : ℕ) → p ≤ i → i < p + len → m i ≡ m' i)
    → word_sum m p len ≡ word_sum m' p len
unfolding word_sum
word_sum_ext m m' p zero h = refl
word_sum_ext m m' p (suc zero) h = omega (arith, h p (omega arith) (omega arith))
word_sum_ext m m' p (suc (suc len)) h = omega (
  arith,
  h p (omega arith) (omega arith),
  h (p + 1) (omega arith) (omega arith),
  word_sum_ext m m' (p + 2) len (λ i a b. h i (omega arith) (omega arith)),
)

-- A message with a 16-bit field at an even distance `2 * k` from its start sums up to the field
-- and what the message with the field cleared sums up to.
word_sum-field :
    (m : Mem) (p len k at v : ℕ)
    → v < 65536
    → at ≡ p + 2 * k
    → 2 * k + 2 ≤ len
    → word_sum (chars_put_short m at v) p len ≡ word_sum (chars_put_short m at 0) p len + v
unfolding word_sum
word_sum-field m p zero k at v h e l = absurd (omega arith)
word_sum-field m p (suc zero) k at v h e l = absurd (omega arith)
word_sum-field m p (suc (suc len)) zero at v h e l =
    let here : at ≡ p = omega arith in
    let at_start = λ (w : ℕ). ap (chars_put_short m at w) here in
    let behind = λ (w : ℕ). ap (λ (t : ℕ). chars_put_short m at w (t + 1)) here in
    omega (
      arith,
      chars_put_short_high m at v,
      chars_put_short_low m at v,
      chars_put_short_high m at 0,
      chars_put_short_low m at 0,
      at_start v,
      at_start 0,
      behind v,
      behind 0,
      word_sum_ext (chars_put_short m at v) (chars_put_short m at 0) (p + 2) len (λ i a b. omega (
        arith,
        chars_put_short_ne m at v i (omega arith) (omega arith),
        chars_put_short_ne m at 0 i (omega arith) (omega arith),
      )),
    )
word_sum-field m p (suc (suc len)) (suc k) at v h e l = omega (
  arith,
  chars_put_short_ne m at v p (omega arith) (omega arith),
  chars_put_short_ne m at v (p + 1) (omega arith) (omega arith),
  chars_put_short_ne m at 0 p (omega arith) (omega arith),
  chars_put_short_ne m at 0 (p + 1) (omega arith) (omega arith),
  word_sum-field m (p + 2) len k at v h (omega arith) (omega arith),
)

residue-complement : (s : ℕ) → residue (s + (65535 - residue s)) ≡ 65535
unfolding residue
residue-complement s = ground arith

-- A receiver who sums up a message whose checksum field holds the checksum of the message with
-- the field cleared finds 0. The field stands at an even distance from the start, and the words
-- with it and with the start value `sum` fit 32 bits.
pub software_checksum_verifies :
    (m : Mem) (p len k sum : ℕ)
    → 2 * k + 2 ≤ len
    → word_sum (chars_put_short m (p + 2 * k) 0) p len + sum + 65535 < 2 ^ 32
    → let cleared = chars_put_short m (p + 2 * k) 0 in
      software_checksum
        (chars_put_short m (p + 2 * k) (software_checksum cleared p len sum))
        p
        len
        sum
      ≡ 0
software_checksum_verifies m p len k sum l fits =
    let at = p + 2 * k in
    let cleared = chars_put_short m at 0 in
    let s = word_sum cleared p len + sum in
    let c = software_checksum cleared p len sum in
    let found : c ≡ 65535 - residue s = software_checksum-residue cleared p len sum (omega arith) in
    let filled = word_sum-field m p len k at c (omega arith) refl l in
    omega (
      arith,
      software_checksum-residue (chars_put_short m at c) p len sum (omega arith),
      residue-complement s,
      ap residue (
          eq_sum (word_sum (chars_put_short m at c) p len) (word_sum cleared p len) c sum
            (residue s) filled found),
    )
  where
    eq_sum : (a b c sum r : ℕ) → a ≡ b + c → c ≡ 65535 - r → a + sum ≡ b + sum + (65535 - r)
    eq_sum a b c sum r p q = omega arith

-- The form that the protocols use: `m` is a message whose checksum field, at an even distance from
-- its start, is cleared, and whose length has 16 bits.
pub software_checksum_fills :
    (m : Mem) (p len k at sum : ℕ)
    → IsBytes m
    → chars_put_short m at 0 ≡ m
    → at ≡ p + 2 * k
    → 2 * k + 2 ≤ len
    → len < 65536
    → sum < 131072
    → software_checksum (chars_put_short m at (software_checksum m p len sum)) p len sum ≡ 0
software_checksum_fills m p len k at sum h clear e l n s =
    let e' : p + 2 * k ≡ at = sym e in
    let bound : word_sum m p len + sum + 65535 < 2 ^ 32 = omega (arith, word_sum-le m p len h) in
    rw (e', clear) at (software_checksum_verifies m p len k sum l (rw (e', clear) bound))

sum_words_ext :
    (m m' : Mem) (p len sum : ℕ)
    → ((i : ℕ) → p ≤ i → i < p + len → m i ≡ m' i)
    → sum_words m p len sum ≡ sum_words m' p len sum
unfolding sum_words
sum_words_ext m m' p zero sum h = refl
sum_words_ext m m' p (suc zero) sum h = rw (h p (omega arith) (omega arith))
sum_words_ext m m' p (suc (suc len)) sum h =
    rw (h p (omega arith) (omega arith), h (p + 1) (omega arith) (omega arith))
      (sum_words_ext m m' (p + 2) len _ (λ i a b. h i (omega arith) (omega arith)))

-- The checksum depends on the bytes that it covers, and on no other.
pub software_checksum_ext :
    (m m' : Mem) (p len sum : ℕ)
    → ((i : ℕ) → p ≤ i → i < p + len → m i ≡ m' i)
    → software_checksum m p len sum ≡ software_checksum m' p len sum
unfolding software_checksum
software_checksum_ext m m' p len sum h = rw (sum_words_ext m m' p len sum h)
