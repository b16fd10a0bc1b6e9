-- ===== src/Checksum.antt =====
-- `software_checksum` of src/ethernet.c, the Internet checksum.
pub mod Laws
use avr_net_enc28j.Base.{ℕ, zero, suc, ◌+◌, ◌-◌, ◌*◌, ◌/◌, ◌%◌, ◌==◌, if◌then◌else◌, Mem}
use avr_net_enc28j.Util.{add32}

-- The 16-bit word at `m[p]`. The bytes do not overlap, so the `|` of the source is a sum.
abbrev pub word : Mem → ℕ → ℕ
word m p = m p * 256 + m (p + 1)

-- The loop over the words, from position `p` with `len` bytes left, and the odd byte behind it.
unfoldable pub sum_words : Mem → ℕ → ℕ → ℕ → ℕ
sum_words m p zero sum = sum
sum_words m p (suc zero) sum = add32 sum (m p * 256)
sum_words m p (suc (suc len)) sum = sum_words m (p + 2) len (add32 sum (word m p))

-- `while (sum>>16) sum = (sum & 0xFFFF) + (sum >> 16)`, with fuel.
unfoldable pub fold_carry : ℕ → ℕ → ℕ
fold_carry zero sum = sum
fold_carry (suc fuel) sum =
    let rest = fold_carry fuel (sum % 65536 + sum / 65536) in if sum / 65536 == 0 then sum else rest

abbrev pub fold_fuel : ℕ
fold_fuel = 3

-- `software_checksum(m + p, len, sum)`. `x ^ 0xFFFF` of a 16-bit `x` is `0xFFFF - x`.
unfoldable pub software_checksum : Mem → ℕ → ℕ → ℕ → ℕ
software_checksum m p len sum = 65535 - fold_carry fold_fuel (sum_words m p len sum) % 65536
