-- ===== src/Enc28j60/Codes.antt =====
-- The masks of src/enc28j60.c on a register's code, as arithmetic: its bank, and the byte that
-- starts a command.
use Prim.Native.Nat.{bit_and, bit_or}
use avr_net_enc28j.Base.{
  ℕ, zero, suc, ◌+◌, ◌*◌, ◌/◌, ◌%◌, ◌<◌, ◌≡◌, refl, Bool, true, ◌&&◌, arith, ◌==◌, ==_iff,
}

-- Every value below a bound, checked by evaluation.
all_below : ℕ → (ℕ → Bool) → Bool
all_below zero p = true
all_below (suc n) p = p n && all_below n p

below : (n : ℕ) (p : ℕ → Bool) (x : ℕ) → all_below n p ≡ true → x < n → p x ≡ true
unfolding all_below
below zero p x h lt = absurd (omega arith)
below (suc n) p x h lt = ground (arith, below n p x)

-- The bank of a register, times 32.
pub bank_bits : (a : ℕ) → a < 256 → bit_and a 0x60 ≡ a / 32 % 4 * 32
unfolding all_below
bank_bits a h = (==_iff _ _).0 (below 256 (λ x. bit_and x 0x60 == x / 32 % 4 * 32) a refl h)

-- The first byte of a command that writes a register.
pub write_code : (a : ℕ) → a < 256 → bit_or 0x40 (bit_and a 0x1F) ≡ 0x40 + a % 32
unfolding all_below
write_code a h =
    (==_iff _ _).0 (below 256 (λ x. bit_or 0x40 (bit_and x 0x1F) == 0x40 + x % 32) a refl h)
