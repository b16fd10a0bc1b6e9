-- ===== src/Enc28j60/Bank.antt =====
-- Register access of src/enc28j60.c: the bank that the driver remembers is the chip's, and a write
-- goes to the register that is meant, whatever bank was selected before.
use Prim.Native.Nat.{bit_and}
use avr_net_enc28j.Base.{
  ℕ, ◌*◌, ◌/◌, ◌%◌, ◌<◌, ◌≡◌, refl, sym, ap, ◌∙◌, true, ◌&&◌, inl, inr, arith, Mem, ◌==◌,
  if◌then◌else◌, Bool-cases,
}
use avr_net_enc28j.Enc28j60.{Spi, Driver, enc28j60_write_op, enc28j60_set_bank, enc28j60_write}
use avr_net_enc28j.Enc28j60.Codes.{bank_bits, write_code}
use avr_net_enc28j.Enc28j60.Chip.{command, IsChip, holds, kept_byte}

-- A write of a register, as the abstract chip sees it.
abbrev pub written : ℕ → ℕ → (ℕ → ℕ → ℕ) → ℕ → ℕ → ℕ
written address value r b n =
    if b == address / 32 % 4 && n == address % 32 then kept_byte b n value else r b n

module _ {C : Type 0} (spi : Spi C) (selected : C → ℕ) (register : C → ℕ → ℕ → ℕ) (memory : C → Mem)
    (chip : IsChip spi selected register memory) where
  -- The bank that the driver remembers is the one that is selected.
  abbrev pub IsSynced : Driver C → Type 0
  IsSynced d = d.enc28j60_bank ≡ selected d.chip * 32

  -- `c'` differs from `c` in the bank only.
  pub record SameContent (c c' : C) : Type 0 where
    pub registers : (b n : ℕ) → holds b n ≡ true → register c' b n ≡ register c b n
    pub memories : (i : ℕ) → memory c' i ≡ memory c i

  set_bank_chip : (v : ℕ) (c : C) → SameContent c (command spi 0x9F v (command spi 0xBF 3 c))
  set_bank_chip v c = record {
    registers =
        λ b n h. chip.set_register v (command spi 0xBF 3 c) b n h ∙ chip.clear_register 3 c b n h;
    memories = λ i. chip.set_memory v (command spi 0xBF 3 c) i ∙ chip.clear_memory 3 c i;
  }

  pub enc28j60_set_bank_lem :
      (address : ℕ) (d : Driver C)
      → address < 256
      → IsSynced d
      → let d' = enc28j60_set_bank spi address d in
        IsSynced d'
        × (selected d'.chip ≡ address / 32 % 4)
        × SameContent d.chip d'.chip
        × (d'.next_packet_ptr ≡ d.next_packet_ptr)
  unfolding enc28j60_set_bank enc28j60_write_op
  enc28j60_set_bank_lem address d small synced =
      elim (Bool-cases (bit_and address 0x60 == d.enc28j60_bank)) [
        | inl e ↦ rw e (
          synced,
          ground (arith, bank_bits address small),
          record { registers = λ b n h. refl; memories = λ i. refl },
          refl,
        )
        | inr e ↦
            let bank = address / 32 % 4 in
            let bits : bit_and address 0x60 / 32 ≡ bank = omega (arith, bank_bits address small) in
            let now =
              chip.set_selected bank (command spi 0xBF 3 d.chip) (chip.clear_selected d.chip)
                (omega arith) in
            rw (e, bits)
              (omega (arith, bank_bits address small, now), now, set_bank_chip bank d.chip, refl)
      ]

  -- The driver is in step with the chip, whose registers have become `r`; the rest is as before.
  pub record Becomes (r : ℕ → ℕ → ℕ) (d d' : Driver C) : Type 0 where
    pub synced : IsSynced d'
    pub registers : (b n : ℕ) → holds b n ≡ true → register d'.chip b n ≡ r b n
    pub memories : (i : ℕ) → memory d'.chip i ≡ memory d.chip i
    pub pointer : d'.next_packet_ptr ≡ d.next_packet_ptr

  pub enc28j60_write_lem :
      (address value : ℕ) (d : Driver C)
      → address < 256
      → address % 32 < 27
      → value < 256
      → IsSynced d
      → Becomes (written address value (register d.chip)) d (enc28j60_write spi address value d)
  unfolding enc28j60_write enc28j60_write_op
  enc28j60_write_lem address value d small low byte synced =
      let (in_step, bank, same, next) = enc28j60_set_bank_lem address d small synced in
      let a = address % 32 in
      let at = (enc28j60_set_bank spi address d).chip in
      rw (write_code address small) (record {
        synced = in_step ∙ ap (λ s. s * 32) (sym (chip.write_selected a value at low));
        registers = λ b n h.
            chip.write_register a value at b n low byte h ∙ rw (bank, same.registers b n h) refl;
        memories = λ i. chip.write_memory a value at i low ∙ same.memories i;
        pointer = next;
      })
