-- ===== src/Enc28j60/Writes.antt =====
-- Sequences of register writes of src/enc28j60.c, as the abstract register file sees them.
use avr_net_enc28j.Base.{ℕ, ◌%◌, ◌≡◌, refl, ◌∙◌, Bool, true, ◌&&◌, List, [], ◌∷◌, arith, Mem, ltb}
use avr_net_enc28j.Enc28j60.{Spi, Driver}
use avr_net_enc28j.Enc28j60.Init.{write_all}
use avr_net_enc28j.Enc28j60.Chip.{IsChip}
use avr_net_enc28j.Enc28j60.Bank.{IsSynced, Becomes, written, enc28j60_write_lem}

-- The writes one after the other, on the registers alone.
unfoldable pub written_all : List (ℕ × ℕ) → (ℕ → ℕ → ℕ) → ℕ → ℕ → ℕ
written_all [] r = r
written_all ((address, value) ∷ rest) r = written_all rest (written address value r)

-- Every address is a register of a bank, and every value a byte.
unfoldable pub are_writes : List (ℕ × ℕ) → Bool
are_writes [] = true
are_writes ((address, value) ∷ rest) =
    ltb address 256 && ltb (address % 32) 27 && ltb value 256 && are_writes rest

written_all_cong :
    (ws : List (ℕ × ℕ)) (r r' : ℕ → ℕ → ℕ) (b n : ℕ)
    → r b n ≡ r' b n
    → written_all ws r b n ≡ written_all ws r' b n
unfolding written_all
written_all_cong [] r r' b n h = h
written_all_cong ((address, value) ∷ rest) r r' b n h =
    written_all_cong rest (written address value r) (written address value r') b n (rw h refl)

module _ {C : Type 0} (spi : Spi C) (selected : C → ℕ) (register : C → ℕ → ℕ → ℕ) (memory : C → Mem)
    (chip : IsChip spi selected register memory) where
  -- Writing registers by the driver refines writing them one after the other in a register file of
  -- four banks: whatever the banks of the registers, each ends with what was written last, the memory
  -- and the other registers that the chip leaves alone are as before, and the driver's bank stays the
  -- chip's. The addresses are of registers in banks and the values bytes; the chip is as its data sheet
  -- says (`IsChip`), and the driver's bank is the chip's before.
  pub write_all_lem :
      (ws : List (ℕ × ℕ)) (d : Driver C)
      → are_writes ws ≡ true
      → IsSynced spi selected register memory chip d
      → Becomes spi selected register memory chip
          (written_all ws (register d.chip))
          d
          (write_all spi ws d)
  unfolding write_all written_all are_writes
  write_all_lem [] d ok synced = record {
    synced = synced;
    registers = λ b n h. refl;
    memories = λ i. refl;
    pointer = refl;
  }
  write_all_lem ((address, value) ∷ rest) d ok synced =
      let first =
        enc28j60_write_lem spi selected register memory chip address value d (ground arith)
          (ground arith) (ground arith) synced in
      let later = write_all_lem rest _ (ground arith) first.synced in
      record {
        synced = later.synced;
        registers =
            λ b n h. later.registers b n h ∙ written_all_cong rest _ _ b n (first.registers b n h);
        memories = λ i. later.memories i ∙ first.memories i;
        pointer = later.pointer ∙ first.pointer;
      }
