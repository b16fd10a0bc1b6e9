-- ===== src/Enc28j60/Chip.antt =====
-- What the driver of src/enc28j60.c relies on of the chip, as its data sheet describes it: four banks
-- of registers, of which one is selected by two bits of ECON1, and a memory that is written through a
-- pointer register. Only registers that the chip itself leaves alone are looked at.
use avr_net_enc28j.Base.{
  ℕ, ◌+◌, ◌*◌, ◌-◌, ◌%◌, ◌<◌, ◌≡◌, Bool, true, ◌&&◌, ◌||◌, Mem, IsBytes, ltb, leb, ◌==◌, ◌≤◌,
  if◌then◌else◌,
}
use avr_net_enc28j.Enc28j60.{Spi, send_bytes}

-- The registers that keep what is written: the pointers of bank 0, the filter of bank 1, MACON3 and
-- MAMXFL of bank 2 and the MAC address of bank 3.
abbrev pub holds : ℕ → ℕ → Bool
holds b n =
    b == 0 && ltb n 14
    || b == 1 && ltb n 0x19
    || b == 2 && (n == 2 || n == 10 || n == 11)
    || b == 3 && ltb n 6

-- What is kept of a byte: the pointers have 13 bits.
abbrev pub kept_byte : ℕ → ℕ → ℕ → ℕ
kept_byte b n v = if b == 0 && n % 2 == 1 then v % 32 else v

module _ {C : Type 0} (spi : Spi C) where
  -- A command of two bytes between the edges of the chip select pin.
  abbrev pub command : ℕ → ℕ → C → C
  command code value c = spi.release (spi.exchange value (spi.exchange code (spi.activate c)))

  -- The command that writes bytes into the memory, for as long as the pin is active.
  abbrev pub write_burst : Mem → ℕ → C → C
  write_burst b n c = spi.release (send_bytes spi b n 0 (spi.exchange 0x7A (spi.activate c)))

  -- `selected` is the bank, `register b n` register `n` of bank `b`, and `memory` the memory.
  pub record IsChip (selected : C → ℕ) (register : C → ℕ → ℕ → ℕ) (memory : C → Mem) : Type 0 where
    pub write_selected : (a v : ℕ) (c : C) → a < 27 → selected (command (0x40 + a) v c) ≡ selected c
    pub write_register :
        (a v : ℕ) (c : C) (b n : ℕ)
        → a < 27
        → v < 256
        → holds b n ≡ true
        → register (command (0x40 + a) v c) b n
          ≡ (if b == selected c && n == a then kept_byte b n v else register c b n)
    pub write_memory :
        (a v : ℕ) (c : C) (i : ℕ) → a < 27 → memory (command (0x40 + a) v c) i ≡ memory c i
    -- A reset selects bank 0.
    pub reset_selected : (c : C) → selected (command 0xFF 0xFF c) ≡ 0
    pub clear_selected : (c : C) → selected (command 0xBF 3 c) ≡ 0
    pub clear_register :
        (v : ℕ) (c : C) (b n : ℕ)
        → holds b n ≡ true
        → register (command 0xBF v c) b n ≡ register c b n
    pub clear_memory : (v : ℕ) (c : C) (i : ℕ) → memory (command 0xBF v c) i ≡ memory c i
    pub set_selected : (v : ℕ) (c : C) → selected c ≡ 0 → v < 4 → selected (command 0x9F v c) ≡ v
    pub set_register :
        (v : ℕ) (c : C) (b n : ℕ)
        → holds b n ≡ true
        → register (command 0x9F v c) b n ≡ register c b n
    pub set_memory : (v : ℕ) (c : C) (i : ℕ) → memory (command 0x9F v c) i ≡ memory c i
    -- The pointer of writes is in registers 2 and 3 of bank 0; a burst moves no other register.
    pub burst_selected : (b : Mem) (n : ℕ) (c : C) → selected (write_burst b n c) ≡ selected c
    pub burst_memory :
        (b : Mem) (n : ℕ) (c : C) (i : ℕ)
        → let at = register c 0 2 + register c 0 3 * 256 in
          IsBytes b
          → at + n ≤ 8192
          → memory (write_burst b n c) i
            ≡ (if leb at i && ltb i (at + n) then b (i - at) else memory c i)
    pub burst_pointer :
        (b : Mem) (n : ℕ) (c : C)
        → let c' = write_burst b n c in
          register c 0 2 + register c 0 3 * 256 + n < 8192
          → register c' 0 2 + register c' 0 3 * 256 ≡ register c 0 2 + register c 0 3 * 256 + n
    pub burst_register :
        (b : Mem) (n : ℕ) (c : C) (k : ℕ)
        → 4 ≤ k
        → k < 14
        → register (write_burst b n c) 0 k ≡ register c 0 k
