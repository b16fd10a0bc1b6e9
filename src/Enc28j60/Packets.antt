-- ===== src/Enc28j60/Packets.antt =====
-- The start of the chip and the loading of a frame, `enc28j60_init` up to the PHY and the first half of
-- `enc28j60_packet_send` of src/enc28j60.c, on the chip's registers and memory.
use avr_net_enc28j.Base.{
  ℕ, ◌+◌, ◌-◌, ◌*◌, ◌%◌, ◌≤◌, ◌<◌, ◌≡◌, refl, sym, ◌∙◌, ap, List, [], ◌∷◌, arith, Mem, IsBytes,
  true,
}
use avr_net_enc28j.Util.{low, high, add16}
use avr_net_enc28j.Enc28j60.{
  Spi, Driver, load_packet, write_pair, enc28j60_write_op, send_bytes, txstart_init,
}
use avr_net_enc28j.Enc28j60.Registers.{ewrptl, ewrpth, etxndl, etxndh}
use avr_net_enc28j.Enc28j60.Init.{write_all, init_registers, first_writes}
use avr_net_enc28j.Enc28j60.Chip.{IsChip, command, write_burst}
use avr_net_enc28j.Enc28j60.Bank.{IsSynced}
use avr_net_enc28j.Enc28j60.Writes.{written_all, are_writes, write_all_lem}

-- The number in a pair of registers of a bank.
abbrev pub pair : (ℕ → ℕ → ℕ) → ℕ → ℕ → ℕ
pair r b n = r b n + r b (n + 1) * 256

-- The registers that are written before a frame is loaded: the write pointer and the frame's end.
abbrev load_writes : ℕ → ℕ → List (ℕ × ℕ)
load_writes start end =
    (ewrptl, low start) ∷ (ewrpth, high start) ∷ (etxndl, low end) ∷ (etxndh, high end) ∷ []

first_writes_lem :
    (net_buffer_size : ℕ) (mac : Mem)
    → IsBytes mac
    → are_writes (first_writes net_buffer_size mac) ≡ true
unfolding are_writes
first_writes_lem net_buffer_size mac bytes =
    ground (arith, bytes 0, bytes 1, bytes 2, bytes 3, bytes 4, bytes 5)

module _ {C : Type 0} (spi : Spi C) (selected : C → ℕ) (register : C → ℕ → ℕ → ℕ) (memory : C → Mem)
    (chip : IsChip spi selected register memory) where
  -- After the first part of the start, on a chip that is as its data sheet says (`IsChip`): with the
  -- transmit buffer of `net_buffer_size` bytes, from 1 to 8191, at the end of the memory, the receive
  -- buffer is all before it, the MAC filter has the address, the next packet is read from 0, and the
  -- driver's bank is the chip's. The address is of bytes, and the driver's bank was 0.
  pub init_registers_lem :
      (net_buffer_size : ℕ) (mac : Mem) (d : Driver C)
      → 0 < net_buffer_size
      → net_buffer_size < 8192
      → IsBytes mac
      → d.enc28j60_bank ≡ 0
      → let d' = init_registers spi net_buffer_size mac d in
        IsSynced spi selected register memory chip d'
        × (pair (register d'.chip) 0 0x08 ≡ 0)
        × (pair (register d'.chip) 0 0x0A ≡ 8191 - net_buffer_size)
        × (pair (register d'.chip) 0 0x04 ≡ 8192 - net_buffer_size)
        × (register d'.chip 3 0x04 ≡ mac 0)
        × (register d'.chip 3 0x05 ≡ mac 1)
        × (register d'.chip 3 0x02 ≡ mac 2)
        × (register d'.chip 3 0x03 ≡ mac 3)
        × (register d'.chip 3 0x00 ≡ mac 4)
        × (register d'.chip 3 0x01 ≡ mac 5)
        × (d'.next_packet_ptr ≡ 0)
  unfolding init_registers enc28j60_write_op are_writes written_all
  init_registers_lem net_buffer_size mac d some_size fits bytes start =
      let ready : Driver C = record {
        enc28j60_bank = d.enc28j60_bank;
        next_packet_ptr = 0;
        chip = command spi 0xFF 0xFF (spi.set_up d.chip);
      } in
      let ws = first_writes net_buffer_size mac in
      let set =
        write_all_lem spi selected register memory chip ws ready
          (first_writes_lem net_buffer_size mac bytes)
          (start ∙ sym (ap (λ s. s * 32) (chip.reset_selected (spi.set_up d.chip)))) in
      let r = set.registers in
      (
        set.synced,
        omega (arith, r 0 0x08 refl, r 0 0x09 refl),
        omega (arith, r 0 0x0A refl, r 0 0x0B refl),
        omega (arith, r 0 0x04 refl, r 0 0x05 refl),
        r 3 0x04 refl,
        r 3 0x05 refl,
        r 3 0x02 refl,
        r 3 0x03 refl,
        r 3 0x00 refl,
        r 3 0x01 refl,
        set.pointer,
      )

  -- The control byte and a frame in two bursts, from where the write pointer stands.
  record Loaded (buffer : Mem) (length start : ℕ) (c c' : C) : Type 0 where
    pub bank : selected c' ≡ selected c
    pub end : pair (register c') 0 0x06 ≡ pair (register c) 0 0x06
    pub control : memory c' start ≡ 0
    pub frame : (i : ℕ) → i < length → memory c' (start + 1 + i) ≡ buffer i
    pub before : (i : ℕ) → i < start → memory c' i ≡ memory c i

  bursts_lem :
      (buffer : Mem) (length : ℕ) (c : C) (start : ℕ)
      → IsBytes buffer
      → pair (register c) 0 2 ≡ start
      → start + 1 + length ≤ 8192
      → start + 1 < 8192
      → Loaded buffer length start c (write_burst spi buffer length (write_burst spi (λ _. 0) 1 c))
  bursts_lem buffer length c start bytes at fits some_room =
      let first = write_burst spi (λ _. 0) 1 c in
      let next : pair (register first) 0 2 ≡ start + 1 =
        omega (arith, chip.burst_pointer (λ _. 0) 1 c (omega arith)) in
      let later = λ (i : ℕ). chip.burst_memory buffer length first i bytes (omega arith) in
      let earlier = λ (i : ℕ). chip.burst_memory (λ _. 0) 1 c i (λ j. omega arith) (omega arith) in
      record {
        bank = chip.burst_selected buffer length first ∙ chip.burst_selected (λ _. 0) 1 c;
        end = omega (
          arith,
          chip.burst_register buffer length first 6 (omega arith) (omega arith),
          chip.burst_register buffer length first 7 (omega arith) (omega arith),
          chip.burst_register (λ _. 0) 1 c 6 (omega arith) (omega arith),
          chip.burst_register (λ _. 0) 1 c 7 (omega arith) (omega arith),
        );
        control = ground (arith, later start, earlier start);
        frame = λ i h.
            let here : start + 1 + i - pair (register first) 0 2 ≡ i = omega (arith, next) in
            ground (arith, later (start + 1 + i), next, ap buffer here);
        before = λ i h. ground (arith, later i, earlier i);
      }

  -- Before the chip is told to send, its memory holds the control byte 0 and behind it the frame, at
  -- the start of the transmit buffer, the receive buffer before it is untouched, the end of the frame
  -- is in its registers, and the driver's bank is the chip's. The frame, of bytes, is shorter than the
  -- transmit buffer, which has from 2 to 8192 bytes; the chip is as its data sheet says (`IsChip`), and
  -- the driver's bank is the chip's before.
  pub load_packet_lem :
      (net_buffer_size : ℕ) (buffer : Mem) (length : ℕ) (d : Driver C)
      → 1 < net_buffer_size
      → net_buffer_size ≤ 8192
      → length < net_buffer_size
      → IsBytes buffer
      → IsSynced spi selected register memory chip d
      → let d' = load_packet spi net_buffer_size buffer length d in
        let start = 8192 - net_buffer_size in
        IsSynced spi selected register memory chip d'
        × (pair (register d'.chip) 0 0x06 ≡ start + length)
        × (memory d'.chip start ≡ 0)
        × ((i : ℕ) → i < length → memory d'.chip (start + 1 + i) ≡ buffer i)
        × ((i : ℕ) → i < start → memory d'.chip i ≡ memory d.chip i)
  unfolding load_packet write_pair enc28j60_write_op are_writes written_all write_all send_bytes
  load_packet_lem net_buffer_size buffer length d some_size fits small bytes synced =
      let start = txstart_init net_buffer_size in
      let ws = load_writes start (add16 start length) in
      let set = write_all_lem spi selected register memory chip ws d (ground arith) synced in
      let c = (write_all spi ws d).chip in
      let r = set.registers in
      let low_to : register c 0 2 ≡ low start = r 0 2 refl in
      let high_to : register c 0 3 ≡ high start % 32 = r 0 3 refl in
      let low_at : register c 0 6 ≡ low (add16 start length) = r 0 6 refl in
      let high_at : register c 0 7 ≡ high (add16 start length) % 32 = r 0 7 refl in
      let at : pair (register c) 0 2 ≡ 8192 - net_buffer_size = omega (arith, low_to, high_to) in
      let done =
        bursts_lem buffer length c (8192 - net_buffer_size) bytes at (omega arith) (omega arith) in
      (
        set.synced ∙ sym (ap (λ s. s * 32) done.bank),
        omega (arith, done.end, low_at, high_at),
        done.control,
        done.frame,
        λ i h. done.before i h ∙ set.memories i,
      )
