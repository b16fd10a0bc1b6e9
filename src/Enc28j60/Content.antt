-- ===== src/Enc28j60/Content.antt =====
-- `enc28j60_packet_receive` of src/enc28j60.c against the memory of the chip.
use Prim.Native.Nat.{bit_and}
use avr_net_enc28j.Base.{
  ℕ, ◌+◌, ◌-◌, ◌*◌, ◌%◌, ◌<◌, ◌≡◌, ◌≢◌, sym, ap, ◌∙◌, false, arith, Mem, IsBytes, ◌==◌,
}
use avr_net_enc28j.Net.{Received}
use avr_net_enc28j.Enc28j60.{
  Spi, Driver, enc28j60_read, receive_bytes, read_short, take_packet, kept_length,
  enc28j60_packet_receive,
}
use avr_net_enc28j.Enc28j60.Registers.{epktcnt}
use avr_net_enc28j.Enc28j60.Chip.{IsChip}
use avr_net_enc28j.Enc28j60.Packets.{pair}
use avr_net_enc28j.Enc28j60.Reads.{
  position, reading, IsReadable, At-start, At-byte, At-read, receive_bytes_lem,
}
use avr_net_enc28j.Enc28j60.ReadSteps.{
  Synced, ReadTo, byte_at, read_short_lem, counted, counted_lem, ready, ready_lem, free_packet_lem,
}

module _ {C : Type 0} (spi : Spi C) (selected : C → ℕ) (register : C → ℕ → ℕ → ℕ) (memory : C → Mem)
    (pending : C → ℕ) (chip : IsChip spi selected register memory)
    (readable : IsReadable spi selected register memory pending) where
  -- What `enc28j60_packet_receive` hands over, and leaves behind, of a packet whose bytes, its head
  -- included, are `at`.
  pub record IsHandedOver (at : ℕ → ℕ) (max_length : ℕ) (d : Driver C) (r : Received (Driver C))
      : Type 0 where
    pub length : r.length ≡ kept_length max_length (at 2 + at 3 * 256)
    pub frame : (i : ℕ) → i < r.length → r.buffer i ≡ at (6 + i)
    pub next_packet : r.nic.next_packet_ptr ≡ at 0 + at 1 * 256
    pub freed : pair (register r.nic.chip) 0 12 ≡ (at 0 + at 1 * 256) % 8192
    pub taken : pending r.nic.chip ≡ pending d.chip - 1
    pub in_step : Synced spi selected register memory pending chip readable r.nic

  take_packet_handed :
      (at : ℕ → ℕ) (max_length : ℕ) (b : Mem) (d0 d : Driver C) (length status : ℕ) (c0 : C)
      → IsBytes (memory c0)
      → ((i : ℕ)
          → at (6 + i) ≡ byte_at spi selected register memory pending chip readable c0 (6 + i))
      → ReadTo spi selected register memory pending chip readable c0 6 d.chip
      → Synced spi selected register memory pending chip readable d
      → pending c0 ≡ pending d0.chip
      → d.next_packet_ptr ≡ at 0 + at 1 * 256
      → d.next_packet_ptr < 65536
      → length ≡ kept_length max_length (at 2 + at 3 * 256)
      → bit_and status 0x80 ≢ 0
      → IsHandedOver at max_length d0 (take_packet spi b length status d)
  unfolding take_packet reading
  take_packet_handed at max_length b d0 d length status c0 bytes same reads synced count next word
        size ok =
      let t : (bit_and status 0x80 == 0) ≡ false = ground arith in
      let (ends, got, before) = receive_bytes_lem spi length 0 0 b d.chip in
      let burst = At-read spi selected register memory pending readable c0 d.chip 6 reads length in
      let d' : Driver C = record d { chip = spi.release (reading spi length d.chip) } in
      let (in_step, freed, taken, kept) =
        free_packet_lem spi selected register memory pending chip readable d'
          (synced ∙ ap (λ s. s * 32) (sym (readable.read_selected length d.chip))) word in
      let z : 0 + length ≡ length = omega arith in
      let last : (receive_bytes spi length 0 b (spi.exchange 0x3A (spi.activate d.chip))).1
          ≡ reading spi length d.chip =
        rw z at ends in
      rw (t, last)
        (record {
          length = size;
          frame = λ i lt.
              let zi : 0 + i ≡ i = omega arith in
              let stored = rw zi at (got i lt) in
              let byte =
                At-byte spi selected register memory pending readable c0 d.chip 6 reads i in
              let small = bytes (
                position (pair (register c0) 0 8) (pair (register c0) 0 10) (pair (register c0) 0 0)
                  (6 + i)) in
              stored ∙ omega (arith, byte, small) ∙ sym (same i);
          next_packet = kept ∙ next;
          freed = freed ∙ ap (λ p. p % 8192) next;
          taken =
              taken ∙ ap (λ n. n - 1) (readable.read_pending length d.chip ∙ reads.count ∙ count);
          in_step = in_step;
        })

  -- The byte `k` of the packet at the driver's packet pointer, its head included.
  abbrev pub packet_byte : Driver C → ℕ → ℕ
  packet_byte d k =
      memory d.chip
        (position (pair (register d.chip) 0 8) (pair (register d.chip) 0 10) d.next_packet_ptr k)

  -- `enc28j60_packet_receive` hands over the frame that stands in the chip's memory at the driver's
  -- packet pointer, where a packet is pending and its status says that it is whole: behind the six
  -- bytes of its head, around the end of the receive buffer, and of the length that the head says
  -- without the CRC, cut off to fit. The packet pointer becomes that of the next packet, which the head
  -- names, the memory before it is given back to the chip, and one packet less is pending. The chip is
  -- as its data sheet says (`IsChip`, `IsReadable`), its memory is of bytes, the pointer is an address
  -- of it, and the driver's bank is the chip's, as it is again afterwards.
  pub enc28j60_packet_receive_lem :
      (b : Mem) (max_length : ℕ) (d : Driver C)
      → Synced spi selected register memory pending chip readable d
      → d.next_packet_ptr < 8192
      → IsBytes (memory d.chip)
      → pending d.chip ≢ 0
      → bit_and (packet_byte d 4 + packet_byte d 5 * 256) 0x80 ≢ 0
      → IsHandedOver (packet_byte d) max_length d (enc28j60_packet_receive spi b max_length d)
  unfolding enc28j60_packet_receive ready counted
  enc28j60_packet_receive_lem b max_length d synced small bytes some_packet ok =
      let at = packet_byte d in
      let (value, c, count) =
        counted_lem spi selected register memory pending chip readable d synced in
      let t : ((enc28j60_read spi epktcnt d).0 == 0) ≡ false = ground (arith, value) in
      let r = ready_lem spi selected register memory pending chip readable d synced small in
      let d1 = ready spi selected register memory pending chip readable d in
      let bytes1 : IsBytes (memory d1.chip) = λ i. rw (r.memories i) (bytes i) in
      let same : (k : ℕ)
          → byte_at spi selected register memory pending chip readable d1.chip k ≡ at k =
        λ k. rw (r.start, r.end, r.pointer) (r.memories _) in
      let s0 = At-start spi selected register memory pending readable d1.chip in
      let (next, at2, bank2, p2) =
        read_short_lem spi selected register memory pending chip readable d1.chip 0
          d1.next_packet_ptr d1 bytes1 s0 in
      let first = read_short spi d1.next_packet_ptr d1 in
      let d2 : Driver C = record (first.1) { next_packet_ptr = first.0 } in
      let (field, at4, bank4, p4) =
        read_short_lem spi selected register memory pending chip readable d1.chip 2 0 d2 bytes1
          at2 in
      let d4 = (read_short spi 0 d2).1 in
      let (status, at6, bank6, p6) =
        read_short_lem spi selected register memory pending chip readable d1.chip 4 0 d4 bytes1
          at4 in
      let short = λ (k : ℕ).
        let low_byte = same k in
        let high_byte = same (k + 1) in
        let e : byte_at spi selected register memory pending chip readable d1.chip k
              + byte_at spi selected register memory pending chip readable d1.chip (k + 1) * 256
            ≡ at k + at (k + 1) * 256 =
          omega (arith, low_byte, high_byte) in
        e in
      let pointer : first.0 ≡ at 0 + at 1 * 256 = next ∙ short 0 in
      let low_byte : at 0 < 256 = bytes _ in
      let high_byte : at 1 < 256 = bytes _ in
      let left = p6 ∙ p4 ∙ pointer in
      let flags = status ∙ short 4 in
      rw t (
        take_packet_handed at max_length b d (read_short spi 0 d4).1 _ _ d1.chip bytes1
          (λ i. sym (same (6 + i))) at6
          (bank6 ∙ bank4 ∙ bank2 ∙ r.synced ∙ ap (λ s. s * 32) (sym at6.bank)) r.count left
          (omega (arith, left, low_byte, high_byte)) (ap (kept_length max_length) (field ∙ short 2))
          (λ e. ok (rw flags at e)))
