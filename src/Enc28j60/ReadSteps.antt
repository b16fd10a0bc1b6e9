-- ===== src/Enc28j60/ReadSteps.antt =====
-- The steps of `enc28j60_packet_receive` of src/enc28j60.c against the memory of the chip.
use Prim.Native.Nat.{bit_and}
use avr_net_enc28j.Base.{
  ℕ, ◌+◌, ◌-◌, ◌*◌, ◌/◌, ◌%◌, ◌<◌, ◌≡◌, refl, sym, ap, ◌∙◌, inl, inr, List, [], ◌∷◌, arith, Mem,
  IsBytes, ◌==◌, Bool-cases,
}
use avr_net_enc28j.Util.{low, high, low_put, high_put}
use avr_net_enc28j.Enc28j60.{
  Spi, Driver, enc28j60_read_op, enc28j60_read, enc28j60_set_bank, enc28j60_write,
  enc28j60_write_op, write_pair, read_short, free_packet,
}
use avr_net_enc28j.Enc28j60.Registers.{erdptl, erdpth, erxrdptl, erxrdpth, epktcnt}
use avr_net_enc28j.Enc28j60.Flags.{read_buf_mem}
use avr_net_enc28j.Enc28j60.Chip.{IsChip, command}
use avr_net_enc28j.Enc28j60.Codes.{write_code}
use avr_net_enc28j.Enc28j60.Bank.{IsSynced, Becomes, enc28j60_set_bank_lem}
use avr_net_enc28j.Enc28j60.Init.{write_all}
use avr_net_enc28j.Enc28j60.Writes.{written_all, are_writes, write_all_lem}
use avr_net_enc28j.Enc28j60.Packets.{pair}
use avr_net_enc28j.Enc28j60.Reads.{position, reading, IsReadable, At, At-byte, At-read}

module _ {C : Type 0} (spi : Spi C) (selected : C → ℕ) (register : C → ℕ → ℕ → ℕ) (memory : C → Mem)
    (pending : C → ℕ) (chip : IsChip spi selected register memory)
    (readable : IsReadable spi selected register memory pending) where
  abbrev pub Synced : Driver C → Type 0
  Synced d = IsSynced spi selected register memory chip d

  abbrev pub ReadTo : C → ℕ → C → Type 0
  ReadTo c0 k c = At spi selected register memory pending readable c0 k c

  -- The byte `k` behind the read pointer.
  abbrev pub byte_at : C → ℕ → ℕ
  byte_at c k =
      memory c (position (pair (register c) 0 8) (pair (register c) 0 10) (pair (register c) 0 0) k)

  read_op_lem :
      (c0 : C) (k : ℕ) (d : Driver C)
      → ReadTo c0 k d.chip
      → ((enc28j60_read_op spi read_buf_mem 0 d).0 ≡ byte_at c0 k)
        × ReadTo c0 (k + 1) (enc28j60_read_op spi read_buf_mem 0 d).1.chip
  unfolding enc28j60_read_op reading
  read_op_lem c0 k d at =
      let e : k + 0 ≡ k = omega arith in
      (
        readable.release_byte (reading spi 1 d.chip)
            ∙ rw e at (At-byte spi selected register memory pending readable c0 d.chip k at 0),
        At-read spi selected register memory pending readable c0 d.chip k at 1,
      )

  pub read_short_lem :
      (c0 : C) (k old : ℕ) (d : Driver C)
      → IsBytes (memory c0)
      → ReadTo c0 k d.chip
      → let r = read_short spi old d in
        (r.0 ≡ byte_at c0 k + byte_at c0 (k + 1) * 256)
        × ReadTo c0 (k + 2) r.1.chip
        × (r.1.enc28j60_bank ≡ d.enc28j60_bank)
        × (r.1.next_packet_ptr ≡ d.next_packet_ptr)
  unfolding read_short low_put high_put enc28j60_read_op
  read_short_lem c0 k old d bytes at =
      let (first, at1) = read_op_lem c0 k d at in
      let d1 = (enc28j60_read_op spi read_buf_mem 0 d).1 in
      let (second, at2) = read_op_lem c0 (k + 1) d1 at1 in
      let e : k + 1 + 1 ≡ k + 2 = omega arith in
      (
        omega (
          arith,
          first,
          second,
          bytes (
              position (pair (register c0) 0 8) (pair (register c0) 0 10) (pair (register c0) 0 0)
                k),
          bytes (
              position (pair (register c0) 0 8) (pair (register c0) 0 10) (pair (register c0) 0 0)
                (k + 1)),
        ),
        rw (← e) at2,
        refl,
        refl,
      )

  set_bank_pending :
      (address : ℕ) (d : Driver C) → pending (enc28j60_set_bank spi address d).chip ≡ pending d.chip
  unfolding enc28j60_set_bank enc28j60_write_op
  set_bank_pending address d = elim (Bool-cases (bit_and address 0x60 == d.enc28j60_bank)) [
    | inl e ↦ rw e refl
    | inr e ↦
        let bank = bit_and address 0x60 / 32 in
        rw e
          (readable.set_pending bank (command spi 0xBF 3 d.chip) ∙ readable.clear_pending 3 d.chip)
  ]

  write_pending :
      (address value : ℕ) (d : Driver C)
      → address < 256
      → address % 32 < 27
      → pending (enc28j60_write spi address value d).chip ≡ pending d.chip
  unfolding enc28j60_write enc28j60_write_op
  write_pending address value d small low = rw (write_code address small) (
      readable.write_pending (address % 32) value (enc28j60_set_bank spi address d).chip low
      ∙ set_bank_pending address d)

  -- What stays of the chip while the driver gets ready to read.
  pub record Ready (d d' : Driver C) : Type 0 where
    pub synced : Synced d'
    pub pointer : pair (register d'.chip) 0 0 ≡ d.next_packet_ptr
    pub start : pair (register d'.chip) 0 8 ≡ pair (register d.chip) 0 8
    pub end : pair (register d'.chip) 0 10 ≡ pair (register d.chip) 0 10
    pub memories : (i : ℕ) → memory d'.chip i ≡ memory d.chip i
    pub count : pending d'.chip ≡ pending d.chip
    pub next : d'.next_packet_ptr ≡ d.next_packet_ptr

  unfoldable pub counted : Driver C → Driver C
  counted d = (enc28j60_read spi epktcnt d).1

  pub counted_lem :
      (d : Driver C)
      → Synced d
      → ((enc28j60_read spi epktcnt d).0 ≡ pending d.chip)
        × Becomes spi selected register memory chip (register d.chip) d (counted d)
        × (pending (counted d).chip ≡ pending d.chip)
  unfolding counted enc28j60_read enc28j60_read_op
  counted_lem d synced =
      let (in_step, bank, same, next) =
        enc28j60_set_bank_lem spi selected register memory chip epktcnt d (omega arith) synced in
      let c = (enc28j60_set_bank spi epktcnt d).chip in
      let kept = set_bank_pending epktcnt d in
      (
        readable.count_byte c bank ∙ kept,
        record {
          synced = in_step ∙ ap (λ s. s * 32) (sym (readable.count_selected c));
          registers = λ b n h. readable.count_register c b n h ∙ same.registers b n h;
          memories = λ i. readable.count_memory c i ∙ same.memories i;
          pointer = next;
        },
        readable.count_pending c ∙ kept,
      )

  unfoldable pub ready : Driver C → Driver C
  ready d = write_pair spi erdptl erdpth (counted d).next_packet_ptr (counted d)

  pub ready_lem : (d : Driver C) → Synced d → d.next_packet_ptr < 8192 → Ready d (ready d)
  unfolding ready write_pair write_all written_all are_writes
  ready_lem d synced small =
      let (value, c, count) = counted_lem d synced in
      let p = (counted d).next_packet_ptr in
      let same : p ≡ d.next_packet_ptr = c.pointer in
      let ws : List (ℕ × ℕ) = (erdptl, low p) ∷ (erdpth, high p) ∷ [] in
      let set =
        write_all_lem spi selected register memory chip ws (counted d) (ground arith) c.synced in
      let r = set.registers in
      let low_at : register (ready d).chip 0 0 ≡ low p = r 0 0 refl in
      let high_at : register (ready d).chip 0 1 ≡ high p % 32 = r 0 1 refl in
      record {
        synced = set.synced;
        pointer = omega (arith, low_at, high_at, same);
        start = omega (arith, r 0 8 refl, r 0 9 refl, c.registers 0 8 refl, c.registers 0 9 refl);
        end = omega (arith, r 0 10 refl, r 0 11 refl, c.registers 0 10 refl, c.registers 0 11 refl);
        memories = λ i. set.memories i ∙ c.memories i;
        count =
            write_pending erdpth (high p) (enc28j60_write spi erdptl (low p) (counted d))
              (omega arith) (omega arith)
            ∙ write_pending erdptl (low p) (counted d) (omega arith) (omega arith)
            ∙ count;
        next = set.pointer ∙ c.pointer;
      }

  pub free_packet_lem :
      (d : Driver C)
      → Synced d
      → d.next_packet_ptr < 65536
      → let d' = free_packet spi d in
        Synced d'
        × (pair (register d'.chip) 0 12 ≡ d.next_packet_ptr % 8192)
        × (pending d'.chip ≡ pending d.chip - 1)
        × (d'.next_packet_ptr ≡ d.next_packet_ptr)
  unfolding free_packet enc28j60_write_op write_pair write_all written_all are_writes
  free_packet_lem d synced word =
      let p = d.next_packet_ptr in
      let ws : List (ℕ × ℕ) = (erxrdptl, low p) ∷ (erxrdpth, high p) ∷ [] in
      let set = write_all_lem spi selected register memory chip ws d (ground arith) synced in
      let c = (write_all spi ws d).chip in
      let low_at : register c 0 12 ≡ low p = set.registers 0 12 refl in
      let high_at : register c 0 13 ≡ high p % 32 = set.registers 0 13 refl in
      let kept =
        write_pending erxrdpth (high p) (enc28j60_write spi erxrdptl (low p) d) (omega arith)
          (omega arith)
        ∙ write_pending erxrdptl (low p) d (omega arith) (omega arith) in
      (
        set.synced ∙ ap (λ s. s * 32) (sym (readable.done_selected c)),
        omega (
          arith,
          low_at,
          high_at,
          readable.done_register c 12 (omega arith),
          readable.done_register c 13 (omega arith),
        ),
        readable.done_pending c ∙ ap (λ n. n - 1) kept,
        set.pointer,
      )
