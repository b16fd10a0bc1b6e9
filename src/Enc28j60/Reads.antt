-- ===== src/Enc28j60/Reads.antt =====
-- What the driver of src/enc28j60.c relies on of the chip when it reads, as the data sheet describes
-- it: a memory that is read from a pointer register on, around the end of the receive buffer, and a
-- count of the packets in it.
use avr_net_enc28j.Base.{
  ℕ, zero, suc, ◌+◌, ◌-◌, ◌%◌, ◌≤◌, ◌<◌, ◌≡◌, refl, ap, ◌∙◌, true, arith, Mem, put, put_self,
  put_ne, ◌==◌, if◌then◌else◌,
}
use avr_net_enc28j.Enc28j60.{Spi, receive_bytes}
use avr_net_enc28j.Enc28j60.Chip.{command, holds}
use avr_net_enc28j.Enc28j60.Packets.{pair}

-- The position `n` bytes behind `p` in a receive buffer from `start` to `end`.
unfoldable pub position : ℕ → ℕ → ℕ → ℕ → ℕ
position start end p zero = p
position start end p (suc n) =
    let q = position start end p n in if q == end then start else (q + 1) % 8192

pub position_add :
    (start end p k n : ℕ)
    → position start end (position start end p k) n ≡ position start end p (k + n)
unfolding position
position_add start end p k zero = let e : k + zero ≡ k = omega arith in rw e refl
position_add start end p k (suc n) =
    let e : k + suc n ≡ suc (k + n) = omega arith in rw (e, position_add start end p k n) refl

module _ {C : Type 0} (spi : Spi C) where
  -- `n` bytes into a read of the memory, with the chip select pin active.
  unfoldable pub reading : ℕ → C → C
  reading zero c = spi.exchange 0x3A (spi.activate c)
  reading (suc n) c = spi.exchange 0x00 (reading n c)

  abbrev pub read_of : ℕ → C → C
  read_of n c = spi.release (reading n c)

  -- The command that reads EPKTCNT in bank 1.
  abbrev pub counting : C → C
  counting c = spi.release (spi.exchange 0x00 (spi.exchange 0x19 (spi.activate c)))

  -- `pending` is the number of packets received.
  pub record IsReadable (selected : C → ℕ) (register : C → ℕ → ℕ → ℕ) (memory : C → Mem)
      (pending : C → ℕ) : Type 0 where
    pub release_byte : (c : C) → spi.spdr (spi.release c) ≡ spi.spdr c
    -- The pointer of reads is in registers 0 and 1 of bank 0, the receive buffer's ends in 8 to 11.
    pub read_byte :
        (n : ℕ) (c : C)
        → spi.spdr (reading (suc n) c)
          ≡ memory c
              (position (pair (register c) 0 8) (pair (register c) 0 10) (pair (register c) 0 0) n)
    pub read_pointer :
        (n : ℕ) (c : C)
        → pair (register (read_of n c)) 0 0
          ≡ position (pair (register c) 0 8) (pair (register c) 0 10) (pair (register c) 0 0) n
    pub read_register :
        (n : ℕ) (c : C) (k : ℕ) → 2 ≤ k → k < 14 → register (read_of n c) 0 k ≡ register c 0 k
    pub read_memory : (n : ℕ) (c : C) (i : ℕ) → memory (read_of n c) i ≡ memory c i
    pub read_selected : (n : ℕ) (c : C) → selected (read_of n c) ≡ selected c
    pub read_pending : (n : ℕ) (c : C) → pending (read_of n c) ≡ pending c
    pub count_byte : (c : C) → selected c ≡ 1 → spi.spdr (counting c) ≡ pending c
    pub count_register :
        (c : C) (b n : ℕ) → holds b n ≡ true → register (counting c) b n ≡ register c b n
    pub count_memory : (c : C) (i : ℕ) → memory (counting c) i ≡ memory c i
    pub count_selected : (c : C) → selected (counting c) ≡ selected c
    pub count_pending : (c : C) → pending (counting c) ≡ pending c
    -- A write of PKTDEC in ECON2 takes a packet from the count; other commands leave it.
    pub done_pending : (c : C) → pending (command spi 0x9E 0x40 c) ≡ pending c - 1
    pub done_register :
        (c : C) (k : ℕ) → k < 14 → register (command spi 0x9E 0x40 c) 0 k ≡ register c 0 k
    pub done_selected : (c : C) → selected (command spi 0x9E 0x40 c) ≡ selected c
    pub write_pending :
        (a v : ℕ) (c : C) → a < 27 → pending (command spi (0x40 + a) v c) ≡ pending c
    pub clear_pending : (v : ℕ) (c : C) → pending (command spi 0xBF v c) ≡ pending c
    pub set_pending : (v : ℕ) (c : C) → pending (command spi 0x9F v c) ≡ pending c

  module _ (selected : C → ℕ) (register : C → ℕ → ℕ → ℕ) (memory : C → Mem) (pending : C → ℕ)
      (readable : IsReadable selected register memory pending) where
    -- `c` is `c0` with `k` bytes read.
    pub record At (c0 : C) (k : ℕ) (c : C) : Type 0 where
      pub pointer :
          pair (register c) 0 0
          ≡ position (pair (register c0) 0 8) (pair (register c0) 0 10) (pair (register c0) 0 0) k
      pub registers : (j : ℕ) → 2 ≤ j → j < 14 → register c 0 j ≡ register c0 0 j
      pub memories : (i : ℕ) → memory c i ≡ memory c0 i
      pub bank : selected c ≡ selected c0
      pub count : pending c ≡ pending c0

    pub At-start : (c : C) → At c 0 c
    unfolding position
    At-start c = record {
      pointer = refl;
      registers = λ j lo hi. refl;
      memories = λ i. refl;
      bank = refl;
      count = refl;
    }

    module _ (c0 c : C) (k : ℕ) (at : At c0 k c) where
      -- The byte `k` behind the pointer of `c0`.
      abbrev start_of : ℕ
      start_of = pair (register c0) 0 8

      abbrev end_of : ℕ
      end_of = pair (register c0) 0 10

      here :
          (n : ℕ)
          → position (pair (register c) 0 8) (pair (register c) 0 10) (pair (register c) 0 0) n
            ≡ position start_of end_of (pair (register c0) 0 0) (k + n)
      here n =
          let s : pair (register c) 0 8 ≡ start_of = omega (
            arith,
            at.registers 8 (omega arith) (omega arith),
            at.registers 9 (omega arith) (omega arith),
          ) in
          let e : pair (register c) 0 10 ≡ end_of = omega (
            arith,
            at.registers 10 (omega arith) (omega arith),
            at.registers 11 (omega arith) (omega arith),
          ) in
          rw (s, e, at.pointer) (position_add start_of end_of (pair (register c0) 0 0) k n)

      pub At-byte :
          (n : ℕ)
          → spi.spdr (reading (suc n) c)
            ≡ memory c0 (position start_of end_of (pair (register c0) 0 0) (k + n))
      At-byte n = readable.read_byte n c ∙ ap (memory c) (here n) ∙ at.memories _

      pub At-read : (n : ℕ) → At c0 (k + n) (read_of n c)
      At-read n = record {
        pointer = readable.read_pointer n c ∙ here n;
        registers = λ j lo hi. readable.read_register n c j lo hi ∙ at.registers j lo hi;
        memories = λ i. readable.read_memory n c i ∙ at.memories i;
        bank = readable.read_selected n c ∙ at.bank;
        count = readable.read_pending n c ∙ at.count;
      }

  -- The loop that receives, in the middle of a read.
  pub receive_bytes_lem :
      (left i j : ℕ) (b : Mem) (c : C)
      → ((receive_bytes spi left i b (reading j c)).1 ≡ reading (j + left) c)
        × ((m : ℕ)
            → m < left
            → (receive_bytes spi left i b (reading j c)).0 (i + m)
              ≡ spi.spdr (reading (suc (j + m)) c) % 256)
        × ((m : ℕ) → m < i → (receive_bytes spi left i b (reading j c)).0 m ≡ b m)
  unfolding receive_bytes reading
  receive_bytes_lem zero i j b c =
      let e : j + zero ≡ j = omega arith in (rw e refl, λ m lt. absurd (omega arith), λ m lt. refl)
  receive_bytes_lem (suc left) i j b c =
      let byte = spi.spdr (reading (suc j) c) in
      let (ends, later, earlier) = receive_bytes_lem left (i + 1) (suc j) (put b i byte) c in
      let whole : suc j + left ≡ j + suc left = omega arith in
      let got = (receive_bytes spi left (i + 1) (put b i byte) (reading (suc j) c)).0 in
      (
        rw (← whole) ends,
        λ m.
            elim m as (λ m. m < suc left → got (i + m) ≡ spi.spdr (reading (suc (j + m)) c) % 256) [
              | zero ↦ λ lt.
                  let a : i + zero ≡ i = omega arith in
                  let a' : j + zero ≡ j = omega arith in
                  rw (a, a') (earlier i (omega arith) ∙ put_self b i byte)
              | suc m ↦ λ lt.
                  let a : i + suc m ≡ i + 1 + m = omega arith in
                  let a' : j + suc m ≡ suc j + m = omega arith in rw (a, a') (later m (omega arith))
            ],
        λ m lt. earlier m (omega arith) ∙ put_ne b i byte m (λ e. absurd (omega arith)),
      )
