-- ===== src/Enc28j60.antt =====
-- The driver of the Ethernet chip, src/enc28j60.c: register access by SPI, and the packets.
pub mod Registers
pub mod Flags
pub mod Receive
pub mod Init
pub mod Codes
pub mod Chip
pub mod Bank
pub mod Writes
pub mod Packets
pub mod Link
pub mod Reads
pub mod ReadSteps
pub mod Content
use Prim.Native.Nat.{bit_and, bit_or}
use avr_net_enc28j.Base.{
  ℕ, zero, suc, ◌+◌, ◌-◌, ◌*◌, ◌/◌, ◌%◌, Bool, not, ltb, ◌==◌, if◌then◌else◌, Mem, put, offset,
}
use avr_net_enc28j.Util.{sub16, add16, low, high, low_put, high_put}
use avr_net_enc28j.Net.{Received}
use avr_net_enc28j.Enc28j60.Registers.*
use avr_net_enc28j.Enc28j60.Flags.*

-- The chip as the driver sees it, over the SPI and the chip select pin. `C` is the chip's state.
pub record Spi (C : Type 0) : Type 0 where
  -- `CSACTIVE` and `CSPASSIVE`.
  pub activate : C → C
  pub release : C → C
  -- `SPDR = byte; waitspi()`.
  pub exchange : ℕ → C → C
  -- The byte that a read of `SPDR` gives.
  pub spdr : C → ℕ
  -- The pins, the hardware reset and the settings of the SPI, by the macros of the board.
  pub set_up : C → C

-- The driver's globals, and the chip.
pub record Driver (C : Type 0) : Type 0 where
  pub enc28j60_bank : ℕ
  pub next_packet_ptr : ℕ
  pub chip : C

-- `TXSTART_INIT` and `RXSTOP_INIT`, for a size of the packet buffer.
abbrev pub rxstart_init : ℕ
rxstart_init = 0x0000

abbrev pub txstart_init : ℕ → ℕ
txstart_init net_buffer_size = sub16 8192 net_buffer_size

abbrev pub rxstop_init : ℕ → ℕ
rxstop_init net_buffer_size = sub16 (txstart_init net_buffer_size) 1

abbrev pub txstop_init : ℕ
txstop_init = 8192

-- The length that is handed over, of the packet's length field: without the CRC, and cut off.
unfoldable pub kept_length : ℕ → ℕ → ℕ
kept_length max_length field =
    let length = sub16 field 4 in
    if ltb (sub16 max_length 1) length then sub16 max_length 1 else length

module _ {C : Type 0} (spi : Spi C) where
  open spi use {activate, release, exchange, spdr}

  -- `enc28j60ReadOp`.
  unfoldable pub enc28j60_read_op : ℕ → ℕ → Driver C → ℕ × Driver C
  enc28j60_read_op op address d =
      let c = exchange (bit_or op (bit_and address addr_mask)) (activate d.chip) in
      let c = exchange 0x00 c in
      let c = if not (bit_and address 0x80 == 0) then exchange 0x00 c else c in
      let c = release c in (spdr c, record d { chip = c })

  -- `enc28j60WriteOp`.
  unfoldable pub enc28j60_write_op : ℕ → ℕ → ℕ → Driver C → Driver C
  enc28j60_write_op op address value d = record d {
    chip =
        release
          (exchange value (exchange (bit_or op (bit_and address addr_mask)) (activate d.chip)));
  }

  -- `enc28j60SetBank`.
  unfoldable pub enc28j60_set_bank : ℕ → Driver C → Driver C
  enc28j60_set_bank address d =
      if not (bit_and address bank_mask == d.enc28j60_bank)
      then record (enc28j60_write_op bit_field_set econ1 (bit_and address bank_mask / 32)
          (enc28j60_write_op bit_field_clr econ1 (bit_or econ1_bsel1 econ1_bsel0) d)) {
            enc28j60_bank = bit_and address bank_mask;
          }
      else d

  -- `enc28j60Read` and `enc28j60Write`.
  unfoldable pub enc28j60_read : ℕ → Driver C → ℕ × Driver C
  enc28j60_read address d = enc28j60_read_op read_ctrl_reg address (enc28j60_set_bank address d)

  unfoldable pub enc28j60_write : ℕ → ℕ → Driver C → Driver C
  enc28j60_write address value d =
      enc28j60_write_op write_ctrl_reg address value (enc28j60_set_bank address d)

  unfoldable pub enc28j60_getrev : Driver C → ℕ × Driver C
  enc28j60_getrev d = enc28j60_read erevid d

  -- A register pair for a 16-bit number, low byte first.
  unfoldable pub write_pair : ℕ → ℕ → ℕ → Driver C → Driver C
  write_pair low_address high_address value d =
      enc28j60_write high_address (high value) (enc28j60_write low_address (low value) d)

  -- The loop of `enc28j60_packet_send` over the bytes from `i` on, `left` of them.
  unfoldable pub send_bytes : Mem → ℕ → ℕ → C → C
  send_bytes buffer zero i c = c
  send_bytes buffer (suc left) i c = send_bytes buffer left (i + 1) (exchange (buffer i) c)

  -- What `enc28j60_packet_send` does before the chip is told to send.
  unfoldable pub load_packet : ℕ → Mem → ℕ → Driver C → Driver C
  load_packet net_buffer_size buffer length d =
      let d = write_pair ewrptl ewrpth (txstart_init net_buffer_size) d in
      let d = write_pair etxndl etxndh (add16 (txstart_init net_buffer_size) length) d in
      let d = enc28j60_write_op write_buf_mem 0 0x00 d in
      record d {
        chip = release (send_bytes buffer length 0 (exchange write_buf_mem (activate d.chip)));
      }

  unfoldable pub enc28j60_packet_send : ℕ → Mem → ℕ → Driver C → Driver C
  enc28j60_packet_send net_buffer_size buffer length d =
      let d = load_packet net_buffer_size buffer length d in
      let d = enc28j60_write_op bit_field_set econ1 econ1_txrts d in
      let (flags, d) = enc28j60_read eir d in
      if not (bit_and flags eir_txerif == 0)
      then enc28j60_write_op bit_field_clr econ1 econ1_txrts d
      else d

  -- The loop of `enc28j60_packet_receive` over the bytes of the packet.
  unfoldable pub receive_bytes : ℕ → ℕ → Mem → C → Mem × C
  receive_bytes zero i buffer c = (buffer, c)
  receive_bytes (suc left) i buffer c =
      let c = exchange 0x00 c in receive_bytes left (i + 1) (put buffer i (spdr c)) c

  -- Two bytes of the chip's memory into a variable with the value `old`.
  unfoldable pub read_short : ℕ → Driver C → ℕ × Driver C
  read_short old d =
      let (byte, d) = enc28j60_read_op read_buf_mem 0 d in
      let value = low_put old byte in
      let (byte, d) = enc28j60_read_op read_buf_mem 0 d in (high_put value byte, d)

  -- The end of `enc28j60_packet_receive`: the packet's memory is given back to the chip.
  unfoldable pub free_packet : Driver C → Driver C
  free_packet d =
      enc28j60_write_op bit_field_set econ2 econ2_pktdec
        (write_pair erxrdptl erxrdpth d.next_packet_ptr d)

  -- The part of `enc28j60_packet_receive` behind the packet's head.
  unfoldable pub take_packet : Mem → ℕ → ℕ → Driver C → Received (Driver C)
  take_packet buffer length status d =
      if bit_and status 0x80 == 0
      then record { length = 0; buffer = buffer; nic = free_packet d }
      else (let (buffer', c) =
            receive_bytes length 0 buffer (exchange read_buf_mem (activate d.chip)) in
          record {
            length = length;
            buffer = buffer';
            nic = free_packet (record d { chip = release c });
          })

  -- The variables `data_length` and `rx_status` are not set before their two bytes are put, so
  -- their old values do not matter; they are 0 here.
  unfoldable pub enc28j60_packet_receive : Mem → ℕ → Driver C → Received (Driver C)
  enc28j60_packet_receive buffer max_length d =
      let (count, d) = enc28j60_read epktcnt d in
      if count == 0
      then record { length = 0; buffer = buffer; nic = d }
      else (let d = write_pair erdptl erdpth d.next_packet_ptr d in
          let (next, d) = read_short d.next_packet_ptr d in
          let (field, d) = read_short 0 (record d { next_packet_ptr = next }) in
          let (status, d) = read_short 0 d in
          take_packet buffer (kept_length max_length field) status d)
