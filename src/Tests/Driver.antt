-- ===== src/Tests/Driver.antt =====
-- The theorems on the driver of src/enc28j60.c, on a simulated chip.
use avr_net_enc28j.Base.{
  ℕ, ◌+◌, ◌/◌, ◌%◌, ◌<◌, ◌≤◌, ◌≡◌, refl, true, ◌&&◌, arith, Mem, IsBytes, ◌==◌, if◌then◌else◌,
}
use avr_net_enc28j.Enc28j60.{Spi, Driver, load_packet, enc28j60_packet_receive}
use avr_net_enc28j.Enc28j60.Content.{IsHandedOver, packet_byte, enc28j60_packet_receive_lem}
use avr_net_enc28j.Enc28j60.Reads.{position}
use avr_net_enc28j.Enc28j60.Receive.{WrittenBelow, enc28j60_packet_receive_bounds}
use avr_net_enc28j.Enc28j60.Init.{init_registers, filter_writes, write_all}
use avr_net_enc28j.Enc28j60.Bank.{IsSynced, Becomes}
use avr_net_enc28j.Enc28j60.Writes.{are_writes, written_all, write_all_lem}
use avr_net_enc28j.Enc28j60.Packets.{pair, init_registers_lem, load_packet_lem}
use avr_net_enc28j.Tests.Chip.{Sim, register, spi, spi-IsChip, spi-IsReadable}
use avr_net_enc28j.Tests.Fixtures.{our_mac, our_mac-IsBytes, ping_frame, ping_frame-IsBytes}

abbrev driver : Driver Sim
driver = record {
  enc28j60_bank = 0;
  next_packet_ptr = 0;
  chip = record {
    bank = 0;
    registers = λ b n. 0;
    pointer = 0;
    memory = λ i. 0;
    fresh = true;
    code = 0;
    count = 0;
    out = 0;
  };
}

init_registers_lem_example :
    let d = init_registers spi 600 our_mac driver in
    IsSynced spi (λ c. c.bank) register (λ c. c.memory) spi-IsChip d
    × (pair (register d.chip) 0 0x08 ≡ 0)
    × (pair (register d.chip) 0 0x0A ≡ 7591)
    × (pair (register d.chip) 0 0x04 ≡ 7592)
    × (register d.chip 3 0x04 ≡ 2)
    × (register d.chip 3 0x05 ≡ 0)
    × (register d.chip 3 0x02 ≡ 0)
    × (register d.chip 3 0x03 ≡ 0)
    × (register d.chip 3 0x00 ≡ 0)
    × (register d.chip 3 0x01 ≡ 1)
    × (d.next_packet_ptr ≡ 0)
init_registers_lem_example =
    init_registers_lem spi (λ c. c.bank) register (λ c. c.memory) spi-IsChip 600 our_mac driver
      (omega arith) (omega arith) our_mac-IsBytes refl

load_packet_lem_example :
    let d = load_packet spi 600 ping_frame 60 driver in
    IsSynced spi (λ c. c.bank) register (λ c. c.memory) spi-IsChip d
    × (pair (register d.chip) 0 0x06 ≡ 7652)
    × (d.chip.memory 7592 ≡ 0)
    × ((i : ℕ) → i < 60 → d.chip.memory (7593 + i) ≡ ping_frame i)
    × ((i : ℕ) → i < 7592 → d.chip.memory i ≡ 0)
load_packet_lem_example =
    load_packet_lem spi (λ c. c.bank) register (λ c. c.memory) spi-IsChip 600 ping_frame 60 driver
      (omega arith) (omega arith) (omega arith) ping_frame-IsBytes refl

write_all_lem_example :
    Becomes spi
      (λ c. c.bank)
      register
      (λ c. c.memory)
      spi-IsChip
      (written_all filter_writes (register driver.chip))
      driver
      (write_all spi filter_writes driver)
unfolding are_writes
write_all_lem_example =
    write_all_lem spi (λ c. c.bank) register (λ c. c.memory) spi-IsChip filter_writes driver refl
      refl

-- A chip that answers every transfer with 255.
abbrev noise : Spi ℕ
noise = record {
  activate = λ c. c;
  release = λ c. c;
  exchange = λ v c. c + 1;
  spdr = λ c. 255;
  set_up = λ c. c;
}

abbrev noisy_driver : Driver ℕ
noisy_driver = record { enc28j60_bank = 0; next_packet_ptr = 0; chip = 0 }

enc28j60_packet_receive_bounds_example :
    let r = enc28j60_packet_receive noise (λ i. 0) 600 noisy_driver in
    (r.length ≤ 599) × WrittenBelow 599 (λ i. 0) r.buffer
enc28j60_packet_receive_bounds_example =
    enc28j60_packet_receive_bounds noise (λ i. 0) 600 noisy_driver (omega arith) (omega arith)

-- A chip with a packet of two bytes and a CRC at 7996 in its memory, around the end of the receive
-- buffer from 0 to 7999.
abbrev received : Mem
received i =
    if i == 7996
    then 4
    else if i == 7998
    then 6
    else if i == 0
    then 0x80
    else if i == 2
    then 65
    else if i == 3
    then 66
    else 0

received-IsBytes : IsBytes received
received-IsBytes i = ground arith

abbrev holding : Driver Sim
holding = record driver {
  next_packet_ptr = 7996;
  chip = record (driver.chip) {
    memory = received;
    count = 1;
    registers = λ b n.
        if b == 0 && n == 10 then 7999 % 256 else if b == 0 && n == 11 then 7999 / 256 else 0;
  };
}

enc28j60_packet_receive_lem_example :
    IsHandedOver spi
      (λ c. c.bank)
      register
      (λ c. c.memory)
      (λ c. c.count)
      spi-IsChip
      spi-IsReadable
      (packet_byte spi
        (λ c. c.bank)
        register
        (λ c. c.memory)
        (λ c. c.count)
        spi-IsChip
        spi-IsReadable
        holding)
      600
      holding
      (enc28j60_packet_receive spi (λ i. 0) 600 holding)
unfolding position
enc28j60_packet_receive_lem_example =
    enc28j60_packet_receive_lem spi (λ c. c.bank) register (λ c. c.memory) (λ c. c.count) spi-IsChip
      spi-IsReadable (λ i. 0) 600 holding refl (omega arith) received-IsBytes (omega arith)
      (omega arith)
