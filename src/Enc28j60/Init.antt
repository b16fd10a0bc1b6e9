-- ===== src/Enc28j60/Init.antt =====
-- `enc28j60PhyWrite`, `enc28j60_read_phyreg` and `enc28j60_init` of src/enc28j60.c. The loops that
-- wait for the chip are on fuel; `none` is a wait that does not end within it.
use Prim.Native.Nat.{bit_and, bit_or}
use avr_net_enc28j.Base.{
  ℕ, zero, suc, ◌+◌, ◌%◌, Option, none, some, ◌==◌, if◌then◌else◌, List, [], ◌∷◌, Mem,
}
use avr_net_enc28j.Util.{low, high}
use avr_net_enc28j.Enc28j60.{
  Spi, Driver, enc28j60_write, enc28j60_read, enc28j60_write_op, enc28j60_set_bank, rxstart_init,
  rxstop_init, txstart_init, txstop_init,
}
use avr_net_enc28j.Enc28j60.Registers.{
  eie, econ1, etxstl, etxsth, etxndl, etxndh, erxstl, erxsth, erxndl, erxndh, erxrdptl, erxrdpth,
  epmm0, epmm1, epmcsl, epmcsh, erxfcon, macon1, macon3, macon4, mabbipg, maipgl, maipgh, maclcon2,
  mamxfll, mamxflh, micmd, miregadr, miwrl, miwrh, mirdl, mirdh, maadr1, maadr0, maadr3, maadr2,
  maadr5, maadr4, mistat, phcon2, phlcon,
}
use avr_net_enc28j.Enc28j60.Flags.{
  erxfcon_ucen, erxfcon_crcen, erxfcon_pmen, eie_intie, eie_pktie, econ1_rxen, macon1_txpaus,
  macon1_rxpaus, macon1_marxen, macon3_padcfg0, macon3_txcrcen, macon3_frmlnen, macon4_defer,
  micmd_miird, mistat_busy, phcon2_hdldis, bit_field_set, soft_reset,
}

-- The registers that `enc28j60_init` writes first, with their values, in this order.
abbrev pub first_writes : ℕ → Mem → List (ℕ × ℕ)
first_writes net_buffer_size mac =
    let rxstop = rxstop_init net_buffer_size in
    let txstart = txstart_init net_buffer_size in
    let max_framelen = (net_buffer_size + 4) % 65536 in
    (erxstl, low rxstart_init)
    ∷ (erxsth, high rxstart_init)
    ∷ (erxrdptl, low rxstart_init)
    ∷ (erxrdpth, high rxstart_init)
    ∷ (erxndl, low rxstop)
    ∷ (erxndh, high rxstop)
    ∷ (etxstl, low txstart)
    ∷ (etxsth, high txstart)
    ∷ (etxndl, low txstop_init)
    ∷ (etxndh, high txstop_init)
    ∷ (macon1, macon1_marxen + macon1_txpaus + macon1_rxpaus)
    ∷ (macon3, macon3_padcfg0 + macon3_txcrcen + macon3_frmlnen)
    ∷ (macon4, macon4_defer)
    ∷ (maclcon2, 63)
    ∷ (maipgl, 0x12)
    ∷ (maipgh, 0x0C)
    ∷ (mamxfll, low max_framelen)
    ∷ (mamxflh, high max_framelen)
    ∷ (maadr5, mac 0)
    ∷ (maadr4, mac 1)
    ∷ (maadr3, mac 2)
    ∷ (maadr2, mac 3)
    ∷ (maadr1, mac 4)
    ∷ (maadr0, mac 5)
    ∷ []

-- The registers that it writes behind the PHY: the filter of packets, and the gap of frames.
abbrev pub filter_writes : List (ℕ × ℕ)
filter_writes =
    (erxfcon, erxfcon_ucen + erxfcon_crcen + erxfcon_pmen)
    ∷ (epmm0, 0x3f)
    ∷ (epmm1, 0x30)
    ∷ (epmcsl, 0xf9)
    ∷ (epmcsh, 0xf7)
    ∷ (mabbipg, 0x12)
    ∷ []

module _ {C : Type 0} (spi : Spi C) where
  unfoldable pub write_all : List (ℕ × ℕ) → Driver C → Driver C
  write_all [] d = d
  write_all ((address, value) ∷ rest) d = write_all rest (enc28j60_write spi address value d)

  -- `while(enc28j60Read(MISTAT) & MISTAT_BUSY)`.
  unfoldable pub wait_busy : ℕ → Driver C → Option (Driver C)
  wait_busy zero d = none
  wait_busy (suc fuel) d =
      let (status, d') = enc28j60_read spi mistat d in
      let rest = wait_busy fuel d' in if bit_and status mistat_busy == 0 then some d' else rest

  unfoldable pub enc28j60_phy_write : ℕ → ℕ → ℕ → Driver C → Option (Driver C)
  enc28j60_phy_write fuel address value d =
      let d = enc28j60_write spi miregadr address d in
      let d = enc28j60_write spi miwrl (low value) d in
      wait_busy fuel (enc28j60_write spi miwrh (high value) d)

  unfoldable pub enc28j60_read_phyreg : ℕ → ℕ → Driver C → Option (ℕ × Driver C)
  enc28j60_read_phyreg fuel address d =
      let d = enc28j60_write spi miregadr address d in
      let d = enc28j60_write spi micmd micmd_miird d in
      elim (wait_busy fuel d) [
        | none ↦ none
        | some d ↦
            let d = enc28j60_write spi micmd micmd_miird d in
            let (first, d) = enc28j60_read spi mirdl d in
            let (second, d) = enc28j60_read spi mirdh d in some (bit_or first second, d)
      ]

  -- `enc28j60_init` up to the PHY.
  unfoldable pub init_registers : ℕ → Mem → Driver C → Driver C
  init_registers net_buffer_size mac d =
      let d = record d { chip = spi.set_up d.chip } in
      let d = enc28j60_write_op spi soft_reset 0 soft_reset d in
      write_all (first_writes net_buffer_size mac) (record d { next_packet_ptr = rxstart_init })

  -- `enc28j60_init` behind the PHY.
  unfoldable pub init_filter : Driver C → Driver C
  init_filter d =
      let d = enc28j60_set_bank spi econ1 (write_all filter_writes d) in
      let d = enc28j60_write_op spi bit_field_set eie (eie_intie + eie_pktie) d in
      enc28j60_write_op spi bit_field_set econ1 econ1_rxen d

  unfoldable pub enc28j60_init : ℕ → ℕ → Mem → Driver C → Option (Driver C)
  enc28j60_init fuel net_buffer_size mac d =
      elim (enc28j60_phy_write fuel phcon2 phcon2_hdldis (init_registers net_buffer_size mac d)) [
        | none ↦ none
        | some d ↦ elim (enc28j60_phy_write fuel phlcon 0x0472 d) [
          | none ↦ none
          | some d ↦ some (init_filter d)
        ]
      ]
