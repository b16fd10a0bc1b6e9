-- ===== src/Enc28j60/Flags.antt =====
-- The bits and the operation codes of src/enc28j60.h that the driver uses.
use avr_net_enc28j.Base.{ℕ}

abbrev pub erxfcon_ucen : ℕ
erxfcon_ucen = 0x80

abbrev pub erxfcon_crcen : ℕ
erxfcon_crcen = 0x20

abbrev pub erxfcon_pmen : ℕ
erxfcon_pmen = 0x10

abbrev pub eie_intie : ℕ
eie_intie = 0x80

abbrev pub eie_pktie : ℕ
eie_pktie = 0x40

abbrev pub eir_txerif : ℕ
eir_txerif = 0x02

abbrev pub econ2_pktdec : ℕ
econ2_pktdec = 0x40

abbrev pub econ1_txrts : ℕ
econ1_txrts = 0x08

abbrev pub econ1_rxen : ℕ
econ1_rxen = 0x04

abbrev pub econ1_bsel1 : ℕ
econ1_bsel1 = 0x02

abbrev pub econ1_bsel0 : ℕ
econ1_bsel0 = 0x01

abbrev pub macon1_txpaus : ℕ
macon1_txpaus = 0x08

abbrev pub macon1_rxpaus : ℕ
macon1_rxpaus = 0x04

abbrev pub macon1_marxen : ℕ
macon1_marxen = 0x01

abbrev pub macon3_padcfg0 : ℕ
macon3_padcfg0 = 0x20

abbrev pub macon3_txcrcen : ℕ
macon3_txcrcen = 0x10

abbrev pub macon3_frmlnen : ℕ
macon3_frmlnen = 0x02

abbrev pub macon4_defer : ℕ
macon4_defer = 0x40

abbrev pub micmd_miird : ℕ
micmd_miird = 0x01

abbrev pub mistat_busy : ℕ
mistat_busy = 0x01

abbrev pub phcon2_hdldis : ℕ
phcon2_hdldis = 0x100

abbrev pub read_ctrl_reg : ℕ
read_ctrl_reg = 0x00

abbrev pub read_buf_mem : ℕ
read_buf_mem = 0x3A

abbrev pub write_ctrl_reg : ℕ
write_ctrl_reg = 0x40

abbrev pub write_buf_mem : ℕ
write_buf_mem = 0x7A

abbrev pub bit_field_set : ℕ
bit_field_set = 0x80

abbrev pub bit_field_clr : ℕ
bit_field_clr = 0xA0

abbrev pub soft_reset : ℕ
soft_reset = 0xFF
