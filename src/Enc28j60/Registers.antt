-- ===== src/Enc28j60/Registers.antt =====
-- The registers of src/enc28j60.h that the driver uses. A register's code
-- has its address in bits 0 to 4, its bank in bits 5 and 6, and bit 7 set for a MAC or MII register.
use avr_net_enc28j.Base.{ℕ}

abbrev pub addr_mask : ℕ
addr_mask = 0x1F

abbrev pub bank_mask : ℕ
bank_mask = 0x60

abbrev pub eie : ℕ
eie = 0x1B

abbrev pub eir : ℕ
eir = 0x1C

abbrev pub econ2 : ℕ
econ2 = 0x1E

abbrev pub econ1 : ℕ
econ1 = 0x1F

abbrev pub erdptl : ℕ
erdptl = 0x00

abbrev pub erdpth : ℕ
erdpth = 0x01

abbrev pub ewrptl : ℕ
ewrptl = 0x02

abbrev pub ewrpth : ℕ
ewrpth = 0x03

abbrev pub etxstl : ℕ
etxstl = 0x04

abbrev pub etxsth : ℕ
etxsth = 0x05

abbrev pub etxndl : ℕ
etxndl = 0x06

abbrev pub etxndh : ℕ
etxndh = 0x07

abbrev pub erxstl : ℕ
erxstl = 0x08

abbrev pub erxsth : ℕ
erxsth = 0x09

abbrev pub erxndl : ℕ
erxndl = 0x0A

abbrev pub erxndh : ℕ
erxndh = 0x0B

abbrev pub erxrdptl : ℕ
erxrdptl = 0x0C

abbrev pub erxrdpth : ℕ
erxrdpth = 0x0D

abbrev pub epmm0 : ℕ
epmm0 = 0x28

abbrev pub epmm1 : ℕ
epmm1 = 0x29

abbrev pub epmcsl : ℕ
epmcsl = 0x30

abbrev pub epmcsh : ℕ
epmcsh = 0x31

abbrev pub erxfcon : ℕ
erxfcon = 0x38

abbrev pub epktcnt : ℕ
epktcnt = 0x39

abbrev pub macon1 : ℕ
macon1 = 0xC0

abbrev pub macon3 : ℕ
macon3 = 0xC2

abbrev pub macon4 : ℕ
macon4 = 0xC3

abbrev pub mabbipg : ℕ
mabbipg = 0xC4

abbrev pub maipgl : ℕ
maipgl = 0xC6

abbrev pub maipgh : ℕ
maipgh = 0xC7

abbrev pub maclcon2 : ℕ
maclcon2 = 0xC9

abbrev pub mamxfll : ℕ
mamxfll = 0xCA

abbrev pub mamxflh : ℕ
mamxflh = 0xCB

abbrev pub micmd : ℕ
micmd = 0xD2

abbrev pub miregadr : ℕ
miregadr = 0xD4

abbrev pub miwrl : ℕ
miwrl = 0xD6

abbrev pub miwrh : ℕ
miwrh = 0xD7

abbrev pub mirdl : ℕ
mirdl = 0xD8

abbrev pub mirdh : ℕ
mirdh = 0xD9

abbrev pub maadr1 : ℕ
maadr1 = 0xE0

abbrev pub maadr0 : ℕ
maadr0 = 0xE1

abbrev pub maadr3 : ℕ
maadr3 = 0xE2

abbrev pub maadr2 : ℕ
maadr2 = 0xE3

abbrev pub maadr5 : ℕ
maadr5 = 0xE4

abbrev pub maadr4 : ℕ
maadr4 = 0xE5

abbrev pub mistat : ℕ
mistat = 0xEA

abbrev pub erevid : ℕ
erevid = 0x72

abbrev pub phcon2 : ℕ
phcon2 = 0x10

abbrev pub phlcon : ℕ
phlcon = 0x14
