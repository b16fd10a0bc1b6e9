-- ===== src/Ip/Header.antt =====
-- The header that `ip_generate_header` of src/ip.c writes.
use avr_net_enc28j.Base.{
  ℕ, ◌%◌, ◌≤◌, ◌<◌, ◌≡◌, ◌⊎◌, refl, true, arith, Mem, IsBytes, put, copy, same, offset, put-IsBytes,
  copy-IsBytes,
}
use avr_net_enc28j.Util.{chars_put_short, chars_to_short}
use avr_net_enc28j.Util.Bytes.{chars_put_short-IsBytes, chars_put_short_cleared}
use avr_net_enc28j.Checksum.{software_checksum}
use avr_net_enc28j.Checksum.Laws.{software_checksum_fills}
use avr_net_enc28j.Net.{Config}
use avr_net_enc28j.Ip.{ip_header_cleared, ip_generate_header, ip_packet_is_ip}

module _ (c : Config) (identfier : ℕ) (b : Mem) (total_length protocol : ℕ) (dest_ip : Mem) where
  abbrev header : Mem
  header = ip_generate_header c identfier b total_length protocol dest_ip

  abbrev cleared : Mem
  cleared = ip_header_cleared c identfier b total_length protocol dest_ip

  pub ip_header_cleared-IsBytes : IsBytes c.net_ip → IsBytes b → IsBytes dest_ip → IsBytes cleared
  unfolding ip_header_cleared
  ip_header_cleared-IsBytes hc hb hd =
      search (put-IsBytes, copy-IsBytes, chars_put_short-IsBytes, hc, hb, hd) depth 20

  pub cleared_field : chars_put_short cleared 24 0 ≡ cleared
  unfolding ip_header_cleared
  cleared_field = chars_put_short_cleared _ 24 0

  -- A receiver who sums up the header that `ip_generate_header` wrote finds 0, whatever was in the
  -- buffer, if the buffer and the addresses are bytes.
  pub ip_generate_header_verifies :
      IsBytes c.net_ip → IsBytes b → IsBytes dest_ip → software_checksum header 14 20 0 ≡ 0
  unfolding ip_generate_header
  ip_generate_header_verifies hc hb hd =
      software_checksum_fills cleared 14 20 5 24 0 (ip_header_cleared-IsBytes hc hb hd)
        cleared_field (omega arith) (omega arith) (omega arith) (omega arith)

  pub ip_header_fields : (header 12 ≡ b 12) × (header 13 ≡ b 13) × (header 23 ≡ protocol % 256)
  unfolding ip_generate_header ip_header_cleared chars_put_short put copy
  ip_header_fields = (refl, refl, refl)

  pub ip_generate_header-IsBytes : IsBytes c.net_ip → IsBytes b → IsBytes dest_ip → IsBytes header
  unfolding ip_generate_header
  ip_generate_header-IsBytes hc hb hd =
      chars_put_short-IsBytes _ _ _ (ip_header_cleared-IsBytes hc hb hd)

  -- Only the 20 bytes behind the frame header are written.
  pub ip_generate_header_outside : (j : ℕ) → (j < 14) ⊎ (34 ≤ j) → header j ≡ b j
  unfolding ip_generate_header ip_header_cleared chars_put_short put copy
  ip_generate_header_outside j h = ground arith

  -- A station with the destination's address takes the packet, in a frame of type IP, for one of
  -- its own, and reads from it the protocol, the length, and this station's address as the source.
  -- The length has 16 bits and the protocol 8.
  pub ip_generate_header_accepted :
      (c' : Config)
      → b 12 ≡ 0x08
      → b 13 ≡ 0x00
      → same c'.net_ip dest_ip 4 ≡ true
      → total_length < 65536
      → protocol < 256
      → (ip_packet_is_ip c' header ≡ true)
        × (header 23 ≡ protocol)
        × (chars_to_short (offset header 16) ≡ total_length)
        × (same (offset header 26) c.net_ip 4 ≡ true)
  unfolding ip_generate_header ip_header_cleared ip_packet_is_ip chars_to_short chars_put_short put
      copy same
  ip_generate_header_accepted c' h12 h13 hd ht hp =
      (ground arith, ground arith, ground arith, ground arith)
