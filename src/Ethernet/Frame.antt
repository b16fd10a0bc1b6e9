-- ===== src/Ethernet/Frame.antt =====
-- The frame header of src/ethernet.c: what `eth_generate_header` writes and what it leaves.
use avr_net_enc28j.Base.{
  ℕ, ◌≤◌, ◌≡◌, true, arith, Mem, IsBytes, put, copy, same, offset, copy-IsBytes,
}
use avr_net_enc28j.Util.{chars_put_short}
use avr_net_enc28j.Util.Bytes.{chars_put_short-IsBytes}
use avr_net_enc28j.Net.{Config}
use avr_net_enc28j.Ethernet.{eth_generate_header, eth_check_type}

module _ (c : Config) (b : Mem) (type : ℕ) (dest_mac : Mem) where
  -- Only the first 14 bytes are written.
  pub eth_generate_header_outside : (j : ℕ) → 14 ≤ j → eth_generate_header c b type dest_mac j ≡ b j
  unfolding eth_generate_header chars_put_short put copy
  eth_generate_header_outside j h = ground arith

  pub eth_generate_header-IsBytes :
      IsBytes c.net_mac
      → IsBytes b
      → IsBytes dest_mac
      → IsBytes (eth_generate_header c b type dest_mac)
  unfolding eth_generate_header
  eth_generate_header-IsBytes hc hb hd = search (copy-IsBytes, chars_put_short-IsBytes, hc, hb, hd)

  -- The station with the destination's address takes the frame for one of this type, sent to it by
  -- the address of this station.
  pub eth_generate_header_accepted :
      let frame = eth_generate_header c b type dest_mac in
      (eth_check_type frame type ≡ true)
      × (same (offset frame 0) dest_mac 6 ≡ true)
      × (same (offset frame 6) c.net_mac 6 ≡ true)
  unfolding eth_generate_header eth_check_type chars_put_short put copy same
  eth_generate_header_accepted = (ground arith, ground arith, ground arith)
