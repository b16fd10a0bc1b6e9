-- ===== src/Arp/Packets.antt =====
-- The requests and replies of src/arp.c, as the other side reads them.
use avr_net_enc28j.Base.{◌≡◌, true, ◌&&◌, arith, Mem, put, copy, same, offset}
use avr_net_enc28j.Util.{chars_put_short}
use avr_net_enc28j.Net.{Config}
use avr_net_enc28j.Ethernet.{eth_generate_header, eth_check_type, eth_type_arp}
use avr_net_enc28j.Arp.{
  arp_generate_packet, arp_request, arp_reply, arp_packet_is_arp, arp_opcode_request,
  arp_opcode_reply,
}

-- The host whose address is asked for takes a request for one.
pub arp_request_accepted :
    (c c' : Config) (b : Mem)
    → arp_packet_is_arp c' (arp_request c b c'.net_ip) arp_opcode_request ≡ true
unfolding arp_request arp_generate_packet arp_packet_is_arp eth_generate_header chars_put_short put
    copy same
arp_request_accepted c c' b = ground arith

module _ (c c' : Config) (b : Mem) where
  -- What station `c` sends when station `c'` asks for its address.
  abbrev pub exchanged : Mem
  exchanged = let request = arp_request c' b c.net_ip in arp_reply c request (offset request 6)

  -- The reply passes the tests of `EthWaitPacket` and `ArpPacketIsArp` at the station that asked.
  pub arp_reply_accepted :
      (eth_check_type exchanged eth_type_arp && same (offset exchanged 0) c'.net_mac 6 ≡ true)
      × (arp_packet_is_arp c' exchanged arp_opcode_reply ≡ true)
  unfolding arp_reply arp_request arp_generate_packet arp_packet_is_arp eth_generate_header
      eth_check_type chars_put_short put copy same
  arp_reply_accepted = (ground arith, ground arith)

  -- The address that `ArpWhoIs` takes from the reply, and the sender's fields of the reply, are
  -- those of the station that was asked for.
  pub arp_reply_sender :
      (same (offset exchanged 6) c.net_mac 6 ≡ true)
      × (same (offset exchanged 0x16) c.net_mac 6 ≡ true)
      × (same (offset exchanged 0x1C) c.net_ip 4 ≡ true)
  unfolding arp_reply arp_request arp_generate_packet eth_generate_header chars_put_short put copy
      same
  arp_reply_sender = (ground arith, ground arith, ground arith)
