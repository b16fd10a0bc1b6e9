-- ===== src/Tests/TcpPackets.antt =====
-- The theorems on the packets of src/tcp.c at fixed packets.
use avr_net_enc28j.Base.{◌≡◌, true, arith, Mem, same, offset}
use avr_net_enc28j.Util.{chars_to_short, chars_to_long}
use avr_net_enc28j.Tcp.Segment.{tcp_get_data_length, tcp_get_header_length}
use avr_net_enc28j.Checksum.{software_checksum}
use avr_net_enc28j.Tcp.Send.{tcp_packet}
use avr_net_enc28j.Tcp.Send.Packets.{tcp_packet_lem, tcp_packet_fields}
use avr_net_enc28j.Tests.Fixtures.{
  our_config, connection, their_mac, their_ip, data_frame, our_mac-IsBytes, our_ip-IsBytes,
  their_mac-IsBytes, their_ip-IsBytes, data_frame-IsBytes,
}

-- A packet with three bytes of data, from a buffer that holds a packet received.
abbrev packet : Mem
packet = tcp_packet our_config 7 data_frame connection 500 0x18 3

tcp_packet_lem_example :
    (software_checksum packet 0x1A 31 29 ≡ 0)
    × (tcp_get_data_length packet ≡ 3)
    × (tcp_get_header_length packet ≡ 20)
tcp_packet_lem_example =
    tcp_packet_lem our_config 7 data_frame connection 500 0x18 3 our_mac-IsBytes our_ip-IsBytes
      data_frame-IsBytes their_mac-IsBytes their_ip-IsBytes (omega arith)

tcp_packet_fields_example :
    (chars_to_short (offset packet 0x22) ≡ 80)
    × (chars_to_short (offset packet 0x24) ≡ 4000)
    × (chars_to_long (offset packet 0x26) ≡ 500)
    × (chars_to_long (offset packet 0x2A) ≡ 258)
    × (packet 0x2F ≡ 0x18)
    × (same (offset packet 0) their_mac 6 ≡ true)
    × (same (offset packet 30) their_ip 4 ≡ true)
tcp_packet_fields_example =
    tcp_packet_fields our_config 7 data_frame connection 500 0x18 3 (omega arith) (omega arith)
      (omega arith) (omega arith) (omega arith)
