-- ===== src/Tcp/Send/Packets.antt =====
-- The packets that `TcpSendPacket` of src/tcp.c builds, as this library and others read them.
use avr_net_enc28j.Base.{
  ℕ, ◌+◌, refl, IsBytes, put-IsBytes, ◌^◌, ◌<◌, ◌≡◌, inl, inr, true, arith, Mem, put, copy, same,
  offset, if◌then◌else◌, Bool-cases,
}
use avr_net_enc28j.Util.{add16, chars_put_short, chars_to_short, chars_to_long}
use avr_net_enc28j.Util.Bytes.{chars_put_short_cleared}
use avr_net_enc28j.Checksum.{software_checksum}
use avr_net_enc28j.Checksum.Laws.{software_checksum_fills}
use avr_net_enc28j.Net.{Config, TcpConnection}
use avr_net_enc28j.Ethernet.{eth_type_ip, eth_generate_header}
use avr_net_enc28j.Ethernet.Frame.{eth_generate_header-IsBytes}
use avr_net_enc28j.Ip.Header.{ip_generate_header-IsBytes}
use avr_net_enc28j.Ip.{ip_proto_tcp, ip_generate_header, ip_header_cleared}
use avr_net_enc28j.Tcp.Segment.{
  has_flag, tcp_flag_syn, tcp_checksum, tcp_get_header_length, tcp_get_data_length,
}
use avr_net_enc28j.Tcp.Send.{
  with_options, tcp_packet, tcp_packet_cleared, tcp_options, tcp_set_sequence, tcp_set_port,
}

tcp_options-IsBytes :
    (c : Config) (b : Mem) (flags : ℕ) → IsBytes b → IsBytes (tcp_options c b flags)
unfolding tcp_options
tcp_options-IsBytes c b flags h = elim (Bool-cases (has_flag flags tcp_flag_syn)) [
  | inl t ↦ rw t (search (put-IsBytes, h) depth 12)
  | inr t ↦ rw t (search (put-IsBytes, h) depth 12)
]

tcp_set-IsBytes :
    (m : Mem) (sequence ack destination source : ℕ)
    → IsBytes m
    → IsBytes (tcp_set_port (tcp_set_sequence m sequence ack) destination source)
unfolding tcp_set_port tcp_set_sequence
tcp_set-IsBytes m sequence ack destination source h = search (put-IsBytes, h) depth 20

module _ (c : Config) (identfier : ℕ) (b : Mem) (k : TcpConnection) (seq flags dlength : ℕ) where
  abbrev packet : Mem
  packet = tcp_packet c identfier b k seq flags dlength

  abbrev header_length : ℕ
  header_length = if has_flag flags tcp_flag_syn then 24 else 20

  -- The addresses, ports and numbers of the connection stand in the packet, if they fit the widths
  -- of their fields.
  pub tcp_packet_fields :
      k.port < 65536
      → k.remote_port < 65536
      → seq < 2 ^ 32
      → k.expected_sequence < 2 ^ 32
      → flags < 256
      → (chars_to_short (offset packet 0x22) ≡ k.port)
        × (chars_to_short (offset packet 0x24) ≡ k.remote_port)
        × (chars_to_long (offset packet 0x26) ≡ seq)
        × (chars_to_long (offset packet 0x2A) ≡ k.expected_sequence)
        × (packet 0x2F ≡ flags)
        × (same (offset packet 0) k.mac 6 ≡ true)
        × (same (offset packet 30) k.ip 4 ≡ true)
  unfolding tcp_packet tcp_packet_cleared tcp_set_sequence tcp_set_port tcp_options
      eth_generate_header ip_generate_header ip_header_cleared chars_to_short chars_to_long
      chars_put_short put copy same
  tcp_packet_fields hp hr hs he hf =
      (omega arith, omega arith, omega arith, omega arith, omega arith, ground arith, ground arith)

  pub tcp_packet_lengths :
      dlength < 32700
      → (tcp_get_data_length packet ≡ dlength)
        × (tcp_get_header_length packet ≡ (if has_flag flags tcp_flag_syn then 24 else 20))
  unfolding tcp_packet tcp_packet_cleared tcp_set_sequence tcp_set_port tcp_options
      ip_generate_header ip_header_cleared tcp_get_data_length tcp_get_header_length chars_to_short
      chars_put_short put copy
  tcp_packet_lengths h = elim (Bool-cases (has_flag flags tcp_flag_syn)) [
    | inl t ↦ (rw t (ground arith), rw t (ground arith))
    | inr t ↦ (rw t (ground arith), rw t (ground arith))
  ]

  abbrev cleared : Mem
  cleared = tcp_packet_cleared c identfier b k seq flags dlength

  tcp_packet_cleared-IsBytes :
      IsBytes c.net_mac
      → IsBytes c.net_ip
      → IsBytes b
      → IsBytes k.mac
      → IsBytes k.ip
      → IsBytes cleared
  unfolding tcp_packet_cleared
  tcp_packet_cleared-IsBytes hc hi hb hm hk =
      let framed = eth_generate_header-IsBytes c b eth_type_ip k.mac hc hb hm in
      let optioned =
        tcp_options-IsBytes c (eth_generate_header c b eth_type_ip k.mac) flags framed in
      let size = add16 40 (with_options flags dlength) in
      let headed =
        ip_generate_header-IsBytes c identfier
          (tcp_options c (eth_generate_header c b eth_type_ip k.mac) flags) size ip_proto_tcp k.ip
          hi optioned hk in
      let numbered = tcp_set-IsBytes _ seq k.expected_sequence k.remote_port k.port headed in
      search (put-IsBytes, numbered) depth 20

  tcp_packet_cleared_field : chars_put_short cleared 0x32 0 ≡ cleared
  unfolding tcp_packet_cleared
  tcp_packet_cleared_field = chars_put_short_cleared _ 0x32 0

  tcp_packet_cleared_length :
      dlength < 32700
      → tcp_get_header_length cleared + tcp_get_data_length cleared ≡ header_length + dlength
  unfolding tcp_packet_cleared tcp_set_sequence tcp_set_port tcp_options ip_generate_header
      ip_header_cleared tcp_get_data_length tcp_get_header_length chars_to_short chars_put_short put
      copy
  tcp_packet_cleared_length h = elim (Bool-cases (has_flag flags tcp_flag_syn)) [
    | inl t ↦ rw t (ground arith)
    | inr t ↦ rw t (ground arith)
  ]

  tcp_packet_verifies :
      IsBytes c.net_mac
      → IsBytes c.net_ip
      → IsBytes b
      → IsBytes k.mac
      → IsBytes k.ip
      → dlength < 32700
      → software_checksum packet 0x1A (header_length + dlength + 8) (header_length + dlength + 6)
        ≡ 0
  unfolding tcp_packet tcp_checksum
  tcp_packet_verifies hc hi hb hm hk small =
      let length = header_length + dlength in
      let total = tcp_packet_cleared_length small in
      let area : add16 length 8 ≡ length + 8 = ground arith in
      let start : add16 6 length ≡ length + 6 = ground arith in
      rw (total, area, start)
        (software_checksum_fills cleared 0x1A (length + 8) 12 0x32 (length + 6)
          (tcp_packet_cleared-IsBytes hc hi hb hm hk) tcp_packet_cleared_field refl (ground arith)
          (ground arith) (ground arith))

  -- The receiver of a packet that `TcpSendPacket` builds, with fewer than 32700 bytes of data, finds
  -- its checksum right: computed over the two IP addresses, the protocol number 6, the length, and the
  -- whole TCP packet with its checksum field, it is 0. The packet says how many bytes of data it has,
  -- and that its header has 24 bytes if it is a first packet and 20 otherwise. The buffer and the
  -- addresses are bytes.
  pub tcp_packet_lem :
      IsBytes c.net_mac
      → IsBytes c.net_ip
      → IsBytes b
      → IsBytes k.mac
      → IsBytes k.ip
      → dlength < 32700
      → let length = (if has_flag flags tcp_flag_syn then 24 else 20) + dlength in
        (software_checksum packet 0x1A (length + 8) (length + 6) ≡ 0)
        × (tcp_get_data_length packet ≡ dlength)
        × (tcp_get_header_length packet ≡ (if has_flag flags tcp_flag_syn then 24 else 20))
  tcp_packet_lem hc hi hb hm hk small =
      let (count, header) = tcp_packet_lengths small in
      (tcp_packet_verifies hc hi hb hm hk small, count, header)
