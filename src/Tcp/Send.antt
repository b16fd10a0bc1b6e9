-- ===== src/Tcp/Send.antt =====
-- Outgoing packets of src/tcp.c.
pub mod Packets
use avr_net_enc28j.Base.{
  ℕ, ◌+◌, ◌/◌, ◌%◌, ◌^◌, Bool, true, false, Option, some, ◌==◌, if◌then◌else◌, Mem, put, copy,
  offset,
}
use avr_net_enc28j.Util.{low, high, add16, add32, sub16, chars_put_short}
use avr_net_enc28j.Net.{Config, TcpConnection, Net, Env, M, update}
use avr_net_enc28j.Ethernet.{eth_generate_header, eth_type_ip, send}
use avr_net_enc28j.Ip.{ip_generate_header, next_identfier, ip_proto_tcp}
use avr_net_enc28j.Tcp.Segment.{
  tcp_flag_syn, tcp_flag_ack, has_flag, tcp_max_segment_size, tcp_checksum,
}

-- `buffer[at..at+3]` from a `long`.
abbrev put_long : Mem → ℕ → ℕ → Mem
put_long b at v =
    put (put (put (put b (at + 3) (v % 256)) (at + 2) (v / 256 % 256)) (at + 1) (v / 65536 % 256))
      at (v / 16777216 % 256)

-- `TcpSetSequence`.
unfoldable pub tcp_set_sequence : Mem → ℕ → ℕ → Mem
tcp_set_sequence buffer seq ack = put_long (put_long buffer 0x26 seq) 0x2A ack

-- `TcpSetPort`.
unfoldable pub tcp_set_port : Mem → ℕ → ℕ → Mem
tcp_set_port buffer destination source =
    let b = put (put buffer 0x24 (high destination)) 0x25 (low destination) in
    put (put b 0x22 (high source)) 0x23 (low source)

-- The options of a first packet, and the header's length field.
unfoldable pub tcp_options : Config → Mem → ℕ → Mem
tcp_options c buffer flags =
    if has_flag flags tcp_flag_syn
    then (let b = put (put buffer 0x36 2) 0x37 4 in
        let b = put b 0x38 (high (tcp_max_segment_size c)) in
        put (put b 0x39 (low (tcp_max_segment_size c))) 0x2E 0x60)
    else put buffer 0x2E 0x50

-- `dlength` with the options counted in.
abbrev pub with_options : ℕ → ℕ → ℕ
with_options flags dlength = if has_flag flags tcp_flag_syn then add16 dlength 4 else dlength

-- The packet in the buffer with its checksum field cleared.
unfoldable pub tcp_packet_cleared : Config → ℕ → Mem → TcpConnection → ℕ → ℕ → ℕ → Mem
tcp_packet_cleared c identfier buffer connection send_sequence flags dlength =
    let b = tcp_options c (eth_generate_header c buffer eth_type_ip connection.mac) flags in
    let b =
      ip_generate_header c identfier b (add16 40 (with_options flags dlength)) ip_proto_tcp
        connection.ip in
    let b = tcp_set_sequence b send_sequence connection.expected_sequence in
    let b = tcp_set_port b connection.remote_port connection.port in
    let b = put b 0x2F flags in
    let window = sub16 c.net_buffer_size 34 in
    let b = put (put b 0x30 (high window)) 0x31 (low window) in
    let b = put (put b 0x34 0) 0x35 0 in put (put b 0x32 0) 0x33 0

-- What `TcpSendPacket` puts into the buffer.
unfoldable pub tcp_packet : Config → ℕ → Mem → TcpConnection → ℕ → ℕ → ℕ → Mem
tcp_packet c identfier buffer connection send_sequence flags dlength =
    let cleared = tcp_packet_cleared c identfier buffer connection send_sequence flags dlength in
    chars_put_short cleared 0x32 (tcp_checksum cleared)

module _ {N A : Type 0} (env : Env N A) where
  open env use {config}

  -- `TcpSendPacket(buffer, connections + id, sendSequence, flags, dlength)`, with the buffer given.
  unfoldable pub tcp_send_buffer : Mem → ℕ → ℕ → ℕ → ℕ → Net N A → Net N A
  tcp_send_buffer buffer id send_sequence flags dlength s =
      send env
        (tcp_packet config s.ip_identfier buffer (s.connections id) send_sequence flags dlength)
        (add16 54 (with_options flags dlength)) (next_identfier s)

  unfoldable pub tcp_send_packet : ℕ → ℕ → ℕ → ℕ → Net N A → Net N A
  tcp_send_packet id send_sequence flags dlength s =
      tcp_send_buffer s.buffer id send_sequence flags dlength s

  -- `connections[id] = f(connections[id])`.
  abbrev pub on_connection : ℕ → (TcpConnection → TcpConnection) → Net N A → Net N A
  on_connection id f s = record s { connections = update s.connections id (f (s.connections id)) }

  -- The Boolean says whether the data is the one expected.
  unfoldable pub tcp_send_ack : ℕ → ℕ → ℕ → M N A Bool
  tcp_send_ack id sequence data_length s =
      let c = s.connections id in
      let expected_data = sequence == c.expected_sequence in
      let s' =
        if expected_data
        then on_connection id
            (λ c. record c { expected_sequence = add32 c.expected_sequence data_length }) s
        else s in
      some (expected_data, tcp_send_packet id c.send_sequence tcp_flag_ack 0 s')
