-- ===== src/Udp.antt =====
-- src/udp.c: datagrams out and in.
pub mod Packets
pub mod Keeps
use avr_net_enc28j.Base.{
  ℕ, zero, suc, ◌+◌, ◌%◌, ◌^◌, Bool, true, false, not, ◌&&◌, Option, none, some, ltb, ◌==◌,
  if◌then◌else◌, Mem, put, copy, same, offset,
}
use avr_net_enc28j.Util.{add16, sub16, low, high, chars_to_short, chars_put_short}
use avr_net_enc28j.Checksum.{software_checksum}
use avr_net_enc28j.Net.{
  Config, Net, Env, Handlers, M, UdpDatagram, ◌>>=◌, ◌>>◌, pure, gets, modify,
  net_handle_result_reject, net_max_port, net_min_dinamic_port,
}
use avr_net_enc28j.Ethernet.{
  eth_generate_header, eth_type_ip, eth_header_len, send, eth_wait_packet,
}
use avr_net_enc28j.Ip.{
  ip_generate_header, next_identfier, ip_header_len, ip_proto_udp, ip_packet_is_ip,
}
use avr_net_enc28j.Arp.{arp_who_is}
use avr_net_enc28j.Icmp.{icmp_send_unreachable}

abbrev pub udp_header_len : ℕ
udp_header_len = 8

-- The header with its checksum field cleared.
unfoldable pub udp_header_cleared : Mem → ℕ → ℕ → ℕ → Mem
udp_header_cleared buffer source_port dest_port length =
    let b = put (put buffer 0x22 (high source_port)) 0x23 (low source_port) in
    let b = put (put b 0x24 (high dest_port)) 0x25 (low dest_port) in
    let b = put (put b 0x26 (high length)) 0x27 (low length) in put (put b 0x28 0) 0x29 0

unfoldable pub udp_generate_header : Mem → ℕ → ℕ → ℕ → Mem
udp_generate_header buffer source_port dest_port length =
    let cleared = udp_header_cleared buffer source_port dest_port length in
    chars_put_short cleared 0x28
      (software_checksum cleared 0x1A (add16 length 8) (add16 length ip_proto_udp))

-- The length that `UdpSendDataMac` compares with `MAX_TX_BUFFER`, in 16-bit arithmetic.
abbrev pub guarded_length : ℕ → ℕ
guarded_length data_length =
    (data_length + eth_header_len + ip_header_len + udp_header_len + data_length) % 65536

-- What `UdpSendDataMac` puts into the buffer behind its guard.
unfoldable pub udp_packet : Config → ℕ → Mem → Mem → Mem → ℕ → ℕ → Mem → ℕ → Mem
udp_packet c identfier buffer mac ip remote_port port payload data_length =
    let b = eth_generate_header c buffer eth_type_ip mac in
    let b =
      ip_generate_header c identfier b (add16 (ip_header_len + udp_header_len) data_length)
        ip_proto_udp ip in
    let b = copy b 0x2A payload data_length in
    udp_generate_header b port remote_port (add16 udp_header_len data_length)

-- The next temporary port.
abbrev pub next_port : ℕ → ℕ
next_port port = if port == net_max_port then net_min_dinamic_port else port + 1

module _ {N A : Type 0} (env : Env N A) where
  open env use {config}

  -- The result is the source port, 0 where nothing was sent.
  unfoldable pub udp_send_data_mac : Mem → Mem → ℕ → ℕ → Mem → ℕ → M N A ℕ
  udp_send_data_mac mac ip remote_port port payload data_length s =
      if ltb config.net_buffer_size (guarded_length data_length)
      then some (0, s)
      else some (
        port,
        send env
            (udp_packet config s.ip_identfier s.buffer mac ip remote_port port payload data_length)
            (add16 (eth_header_len + ip_header_len + udp_header_len) data_length)
            (next_identfier s),
      )

  unfoldable pub udp_send_data : Handlers N A → Mem → ℕ → ℕ → Mem → ℕ → M N A ℕ
  udp_send_data h ip remote_port port payload data_length = arp_who_is env h ip >>= λ found.
      elim found [
        | none ↦ pure 0
        | some mac ↦ udp_send_data_mac mac ip remote_port port payload data_length
      ]

  unfoldable pub udp_send_data_tmp_port : Handlers N A → Mem → ℕ → Mem → ℕ → M N A ℕ
  udp_send_data_tmp_port h ip remote_port payload data_length s =
      let port = next_port s.connect_port_rotaiting in
      udp_send_data h ip remote_port port payload data_length
        (record s { connect_port_rotaiting = port })

  -- `UdpHandleIncomingPacket`.
  unfoldable pub udp_handle_incoming_packet : Handlers N A → ℕ → M N A (Unit {0})
  udp_handle_incoming_packet h length s =
      let b = s.buffer in
      let datagram : UdpDatagram = record {
        mac = offset b 6;
        ip = offset b 26;
        port = chars_to_short (offset b 0x24);
        remote_port = chars_to_short (offset b 0x22);
      } in
      (env.udp_on_incoming_datagram h datagram (offset b 0x2A)
            (sub16 (chars_to_short (offset b 0x26)) udp_header_len)
          >>= λ result s'.
              (if result == net_handle_result_reject && config.with_icmp
                then some (
                  tt,
                  icmp_send_unreachable env datagram.mac datagram.ip
                      (chars_to_short (offset s'.buffer 0x10)) s',
                )
                else some (tt, s')))
        s

  -- The datagram in the buffer comes from this address and port, and goes to this port.
  abbrev pub is_reply : Mem → Mem → ℕ → ℕ → Bool
  is_reply b ip remote_port port =
      same ip (offset b 26) 4
      && remote_port == chars_to_short (offset b 0x22)
      && port == chars_to_short (offset b 0x24)

  module _ (h : Handlers N A) (ip : Mem) (remote_port port timeout : ℕ) where
    -- The loop of `UdpReceiveData`. The result is the length put into `*dataLength`, of the data
    -- at position 0x2A of the buffer; `none` for a return of 0.
    unfoldable pub udp_receive_from : ℕ → ℕ → M N A (Option ℕ)
    udp_receive_from zero waiting s = none
    udp_receive_from (suc fuel) waiting s =
        let rest = udp_receive_from fuel (add16 waiting 1) in
        let next : M N A (Option ℕ) =
          λ s'. if ltb timeout (add16 waiting 1) then some (none, s') else rest s' in
        (eth_wait_packet env h eth_type_ip 0 >>= λ length s'.
        (if length == 0
          then next s'
          else if ip_packet_is_ip config s'.buffer && s'.buffer 0x17 == ip_proto_udp
          then (if is_reply s'.buffer ip remote_port port
              then some (some (sub16 length 0x2A), s')
              else (udp_handle_incoming_packet h length >> next) s')
          else (h.net_handle length >> next) s'))
          s

  unfoldable pub udp_receive_data : Handlers N A → Mem → ℕ → ℕ → ℕ → M N A (Option ℕ)
  udp_receive_data h ip remote_port port timeout =
      udp_receive_from h ip remote_port port timeout (timeout + 1) 0
