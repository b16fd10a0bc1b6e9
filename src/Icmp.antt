-- ===== src/Icmp.antt =====
-- src/icmp.c: the answer to a ping, and the report of an unreachable service.
pub mod Packets
use avr_net_enc28j.Base.{
  ℕ, ◌+◌, ◌%◌, Bool, true, false, not, Option, some, ltb, ◌==◌, if◌then◌else◌, Mem, put, copy,
  offset,
}
use avr_net_enc28j.Util.{add16, sub16, chars_put_short}
use avr_net_enc28j.Checksum.{software_checksum}
use avr_net_enc28j.Net.{Config, Net, Env, M}
use avr_net_enc28j.Ethernet.{eth_generate_header, eth_type_ip, eth_header_len, send}
use avr_net_enc28j.Ip.{ip_generate_header, next_identfier, ip_header_len, ip_proto_icmp}

abbrev pub icmp_header_len : ℕ
icmp_header_len = 8

abbrev pub icmp_type_echoreply : ℕ
icmp_type_echoreply = 0

abbrev pub icmp_type_echorequest : ℕ
icmp_type_echorequest = 8

abbrev pub icmp_type_unreachable : ℕ
icmp_type_unreachable = 3

abbrev pub icmp_code_unreachable_host_service : ℕ
icmp_code_unreachable_host_service = 12

-- The header with its checksum field cleared.
unfoldable pub icmp_header_cleared : Mem → ℕ → ℕ → Mem
icmp_header_cleared buffer icmp_type icmp_code =
    put (put (put (put buffer 0x22 icmp_type) 0x23 icmp_code) 0x24 0) 0x25 0

-- `IcmpGeneratePacket`. `dataLength` is an `unsigned char`.
unfoldable pub icmp_generate_packet : Mem → ℕ → ℕ → ℕ → Mem
icmp_generate_packet buffer icmp_type icmp_code data_length =
    let cleared = icmp_header_cleared buffer icmp_type icmp_code in
    chars_put_short cleared 0x24
      (software_checksum cleared 0x22 (icmp_header_len + data_length % 256) 0)

-- What `icmp_send_reply` puts into the buffer.
unfoldable pub icmp_reply : Config → ℕ → Mem → ℕ → Mem → Mem → Mem
icmp_reply c identfier buffer length dest_mac dest_ip =
    let b = eth_generate_header c buffer eth_type_ip dest_mac in
    let b = ip_generate_header c identfier b (sub16 length eth_header_len) ip_proto_icmp dest_ip in
    icmp_generate_packet b icmp_type_echoreply 0 (sub16 length 0x2A)

-- The quoted length: the header and eight bytes behind it, or less.
abbrev pub quoted : ℕ → ℕ
quoted ip_total_length = if ltb 28 ip_total_length then 28 else ip_total_length

-- What `IcmpSendUnreachable` puts into the buffer. The areas of the `memcpy` do not overlap, since
-- no more than 28 bytes are copied.
unfoldable pub icmp_unreachable : Config → ℕ → Mem → Mem → Mem → ℕ → Mem
icmp_unreachable c identfier buffer remote_mac remote_ip ip_total_length =
    let n = quoted ip_total_length in
    let b = copy buffer 0x2A (offset buffer 0x0E) n in
    let b = icmp_generate_packet b icmp_type_unreachable icmp_code_unreachable_host_service n in
    let b = eth_generate_header c b eth_type_ip remote_mac in
    ip_generate_header c identfier b (ip_header_len + icmp_header_len + n) ip_proto_icmp remote_ip

module _ {N A : Type 0} (env : Env N A) where
  open env use {config}

  -- The Boolean says whether the packet was a ping, and is answered.
  unfoldable pub icmp_send_reply : ℕ → Mem → Mem → M N A Bool
  icmp_send_reply length dest_mac dest_ip s =
      if not (s.buffer 0x17 == ip_proto_icmp)
      then some (false, s)
      else if not (s.buffer 0x22 == icmp_type_echorequest)
      then some (false, s)
      else some (
        true,
        send env (icmp_reply config s.ip_identfier s.buffer length dest_mac dest_ip) length
            (next_identfier s),
      )

  unfoldable pub icmp_send_unreachable : Mem → Mem → ℕ → Net N A → Net N A
  icmp_send_unreachable remote_mac remote_ip ip_total_length s =
      send env
        (icmp_unreachable config s.ip_identfier s.buffer remote_mac remote_ip ip_total_length)
        (eth_header_len + ip_header_len + icmp_header_len + quoted ip_total_length)
        (next_identfier s)
