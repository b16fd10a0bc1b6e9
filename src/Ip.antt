-- ===== src/Ip.antt =====
-- src/ip.c: the IPv4 header, and the test of an incoming packet.
pub mod Header
use avr_net_enc28j.Base.{
  ℕ, ◌+◌, ◌%◌, Bool, true, false, not, ◌||◌, ◌==◌, if◌then◌else◌, Mem, put, copy, same, offset,
}
use avr_net_enc28j.Util.{low, high, add16, chars_put_short}
use avr_net_enc28j.Checksum.{software_checksum}
use avr_net_enc28j.Net.{Config, Net}

abbrev pub ip_header_len : ℕ
ip_header_len = 20

abbrev pub ip_proto_icmp : ℕ
ip_proto_icmp = 0x01

abbrev pub ip_proto_tcp : ℕ
ip_proto_tcp = 0x06

abbrev pub ip_proto_udp : ℕ
ip_proto_udp = 0x11

-- The header up to the addresses, with the checksum field cleared.
unfoldable pub ip_header_cleared : Config → ℕ → Mem → ℕ → ℕ → Mem → Mem
ip_header_cleared c identfier buffer total_length protocol dest_ip =
    let b = put (put buffer 14 0x45) 15 0 in
    let b = chars_put_short b 16 total_length in
    let b = put (put b 18 (high identfier)) 19 (low identfier) in
    let b = put (put b 20 0) 21 0 in
    let b = put (put b 22 128) 23 protocol in
    let b = copy (copy b 30 dest_ip 4) 26 c.net_ip 4 in put (put b 24 0) 25 0

-- `ip_generate_header`: the buffer that it leaves. The global `ip_identfier` is passed in; the
-- callers count it up by `next_identfier`.
unfoldable pub ip_generate_header : Config → ℕ → Mem → ℕ → ℕ → Mem → Mem
ip_generate_header c identfier buffer total_length protocol dest_ip =
    let cleared = ip_header_cleared c identfier buffer total_length protocol dest_ip in
    chars_put_short cleared 24 (software_checksum cleared 14 ip_header_len 0)

-- `ip_identfier++`.
unfoldable pub next_identfier : {N A : Type 0} → Net N A → Net N A
next_identfier s = record s { ip_identfier = add16 s.ip_identfier 1 }

unfoldable pub ip_packet_is_ip : Config → Mem → Bool
ip_packet_is_ip c buffer =
    if not (buffer 12 == 0x08) || not (buffer 13 == 0x00)
    then false
    else if not (same c.net_ip (offset buffer 30) 4)
    then false
    else true
