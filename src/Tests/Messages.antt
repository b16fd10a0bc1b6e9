-- ===== src/Tests/Messages.antt =====
-- The theorems on the messages of src/arp.c, src/icmp.c and src/udp.c at fixed messages.
use avr_net_enc28j.Base.{
  ℕ, ◌+◌, ◌≤◌, ◌<◌, ◌≡◌, refl, true, some, arith, Mem, same, offset, ◌==◌, if◌then◌else◌,
}
use avr_net_enc28j.Util.{chars_to_short}
use avr_net_enc28j.Checksum.{software_checksum}
use avr_net_enc28j.Net.{ArpRow}
use avr_net_enc28j.Arp.{arp_lookup, arp_cache_step, arp_cache_from, arp_cache_store}
use avr_net_enc28j.Arp.Cache.{Answers, arp_cache_store_found}
use avr_net_enc28j.Arp.Eviction.{arp_lookup_evicts_most_used}
use avr_net_enc28j.Icmp.{icmp_reply, icmp_unreachable, quoted}
use avr_net_enc28j.Icmp.Packets.{icmp_reply_lem, icmp_unreachable_lem}
use avr_net_enc28j.Udp.{udp_packet, udp_send_data_mac}
use avr_net_enc28j.Udp.Packets.{udp_packet_lem, sent, udp_send_data_mac_overflow}
use avr_net_enc28j.Tests.Fixtures.{
  our_config, our_mac, our_ip, their_mac, their_ip, data_frame, our_mac-IsBytes, our_ip-IsBytes,
  their_mac-IsBytes, their_ip-IsBytes, data_frame-IsBytes, env, holding,
}

-- A cache with one address in use, in row 0.
abbrev cache : ℕ → ArpRow
cache i = record { mac = their_mac; ip = their_ip; use_count = if i == 0 then 9 else 0 }

arp_lookup_evicts_most_used_example :
    let l = arp_lookup 3 our_ip cache in
    (l.min_use_cache_id < 3)
    × ((j : ℕ) → j < 3 → (l.rows j).use_count ≤ (l.rows l.min_use_cache_id).use_count)
unfolding arp_lookup arp_cache_from arp_cache_step same
arp_lookup_evicts_most_used_example = arp_lookup_evicts_most_used 3 our_ip cache (omega arith) refl

cache_has_no : (j : ℕ) → j < 3 → ¬ Answers our_ip (cache j)
unfolding same
cache_has_no j lt a = absurd (cc)

arp_cache_store_found_example :
    (answer : Mem) × ((arp_lookup 3 our_ip (arp_cache_store 1 our_mac our_ip cache)).found
      ≡ some answer)
    × (same answer our_mac 6 ≡ true)
arp_cache_store_found_example =
    arp_cache_store_found 3 1 our_mac our_ip cache (omega arith) cache_has_no

-- The reply to a frame of 60 bytes.
icmp_reply_lem_example :
    let answer = icmp_reply our_config 7 data_frame 60 their_mac their_ip in
    (answer 0x22 ≡ 0)
    × (answer 0x23 ≡ 0)
    × (software_checksum answer 0x22 26 0 ≡ 0)
    × ((i : ℕ) → 0x26 ≤ i → answer i ≡ data_frame i)
icmp_reply_lem_example =
    icmp_reply_lem our_config 7 data_frame their_mac their_ip our_mac-IsBytes our_ip-IsBytes
      data_frame-IsBytes their_mac-IsBytes their_ip-IsBytes 60 (omega arith) (omega arith)

icmp_unreachable_lem_example :
    let answer = icmp_unreachable our_config 7 data_frame their_mac their_ip 43 in
    (answer 0x22 ≡ 3)
    × (answer 0x23 ≡ 12)
    × (software_checksum answer 14 20 0 ≡ 0)
    × (software_checksum answer 0x22 (8 + quoted 43) 0 ≡ 0)
    × ((i : ℕ) → i < quoted 43 → answer (0x2A + i) ≡ data_frame (0x0E + i))
icmp_unreachable_lem_example =
    icmp_unreachable_lem our_config 7 data_frame their_mac their_ip our_mac-IsBytes our_ip-IsBytes
      data_frame-IsBytes their_mac-IsBytes their_ip-IsBytes 43

udp_packet_lem_example :
    let packet = udp_packet our_config 7 data_frame their_mac their_ip 53 49152 their_ip 4 in
    (software_checksum packet 0x1A 20 29 ≡ 0)
    × (chars_to_short (offset packet 0x22) ≡ 49152)
    × (chars_to_short (offset packet 0x24) ≡ 53)
    × (chars_to_short (offset packet 0x26) ≡ 12)
    × ((i : ℕ) → i < 4 → packet (0x2A + i) ≡ their_ip i)
udp_packet_lem_example =
    udp_packet_lem our_config 7 data_frame their_mac their_ip 53 49152 their_ip 4 our_mac-IsBytes
      our_ip-IsBytes data_frame-IsBytes their_mac-IsBytes their_ip-IsBytes their_ip-IsBytes
      (omega arith) (omega arith) (omega arith)

udp_send_data_mac_overflow_example :
    let s = holding data_frame in
    (udp_send_data_mac env their_mac their_ip 53 49152 our_ip 33000 s
      ≡ some (49152, sent env their_mac their_ip 53 49152 our_ip s 33000))
    × (600 < 42 + 33000)
udp_send_data_mac_overflow_example =
    udp_send_data_mac_overflow env their_mac their_ip 53 49152 our_ip (holding data_frame) 33000
      (omega arith) (omega arith) (omega arith)
