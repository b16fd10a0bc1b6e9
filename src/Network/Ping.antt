-- ===== src/Network/Ping.antt =====
-- A ping through `NetHandleIncomingPacket` of src/network.c.
use avr_net_enc28j.Base.{
  ℕ, ◌+◌, ◌-◌, ◌≤◌, ◌<◌, ◌≡◌, refl, true, false, some, arith, Mem, IsBytes, put, copy, same, offset,
  ◌==◌,
}
use avr_net_enc28j.Util.{chars_put_short}
use avr_net_enc28j.Checksum.{software_checksum}
use avr_net_enc28j.Net.{Net, Env, Handlers, ◌>>=◌}
use avr_net_enc28j.Ethernet.{send, eth_generate_header}
use avr_net_enc28j.Ip.{ip_packet_is_ip, ip_generate_header, ip_header_cleared, next_identfier}
use avr_net_enc28j.Arp.{arp_packet_is_arp, arp_opcode_request}
use avr_net_enc28j.Icmp.{icmp_reply, icmp_send_reply, icmp_generate_packet, icmp_header_cleared}
use avr_net_enc28j.Icmp.Packets.{icmp_reply_lem}
use avr_net_enc28j.Network.{net_handle_incoming_packet}

module _ {N A : Type 0} (env : Env N A) (h : Handlers N A) (length : ℕ) (s : Net N A) where
  abbrev answer : Mem
  answer =
      icmp_reply env.config s.ip_identfier s.buffer length (offset s.buffer 6) (offset s.buffer 26)

  ip_not_arp :
      ip_packet_is_ip env.config s.buffer ≡ true
      → arp_packet_is_arp env.config s.buffer arp_opcode_request ≡ false
  unfolding ip_packet_is_ip arp_packet_is_arp
  ip_not_arp ip = ground arith

  ping_handled :
      ip_packet_is_ip env.config s.buffer ≡ true
      → env.config.with_icmp ≡ true
      → (s.buffer 0x17 == 1) ≡ true
      → (s.buffer 0x22 == 8) ≡ true
      → net_handle_incoming_packet env h length s
        ≡ some (tt, send env answer length (next_identfier s))
  unfolding net_handle_incoming_packet icmp_send_reply
  ping_handled ip included icmp echo = rw (ip_not_arp ip, ip, included, icmp, echo, ◌>>=◌) refl

  answer_addressed : same (offset answer 0) (offset s.buffer 6) 6 ≡ true
  unfolding icmp_reply icmp_generate_packet icmp_header_cleared ip_generate_header ip_header_cleared
      eth_generate_header chars_put_short put copy same
  answer_addressed = ground arith

  answer_returned : same (offset answer 30) (offset s.buffer 26) 4 ≡ true
  unfolding icmp_reply icmp_generate_packet icmp_header_cleared ip_generate_header ip_header_cleared
      eth_generate_header chars_put_short put copy same
  answer_returned = ground arith

  answer_from : same (offset answer 26) env.config.net_ip 4 ≡ true
  unfolding icmp_reply icmp_generate_packet icmp_header_cleared ip_generate_header ip_header_cleared
      eth_generate_header chars_put_short put copy same
  answer_from = ground arith

  -- A ping to this station, of at most 255 bytes of data, is answered by one frame of the same
  -- length, to the hardware address and the IP address that the ping came from, and from this
  -- station's IP address: an echo reply with a right checksum that carries the data of the ping. No connection is changed, and the application is not involved.
  -- ICMP is included, and the buffer and this station's addresses are bytes.
  pub net_handle_ping :
      ip_packet_is_ip env.config s.buffer ≡ true
      → env.config.with_icmp ≡ true
      → s.buffer 0x17 ≡ 1
      → s.buffer 0x22 ≡ 8
      → 42 ≤ length
      → length < 298
      → IsBytes s.buffer
      → IsBytes env.config.net_mac
      → IsBytes env.config.net_ip
      → (s' : Net N A) × (net_handle_incoming_packet env h length s ≡ some (tt, s'))
        × (s'.nic ≡ env.packet_send s'.buffer length s.nic)
        × (same (offset s'.buffer 0) (offset s.buffer 6) 6 ≡ true)
        × (same (offset s'.buffer 30) (offset s.buffer 26) 4 ≡ true)
        × (same (offset s'.buffer 26) env.config.net_ip 4 ≡ true)
        × (s'.buffer 0x22 ≡ 0)
        × (software_checksum s'.buffer 0x22 (length - 34) 0 ≡ 0)
        × ((i : ℕ) → 0x26 ≤ i → s'.buffer i ≡ s.buffer i)
        × (s'.connections ≡ s.connections)
        × (s'.app ≡ s.app)
  unfolding send next_identfier
  net_handle_ping ip included icmp echo lo hi hb hm hi' =
      let (kind, code, sum, data_kept) =
        icmp_reply_lem env.config s.ip_identfier s.buffer (offset s.buffer 6) (offset s.buffer 26)
          hm hi' hb (λ i. hb (6 + i)) (λ i. hb (26 + i)) length lo hi in
      (
        send env answer length (next_identfier s),
        ping_handled ip included (ground arith) (ground arith),
        refl,
        answer_addressed,
        answer_returned,
        answer_from,
        kind,
        sum,
        data_kept,
        refl,
        refl,
      )
