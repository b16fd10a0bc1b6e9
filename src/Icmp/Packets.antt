-- ===== src/Icmp/Packets.antt =====
-- The messages of src/icmp.c, as the other side reads them.
use avr_net_enc28j.Base.{
  ℕ, ◌+◌, ◌-◌, ◌%◌, ◌≤◌, ◌<◌, ◌≡◌, ◌⊎◌, inr, refl, ◌∙◌, arith, Mem, IsBytes, put, copy, offset,
  put-IsBytes, copy-IsBytes, copy_inside,
}
use avr_net_enc28j.Util.{sub16, chars_put_short}
use avr_net_enc28j.Util.Bytes.{chars_put_short-IsBytes, chars_put_short_cleared}
use avr_net_enc28j.Checksum.{software_checksum}
use avr_net_enc28j.Checksum.Laws.{software_checksum_fills, software_checksum_ext}
use avr_net_enc28j.Net.{Config}
use avr_net_enc28j.Ethernet.{eth_generate_header}
use avr_net_enc28j.Ethernet.Frame.{eth_generate_header_outside, eth_generate_header-IsBytes}
use avr_net_enc28j.Ip.{ip_generate_header}
use avr_net_enc28j.Ip.Header.{
  ip_generate_header_outside, ip_generate_header-IsBytes, ip_generate_header_verifies,
}
use avr_net_enc28j.Icmp.{
  icmp_header_cleared, icmp_generate_packet, icmp_reply, icmp_unreachable, quoted,
}

module _ (b : Mem) (icmp_type icmp_code : ℕ) where
  icmp_header_cleared-IsBytes : IsBytes b → IsBytes (icmp_header_cleared b icmp_type icmp_code)
  unfolding icmp_header_cleared
  icmp_header_cleared-IsBytes h = search (put-IsBytes, h)

  icmp_header_cleared_field :
      chars_put_short (icmp_header_cleared b icmp_type icmp_code) 0x24 0
      ≡ icmp_header_cleared b icmp_type icmp_code
  unfolding icmp_header_cleared
  icmp_header_cleared_field = chars_put_short_cleared _ 0x24 0

  -- Only the first four bytes of the message are written.
  pub icmp_generate_packet_outside :
      (n j : ℕ) → (j < 0x22) ⊎ (0x26 ≤ j) → icmp_generate_packet b icmp_type icmp_code n j ≡ b j
  unfolding icmp_generate_packet icmp_header_cleared chars_put_short put
  icmp_generate_packet_outside n j h = ground arith

  pub icmp_generate_packet_head :
      (n : ℕ)
      → let message = icmp_generate_packet b icmp_type icmp_code n in
        (message 0x22 ≡ icmp_type % 256) × (message 0x23 ≡ icmp_code % 256)
  unfolding icmp_generate_packet icmp_header_cleared chars_put_short put
  icmp_generate_packet_head n = (refl, refl)

  pub icmp_generate_packet-IsBytes :
      (n : ℕ) → IsBytes b → IsBytes (icmp_generate_packet b icmp_type icmp_code n)
  unfolding icmp_generate_packet
  icmp_generate_packet-IsBytes n h = chars_put_short-IsBytes _ _ _ (icmp_header_cleared-IsBytes h)

  -- The receiver of a message with fewer than 256 bytes of data finds the checksum right.
  pub icmp_generate_packet_verifies :
      (n : ℕ)
      → IsBytes b
      → n < 256
      → software_checksum (icmp_generate_packet b icmp_type icmp_code n) 0x22 (8 + n) 0 ≡ 0
  unfolding icmp_generate_packet
  icmp_generate_packet_verifies n h small =
      let whole : n % 256 ≡ n = omega arith in
      rw whole (
        software_checksum_fills (icmp_header_cleared b icmp_type icmp_code) 0x22 (8 + n) 1 0x24 0
          (icmp_header_cleared-IsBytes h) icmp_header_cleared_field (omega arith) (omega arith)
          (omega arith) (omega arith))

module _ (c : Config) (identfier : ℕ) (b : Mem) (mac ip : Mem) (hm : IsBytes c.net_mac)
    (hi : IsBytes c.net_ip) (hb : IsBytes b) (hd : IsBytes mac) (hp : IsBytes ip) where
  -- The answer to a ping of at most 255 bytes of data (and no less than a header): it is an echo
  -- reply whose checksum is right, with the identifier, the sequence number and the data of the
  -- request.
  pub icmp_reply_lem :
      (length : ℕ)
      → 42 ≤ length
      → length < 298
      → let answer = icmp_reply c identfier b length mac ip in
        (answer 0x22 ≡ 0)
        × (answer 0x23 ≡ 0)
        × (software_checksum answer 0x22 (length - 34) 0 ≡ 0)
        × ((i : ℕ) → 0x26 ≤ i → answer i ≡ b i)
  unfolding icmp_reply
  icmp_reply_lem length lo hi' =
      let n = sub16 length 42 in
      let b1 = eth_generate_header c b 0x0800 mac in
      let b2 = ip_generate_header c identfier b1 (sub16 length 14) 1 ip in
      let b1_bytes = eth_generate_header-IsBytes c b 0x0800 mac hm hb hd in
      let b2_bytes =
        ip_generate_header-IsBytes c identfier b1 (sub16 length 14) 1 ip hi b1_bytes hp in
      let e : length - 34 ≡ 8 + n = omega arith in
      (
        (icmp_generate_packet_head b2 0 0 n).0,
        (icmp_generate_packet_head b2 0 0 n).1,
        rw e (icmp_generate_packet_verifies b2 0 0 n b2_bytes (omega arith)),
        λ i h.
            icmp_generate_packet_outside b2 0 0 n i (inr h)
            ∙ ip_generate_header_outside c identfier b1 (sub16 length 14) 1 ip i (inr (omega arith))
            ∙ eth_generate_header_outside c b 0x0800 mac i (omega arith),
      )

  -- `IcmpSendUnreachable` writes the message first, then the headers in front of it.
  unreachable_message : ℕ → Mem
  unreachable_message total =
      icmp_generate_packet (copy b 0x2A (offset b 0x0E) (quoted total)) 3 12 (quoted total)

  unreachable_message-IsBytes : (total : ℕ) → IsBytes (unreachable_message total)
  unfolding unreachable_message
  unreachable_message-IsBytes total =
      icmp_generate_packet-IsBytes _ 3 12 (quoted total)
        (copy-IsBytes b 0x2A (offset b 0x0E) (quoted total) hb (λ i. hb (0x0E + i)))

  unreachable_behind :
      (total i : ℕ)
      → 34 ≤ i
      → icmp_unreachable c identfier b mac ip total i ≡ unreachable_message total i
  unfolding icmp_unreachable unreachable_message
  unreachable_behind total i h =
      ip_generate_header_outside c identfier _ _ 1 ip i (inr h)
      ∙ eth_generate_header_outside c _ 0x0800 mac i (omega arith)

  unreachable_quote :
      (total i : ℕ) → i < quoted total → unreachable_message total (0x2A + i) ≡ b (0x0E + i)
  unfolding unreachable_message
  unreachable_quote total i h =
      icmp_generate_packet_outside _ 3 12 (quoted total) (0x2A + i) (inr (omega arith))
      ∙ copy_inside b 0x2A (offset b 0x0E) (quoted total) i h

  unreachable_head :
      (total : ℕ) → (unreachable_message total 0x22 ≡ 3) × (unreachable_message total 0x23 ≡ 12)
  unfolding unreachable_message
  unreachable_head total = icmp_generate_packet_head _ 3 12 (quoted total)

  unreachable_sums :
      (total : ℕ)
      → (software_checksum (icmp_unreachable c identfier b mac ip total) 14 20 0 ≡ 0)
        × (software_checksum (unreachable_message total) 0x22 (8 + quoted total) 0 ≡ 0)
  unfolding icmp_unreachable unreachable_message
  unreachable_sums total = (
    ip_generate_header_verifies c identfier _ _ 1 ip hi
        (eth_generate_header-IsBytes c _ 0x0800 mac hm (unreachable_message-IsBytes total) hd) hp,
    icmp_generate_packet_verifies _ 3 12 (quoted total)
        (copy-IsBytes b 0x2A (offset b 0x0E) (quoted total) hb (λ i. hb (0x0E + i))) (ground arith),
  )

  -- The report of an unreachable service has right checksums in its IP header and in its message,
  -- and quotes the IP header of the packet that it answers and the bytes behind it, 28 in all
  -- unless that packet says that it is shorter. The buffer and the addresses are bytes.
  pub icmp_unreachable_lem :
      (total : ℕ)
      → let answer = icmp_unreachable c identfier b mac ip total in
        (answer 0x22 ≡ 3)
        × (answer 0x23 ≡ 12)
        × (software_checksum answer 14 20 0 ≡ 0)
        × (software_checksum answer 0x22 (8 + quoted total) 0 ≡ 0)
        × ((i : ℕ) → i < quoted total → answer (0x2A + i) ≡ b (0x0E + i))
  icmp_unreachable_lem total = (
    unreachable_behind total 0x22 (omega arith) ∙ (unreachable_head total).0,
    unreachable_behind total 0x23 (omega arith) ∙ (unreachable_head total).1,
    (unreachable_sums total).0,
    software_checksum_ext _ (unreachable_message total) 0x22 (8 + quoted total) 0
          (λ i lo hi. unreachable_behind total i lo)
        ∙ (unreachable_sums total).1,
    λ i h. unreachable_behind total (0x2A + i) (omega arith) ∙ unreachable_quote total i h,
  )
