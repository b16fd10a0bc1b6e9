-- ===== src/Udp/Packets.antt =====
-- The datagrams that src/udp.c sends, as the other side reads them, and the guard on their length.
use avr_net_enc28j.Base.{
  ℕ, ◌+◌, ◌*◌, ◌≤◌, ◌<◌, ◌≡◌, ◌⊎◌, inl, inr, refl, ◌∙◌, some, arith, Mem, IsBytes, put, copy,
  offset, put-IsBytes, copy-IsBytes, ltb, copy_inside, Bool-cases,
}
use avr_net_enc28j.Util.{add16, chars_put_short, chars_to_short}
use avr_net_enc28j.Util.Bytes.{chars_put_short_cleared}
use avr_net_enc28j.Checksum.{software_checksum}
use avr_net_enc28j.Checksum.Laws.{software_checksum_fills}
use avr_net_enc28j.Net.{Config, Net, Env}
use avr_net_enc28j.Ethernet.{eth_generate_header, send}
use avr_net_enc28j.Ethernet.Frame.{eth_generate_header-IsBytes}
use avr_net_enc28j.Ip.{ip_generate_header, next_identfier}
use avr_net_enc28j.Ip.Header.{ip_generate_header-IsBytes}
use avr_net_enc28j.Udp.{
  udp_header_cleared, udp_generate_header, udp_packet, udp_send_data_mac, guarded_length, next_port,
}

module _ (b : Mem) (source_port dest_port length : ℕ) where
  udp_header_cleared-IsBytes :
      IsBytes b → IsBytes (udp_header_cleared b source_port dest_port length)
  unfolding udp_header_cleared
  udp_header_cleared-IsBytes h = search (put-IsBytes, h) depth 12

  udp_header_cleared_field :
      chars_put_short (udp_header_cleared b source_port dest_port length) 0x28 0
      ≡ udp_header_cleared b source_port dest_port length
  unfolding udp_header_cleared
  udp_header_cleared_field = chars_put_short_cleared _ 0x28 0

  pub udp_generate_header_verifies :
      IsBytes b
      → 8 ≤ length
      → length < 65500
      → software_checksum
          (udp_generate_header b source_port dest_port length)
          0x1A
          (length + 8)
          (length + 17)
        ≡ 0
  unfolding udp_generate_header
  udp_generate_header_verifies h lo hi =
      let area : add16 length 8 ≡ length + 8 = omega arith in
      let start : add16 length 17 ≡ length + 17 = omega arith in
      rw (area, start)
        (software_checksum_fills (udp_header_cleared b source_port dest_port length) 0x1A
          (length + 8) 7 0x28 (length + 17) (udp_header_cleared-IsBytes h) udp_header_cleared_field
          (omega arith) (omega arith) (omega arith) (omega arith))

  pub udp_generate_header_fields :
      source_port < 65536
      → dest_port < 65536
      → length < 65536
      → let packet = udp_generate_header b source_port dest_port length in
        (chars_to_short (offset packet 0x22) ≡ source_port)
        × (chars_to_short (offset packet 0x24) ≡ dest_port)
        × (chars_to_short (offset packet 0x26) ≡ length)
        × ((j : ℕ) → 0x2A ≤ j → packet j ≡ b j)
  unfolding udp_generate_header udp_header_cleared chars_to_short chars_put_short put
  udp_generate_header_fields hs hd hl = (omega arith, omega arith, omega arith, λ j h. ground arith)

-- A datagram that `UdpSendDataMac` builds, of fewer than 65400 bytes of data and with ports of 16
-- bits, carries the ports, its length and the data, and its checksum, over the pseudo header too,
-- is right for the receiver. The buffer, the addresses and the data are bytes.
pub udp_packet_lem :
    (c : Config) (identfier : ℕ) (b mac ip : Mem) (remote_port port : ℕ) (payload : Mem) (n : ℕ)
    → IsBytes c.net_mac
    → IsBytes c.net_ip
    → IsBytes b
    → IsBytes mac
    → IsBytes ip
    → IsBytes payload
    → remote_port < 65536
    → port < 65536
    → n < 65400
    → let packet = udp_packet c identfier b mac ip remote_port port payload n in
      (software_checksum packet 0x1A (n + 16) (n + 25) ≡ 0)
      × (chars_to_short (offset packet 0x22) ≡ port)
      × (chars_to_short (offset packet 0x24) ≡ remote_port)
      × (chars_to_short (offset packet 0x26) ≡ n + 8)
      × ((i : ℕ) → i < n → packet (0x2A + i) ≡ payload i)
unfolding udp_packet
udp_packet_lem c identfier b mac ip remote_port port payload n hc hci hb hm hi hd hr hp small =
    let length : add16 8 n ≡ n + 8 = omega arith in
    let area : n + 16 ≡ n + 8 + 8 = omega arith in
    let start : n + 25 ≡ n + 8 + 17 = omega arith in
    let b1 = eth_generate_header c b 0x0800 mac in
    let b2 = ip_generate_header c identfier b1 (add16 28 n) 17 ip in
    let b3 = copy b2 0x2A payload n in
    let b3_bytes =
      copy-IsBytes b2 0x2A payload n
        (ip_generate_header-IsBytes c identfier b1 (add16 28 n) 17 ip hci
          (eth_generate_header-IsBytes c b 0x0800 mac hc hb hm) hi)
        hd in
    let fields = udp_generate_header_fields b3 port remote_port (n + 8) hp hr (omega arith) in
    rw (length, area, start)
      (
        udp_generate_header_verifies b3 port remote_port (n + 8) b3_bytes (omega arith)
            (omega arith),
        fields.0,
        fields.1,
        fields.2,
        λ i h. fields.3 (0x2A + i) (omega arith) ∙ copy_inside b2 0x2A payload n i h,
      )

module _ {N A : Type 0} (env : Env N A) (mac ip : Mem) (remote_port port : ℕ) (payload : Mem)
    (s : Net N A) where
  -- The state when a datagram of `n` bytes was sent.
  abbrev pub sent : ℕ → Net N A
  sent n =
      send env (udp_packet env.config s.ip_identfier s.buffer mac ip remote_port port payload n)
        (add16 42 n) (next_identfier s)

  -- Below 32747 bytes the guard of `UdpSendDataMac` counts the data twice: a datagram goes out
  -- where 42 bytes of headers and twice its data fit the buffer, and otherwise 0 is returned and
  -- nothing is changed.
  pub udp_send_data_mac_guard :
      (n : ℕ)
      → n < 32747
      → ((42 + 2 * n ≤ env.config.net_buffer_size)
          × (udp_send_data_mac env mac ip remote_port port payload n s ≡ some (port, sent n)))
        ⊎ ((env.config.net_buffer_size < 42 + 2 * n)
            × (udp_send_data_mac env mac ip remote_port port payload n s ≡ some (0, s)))
  unfolding udp_send_data_mac
  udp_send_data_mac_guard n small =
      elim (Bool-cases (ltb env.config.net_buffer_size (guarded_length n))) [
        | inl t ↦ inr (ground arith, rw t refl)
        | inr t ↦ inl (ground arith, rw t refl)
      ]

  -- From 32747 bytes on the guard's sum wraps around 16 bits, and a datagram that does not fit the
  -- buffer is copied into it and sent, as long as twice the data less 65494 is within the size of
  -- the buffer, itself below 32747.
  pub udp_send_data_mac_overflow :
      (n : ℕ)
      → 32747 ≤ n
      → 2 * n ≤ env.config.net_buffer_size + 65494
      → env.config.net_buffer_size < 32747
      → (udp_send_data_mac env mac ip remote_port port payload n s ≡ some (port, sent n))
        × (env.config.net_buffer_size < 42 + n)
  unfolding udp_send_data_mac
  udp_send_data_mac_overflow n lo hi fits =
      elim (Bool-cases (ltb env.config.net_buffer_size (guarded_length n))) [
        | inl t ↦ absurd (ground arith)
        | inr t ↦ (rw t refl, omega arith)
      ]

-- The temporary ports go round from 49152 to 65535.
pub next_port_range :
    (p : ℕ) → 49152 ≤ p → p ≤ 65535 → (49152 ≤ next_port p) × (next_port p ≤ 65535)
next_port_range p lo hi = ground arith
