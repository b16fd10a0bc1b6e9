-- ===== src/Tests/TcpHandler.antt =====
-- The theorems on the packet handler of src/tcp.c at fixed packets.
use avr_net_enc28j.Base.{ℕ, ◌+◌, ◌≡◌, ◌≢◌, ◌⊎◌, refl, some, arith, put, offset}
use avr_net_enc28j.Checksum.{software_checksum, sum_words, fold_carry}
use avr_net_enc28j.Util.{chars_to_short, chars_to_long}
use avr_net_enc28j.Net.{no_connection, syn_received}
use avr_net_enc28j.Icmp.{icmp_send_unreachable}
use avr_net_enc28j.Tcp.Segment.{
  tcp_get_data_length, tcp_get_header_length, tcp_verify_checksum, tcp_checksum,
}
use avr_net_enc28j.Tcp.Send.{tcp_send_packet, tcp_send_buffer}
use avr_net_enc28j.Ethernet.{send}
use avr_net_enc28j.Ip.{next_identfier}
use avr_net_enc28j.Tcp.Handle.{tcp_data, tcp_decide, state_of, tcp_handle_incoming_packet}
use avr_net_enc28j.Tcp.Handle.Data.{acknowledged, tcp_data_in_order}
use avr_net_enc28j.Tcp.Handle.Open.{tcp_decide_lem, tcp_handle_bad_checksum}
use avr_net_enc28j.Tests.Fixtures.{
  env, handlers, holding, table, their_mac, their_ip, data_frame, data_frame-IsBytes,
}

-- `data_frame` holds three bytes, with the sequence number that is expected.
data_frame_length : tcp_get_data_length data_frame ≡ 3
unfolding tcp_get_data_length tcp_get_header_length chars_to_short
data_frame_length = refl

tcp_data_in_order_example :
    let s' = acknowledged env handlers 0 3 (holding data_frame) in
    (tcp_data env handlers 0 (holding data_frame) ≡ some (tt, record s' { app = 3 }))
    × ((s'.connections 0).expected_sequence ≡ 261)
    × ((i : ℕ) → s'.buffer (0x36 + i) ≡ data_frame (0x36 + i))
unfolding tcp_get_data_length tcp_get_header_length chars_to_short chars_to_long tcp_send_packet
    tcp_send_buffer send next_identfier
tcp_data_in_order_example =
    tcp_data_in_order env handlers 0 (holding data_frame) refl (omega arith) refl

-- An answer that accepts the connection.
abbrev answer : ℕ
answer = 3

tcp_decide_lem_example :
    let s = holding data_frame in
    let s' = tcp_decide env handlers 0 answer s in
    (((answer ≡ 1) × (state_of env s' 0 ≡ no_connection) × (s'.nic ≡ s.nic))
      ⊎ (((answer ≡ 2)
            × (state_of env s' 0 ≡ no_connection)
            × (s'.nic
                ≡ (icmp_send_unreachable env their_mac their_ip
                    (chars_to_short (offset data_frame 0x10))
                    s).nic))
          ⊎ ((answer ≢ 1) × (answer ≢ 2) × (state_of env s' 0 ≡ syn_received) × (s'.nic ≡ 1))))
    × ((j : ℕ) → 0 ≢ j → s'.connections j ≡ table j)
tcp_decide_lem_example = tcp_decide_lem env handlers 0 answer (holding data_frame)

tcp_handle_bad_checksum_example :
    tcp_handle_incoming_packet env handlers 57 (holding data_frame) ≡ some (tt, holding data_frame)
unfolding tcp_verify_checksum tcp_checksum tcp_get_data_length tcp_get_header_length chars_to_short
    put software_checksum sum_words fold_carry
tcp_handle_bad_checksum_example =
    tcp_handle_bad_checksum env handlers 57 (holding data_frame) data_frame-IsBytes refl
