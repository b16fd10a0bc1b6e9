-- ===== src/Tests/Runs.antt =====
-- The theorems on runs of the library at a run in which a connection is opened.
use avr_net_enc28j.Base.{
  ℕ, ◌≡◌, refl, Option, none, some, inl, inr, Option-cases, arith, Mem, put, same, copy,
}
use avr_net_enc28j.Net.{Net, Env, pure}
use avr_net_enc28j.Tcp.Handle.Keeps.{CallbacksKeep}
use avr_net_enc28j.Checksum.{software_checksum, fold_carry, sum_words}
use avr_net_enc28j.Util.{chars_put_short, chars_to_short, chars_to_long}
use avr_net_enc28j.Ethernet.{receive, send}
use avr_net_enc28j.Arp.{arp_packet_is_arp}
use avr_net_enc28j.Ip.{ip_packet_is_ip, next_identfier}
use avr_net_enc28j.Icmp.{icmp_send_reply}
use avr_net_enc28j.Tcp.Segment.{
  tcp_verify_checksum, tcp_checksum, tcp_get_header_length, tcp_get_data_length,
  tcp_get_data_position, tcp_get_option_position, option_position_from, segment_size_at,
}
use avr_net_enc28j.Tcp.Table.{
  tcp_init, tcp_get_connection_id, tcp_find_connection, first_from, tcp_is_connection,
  tcp_get_empty_conenction_id, opened,
}
use avr_net_enc28j.Tcp.Table.Unique.{IsUnique}
use avr_net_enc28j.Tcp.Table.Lookup.{Belongs}
use avr_net_enc28j.Tcp.Send.{tcp_send_packet, tcp_send_buffer}
use avr_net_enc28j.Tcp.Handle.{
  tcp_handle_on, tcp_open, tcp_decide, tcp_accept, tcp_handle_incoming_packet,
}
use avr_net_enc28j.Network.{
  net_init, net_handle_network, net_handle_incoming_packet, net_dispatch, handlers,
}
use avr_net_enc28j.Network.Runs.{Reaches, begin, network, connection_is_determined}
use avr_net_enc28j.Tests.Fixtures.{env, holding, data_frame, syn_frame}

-- `syn_frame` with its checksum.
abbrev first_frame : Mem
first_frame = put (put syn_frame 0x32 104) 0x33 128

-- A chip that delivers this packet, and an application that takes every connection.
abbrev open_env : Env ℕ ℕ
open_env = record env {
  packet_receive = λ m size n. record { length = 58; buffer = first_frame; nic = n };
  tcp_on_new_connection = λ h id. pure 3;
}

open_env-CallbacksKeep : CallbacksKeep (IsUnique open_env.config) open_env
open_env-CallbacksKeep = record {
  tcp_on_new_connection = λ h keep id s u live. (u, live);
  tcp_on_connect = λ h keep id s u. u;
  tcp_on_incoming_data = λ h keep id m length s u. u;
  tcp_on_disconnect = λ h keep id s u. u;
  udp_on_incoming_datagram = λ h keep d m length s u. u;
}

started : Net ℕ ℕ
started = net_init open_env (holding data_frame)

-- The state that a call leads to; the one before where it does not come back.
left_by : Net ℕ ℕ → Option (Unit {0} × Net ℕ ℕ) → Net ℕ ℕ
left_by s none = s
left_by s (some (x, s')) = s'

left_by-Reaches :
    (depth : ℕ) (s : Net ℕ ℕ)
    → Reaches open_env s
    → Reaches open_env (left_by s (net_handle_network open_env depth s))
unfolding left_by
left_by-Reaches depth s r = elim (Option-cases (net_handle_network open_env depth s)) [
  | inl e ↦ rw (left_by, e) r
  | inr ((x, s'), e) ↦ rw (left_by, e) (network depth s s' r e)
]

opened_state : Net ℕ ℕ
opened_state = left_by started (net_handle_network open_env 0 started)

opened_state-Reaches : Reaches open_env opened_state
unfolding opened_state started
opened_state-Reaches = left_by-Reaches 0 started (begin (holding data_frame) refl)

opened_state-Belongs : Belongs first_frame (opened_state.connections 0)
unfolding opened_state left_by started net_handle_network receive net_handle_incoming_packet
    arp_packet_is_arp put ip_packet_is_ip same icmp_send_reply net_dispatch
    tcp_handle_incoming_packet tcp_verify_checksum chars_to_short tcp_checksum software_checksum
    fold_carry sum_words tcp_get_header_length tcp_get_data_length tcp_get_connection_id
    tcp_find_connection first_from tcp_is_connection tcp_get_empty_conenction_id
    tcp_get_option_position option_position_from tcp_get_data_position opened segment_size_at
    tcp_handle_on tcp_open tcp_decide tcp_accept tcp_send_packet tcp_send_buffer send copy net_init
    tcp_init chars_to_long handlers next_identfier chars_put_short
opened_state-Belongs = refl

connection_is_determined_example : ◌≡◌ {A = ℕ} 0 0
connection_is_determined_example =
    connection_is_determined open_env (omega arith) open_env-CallbacksKeep opened_state
      opened_state-Reaches first_frame 0 0 (omega arith) (omega arith) opened_state-Belongs
      opened_state-Belongs
