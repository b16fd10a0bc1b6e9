-- ===== src/Tests/Receiving.antt =====
-- The theorem on `TcpReceiveData`, with the library's own handlers and the callbacks of
-- example/tcp_synch_client/main.c, at a packet with the data "ABC".
use avr_net_enc28j.Base.{ℕ, ◌+◌, ◌≡◌, refl, some, [], arith, put, same}
use avr_net_enc28j.Checksum.{software_checksum, sum_words, fold_carry}
use avr_net_enc28j.Util.{chars_to_short, chars_to_long, chars_put_short}
use avr_net_enc28j.Net.{Net, Env, pure}
use avr_net_enc28j.Ethernet.{eth_check_type}
use avr_net_enc28j.Ip.{ip_packet_is_ip}
use avr_net_enc28j.Tcp.Segment.{
  tcp_get_data_length, tcp_get_header_length, tcp_verify_checksum, tcp_checksum,
}
use avr_net_enc28j.Tcp.Table.{
  tcp_get_connection_id, tcp_find_connection, first_from, tcp_is_connection,
}
use avr_net_enc28j.Tcp.Wait.{is_expected}
use avr_net_enc28j.Tcp.Client.{tcp_receive_data}
use avr_net_enc28j.Tcp.Client.Receive.{IsNext, IsHandled, arrived, tcp_receive_data_empty}
use avr_net_enc28j.Tcp.Handle.Arrival.{IsArrival}
use avr_net_enc28j.Network.{handlers}
use avr_net_enc28j.Example.Synch.{
  Caller, synch_on_new_connection, synch_on_change, synch_on_incoming_data,
}
use avr_net_enc28j.Tests.Fixtures.{
  our_config, their_mac, their_ip, table, right_frame, right_frame-IsBytes,
}

-- A chip that delivers the packet.
abbrev caller : Env ℕ Caller
caller = record {
  config = our_config;
  packet_receive = λ m size n. record { length = 57; buffer = right_frame; nic = n };
  packet_send = λ m length n. n + 1;
  tcp_on_new_connection = synch_on_new_connection;
  tcp_on_connect = synch_on_change;
  tcp_on_incoming_data = synch_on_incoming_data;
  tcp_on_disconnect = synch_on_change;
  udp_on_incoming_datagram = λ h d m length. pure 0;
}

abbrev waiting : Net ℕ Caller
waiting = record {
  nic = 0;
  buffer = λ i. 0;
  ip_identfier = 1;
  connect_port_rotaiting = 49152;
  arp_cache = λ i. record { mac = their_mac; ip = their_ip; use_count = 0 };
  connections = table;
  app = record { stdout = []; globals = tt };
}

right_frame-IsArrival :
    IsArrival caller
      (handlers caller 1)
      0
      (arrived caller (handlers caller 2) (handlers caller 1) 0 waiting)
unfolding tcp_verify_checksum tcp_checksum tcp_get_data_length tcp_get_header_length chars_to_short
    chars_put_short put software_checksum sum_words fold_carry tcp_get_connection_id
    tcp_find_connection first_from tcp_is_connection same
right_frame-IsArrival = record {
  bytes = right_frame-IsBytes;
  verified = refl;
  owned = refl;
  no_fin = refl;
}

right_frame-IsNext : IsNext caller (handlers caller 2) (handlers caller 1) 0 waiting
unfolding tcp_get_data_length tcp_get_header_length chars_to_short chars_to_long put same
    eth_check_type ip_packet_is_ip is_expected tcp_is_connection
right_frame-IsNext = record {
  some_frame = refl;
  awaited = refl;
  is_tcp = refl;
  arrival = right_frame-IsArrival;
  expected = refl;
  has_data = omega arith;
}

handlers-IsHandled : IsHandled caller (handlers caller 2) (handlers caller 1) 0 waiting
unfolding handlers synch_on_incoming_data
handlers-IsHandled = record { handler = λ length t. refl; callback = λ m length t. refl }

tcp_receive_data_empty_example :
    (s' : Net ℕ Caller) × (tcp_receive_data caller (handlers caller 2) 0 60000 1 waiting
      ≡ some (some (0x36, 0), s'))
    × ((s'.connections 0).expected_sequence ≡ 261)
unfolding tcp_get_data_length tcp_get_header_length chars_to_short put
tcp_receive_data_empty_example =
    tcp_receive_data_empty caller (handlers caller 2) (handlers caller 1) 0 waiting 60000 0
      (omega arith) (omega arith) refl right_frame-IsNext handlers-IsHandled
