-- ===== src/Tests/Example.antt =====
-- The theorems on the example application at fixed packets.
use avr_net_enc28j.Base.{
  ℕ, zero, suc, ◌+◌, ◌<◌, ◌≡◌, ◌≢◌, refl, sym, ◌∙◌, some, List, [], ◌∷◌, arith, bytes, offset, Mem,
  put, same,
}
use avr_net_enc28j.Checksum.{software_checksum, sum_words, fold_carry}
use avr_net_enc28j.Util.{chars_to_short, chars_put_short, chars_to_long}
use avr_net_enc28j.Net.Calls.{NetEnds, TcpEnds}
use avr_net_enc28j.Network
use avr_net_enc28j.Network.Quiet.{
  IsQuiet, tcp_verify_checksum-IsQuiet, handlers-net_handled, handlers-tcp_handled,
}
use avr_net_enc28j.Tcp.Table.{
  tcp_get_connection_id, tcp_find_connection, first_from, tcp_is_connection,
}
use avr_net_enc28j.Tcp.Handle.Arrival.{tcp_handle_established}
use avr_net_enc28j.Net.{no_connection, established, Net, Env, Handlers, pure}
use avr_net_enc28j.Ethernet.{send}
use avr_net_enc28j.Ip.{next_identfier}
use avr_net_enc28j.Tcp.Segment.{
  tcp_get_data_length, tcp_get_header_length, tcp_get_data_position, tcp_verify_checksum,
  tcp_checksum,
}
use avr_net_enc28j.Tcp.Send.{tcp_send_packet, tcp_send_buffer}
use avr_net_enc28j.Tcp.Wait.{tcp_close}
use avr_net_enc28j.Tcp.Handle.{tcp_handle_incoming_packet, state_of}
use avr_net_enc28j.Tcp.Handle.Data.{acknowledged, tcp_data_in_order}
use avr_net_enc28j.Example.{print, example_config}
use avr_net_enc28j.Example.Asynch.{Client, asynch_quiet, asynch_env}
use avr_net_enc28j.Example.Asynch.Printing.{bytes_from, asynch_prints_data}
use avr_net_enc28j.Example.Asynch.Closing.{closing, asynch_response_ends}
use avr_net_enc28j.Example.Asynch.Stream.{
  Stream, Arrives, HasNoEnd, handle, start, in_order, asynch_prints_in_order,
}
use avr_net_enc28j.Tests.Fixtures.{
  our_config, their_mac, their_ip, table, right_frame, right_frame-IsBytes, bytes-IsBytes,
}

-- A chip that counts the frames sent and delivers none.
abbrev driver : Env ℕ Client
driver = record {
  config = our_config;
  packet_receive = λ m size n. record { length = 0; buffer = m; nic = n };
  packet_send = λ m length n. n + 1;
  tcp_on_new_connection = λ h id. pure 2;
  tcp_on_connect = λ h id. pure tt;
  tcp_on_incoming_data = λ h id m length. pure tt;
  tcp_on_disconnect = λ h id. pure tt;
  udp_on_incoming_datagram = λ h d m length. pure 0;
}

abbrev handlers : Handlers ℕ Client
handlers = record { net_handle = λ length. pure tt; tcp_handle = λ length. pure tt }

-- The client waits for a response on connection 0.
abbrev waiting : Net ℕ Client
waiting = record {
  nic = 0;
  buffer = bytes [];
  ip_identfier = 1;
  connect_port_rotaiting = 49152;
  arp_cache = λ i. record { mac = their_mac; ip = their_ip; use_count = 0 };
  connections = table;
  app = record { stdout = []; globals = 0 };
}

ok_bytes : (j : ℕ) → j < 2 → bytes (b'O' ∷ b'K' ∷ 0 ∷ 7 ∷ []) j ≢ 0
ok_bytes zero lt z = omega arith
ok_bytes (suc zero) lt z = omega arith
ok_bytes (suc (suc j)) lt z = omega arith

-- A chip that delivers pings to this station.
abbrev ping_bytes : List ℕ
ping_bytes =
    (0x15 ∷ 8 ∷ 0x45 ∷ 0x89 ∷ 0x69 ∷ 0x99 ∷ 2 ∷ 0 ∷ 0 ∷ 0 ∷ 0 ∷ 2 ∷ 8 ∷ 0 ∷ 0x45 ∷ 0 ∷ 0 ∷ 28 ∷ 0
      ∷ 1 ∷ 0 ∷ 0 ∷ 64 ∷ 1 ∷ 0 ∷ 0 ∷ 192 ∷ 168 ∷ 0 ∷ 30 ∷ 192 ∷ 168 ∷ 0 ∷ 150 ∷ 8 ∷ 0 ∷ 0 ∷ 0 ∷ 0
      ∷ 7 ∷ 0 ∷ 1 ∷ [])

abbrev ping : Mem
ping = bytes ping_bytes

abbrev pinging : Env ℕ Client
pinging = record driver {
  packet_receive = λ m size n. record { length = 60; buffer = ping; nic = n };
}

abbrev Any : ℕ → Type 0
Any n = Unit {0}

ping-IsQuiet : IsQuiet 60 ping
unfolding tcp_verify_checksum tcp_checksum tcp_get_data_length tcp_get_header_length chars_to_short
    chars_put_short put software_checksum sum_words fold_carry
ping-IsQuiet = (bytes-IsBytes ping_bytes refl, refl, refl)

-- The library's own handlers, with the application's callbacks.
abbrev own : Handlers ℕ Client
own = Network.handlers (asynch_env pinging) 2

own-NetEnds : NetEnds Any IsQuiet (asynch_quiet pinging) own
unfolding asynch_quiet
own-NetEnds = record {
  received = λ m size n q. (tt, λ nz. ping-IsQuiet);
  net_handled = handlers-net_handled (asynch_env pinging) Any (λ m length n q. tt) 1;
}

own-TcpEnds : TcpEnds Any IsQuiet (asynch_quiet pinging) own
own-TcpEnds = record {
  sent = λ m length n q. tt;
  verified = tcp_verify_checksum-IsQuiet;
  tcp_handled = handlers-tcp_handled (asynch_env pinging) Any (λ m length n q. tt) 1;
}

asynch_response_ends_example :
    let m = bytes (b'O' ∷ b'K' ∷ 0 ∷ 7 ∷ []) in
    (t : Net ℕ Client) × ((asynch_env pinging).tcp_on_incoming_data own 0 m 4 waiting
      ≡ some (tt, t))
    × ((t.connections 0).state ≡ no_connection)
    × (tcp_close
          (asynch_quiet pinging)
          own
          0
          5000
          (closing pinging 0 (b'O' ∷ b'K' ∷ b'\n' ∷ []) waiting)
        ≡ some (tt, t))
asynch_response_ends_example =
    asynch_response_ends pinging own Any IsQuiet own-NetEnds own-TcpEnds 0
      (bytes (b'O' ∷ b'K' ∷ 0 ∷ 7 ∷ [])) waiting 4 2 tt refl (omega arith) refl (omega arith)
      ok_bytes refl

-- `right_frame` holds three bytes of data, with the sequence number that is expected.
holding : Net ℕ Client
holding = record waiting { buffer = right_frame }

right_frame-Arrives : Arrives driver handlers 0 waiting right_frame
unfolding tcp_verify_checksum tcp_checksum tcp_get_data_length tcp_get_header_length chars_to_short
    chars_put_short put software_checksum sum_words fold_carry tcp_get_connection_id
    tcp_find_connection first_from tcp_is_connection asynch_env asynch_quiet example_config same
right_frame-Arrives = record {
  bytes = right_frame-IsBytes;
  verified = refl;
  owned = refl;
  no_fin = refl;
}

data_bytes : (j : ℕ) → j < 3 → right_frame (0x36 + j) ≢ 0
unfolding put
data_bytes zero lt z = omega arith
data_bytes (suc zero) lt z = omega arith
data_bytes (suc (suc zero)) lt z = omega arith
data_bytes (suc (suc (suc j))) lt z = omega arith

read : Net ℕ Client
read =
    let s' = acknowledged (asynch_env driver) handlers 0 3 holding in
    print (bytes_from (offset s'.buffer 0x36) 0 3) s'

read_handled : tcp_handle_incoming_packet (asynch_env driver) handlers 57 holding ≡ some (tt, read)
unfolding read holding asynch_env tcp_get_data_length tcp_get_header_length chars_to_short
    chars_to_long tcp_send_packet tcp_send_buffer send next_identfier put
read_handled =
    let (called, expected, left) =
      tcp_data_in_order (asynch_env driver) handlers 0 holding refl (omega arith) refl in
    let s' = acknowledged (asynch_env driver) handlers 0 3 holding in
    tcp_handle_established (asynch_env driver) handlers 0 57 holding (omega arith)
      right_frame-Arrives refl
    ∙ called
    ∙ asynch_prints_data (asynch_quiet driver) handlers 0 (offset s'.buffer 0x36) s' refl 3
        (λ j lt z. data_bytes j lt (sym (left j) ∙ z))

read-Stream : Stream driver handlers 0 waiting (65 ∷ 66 ∷ 67 ∷ []) read
unfolding tcp_get_data_length tcp_get_header_length tcp_get_data_position chars_to_short
    chars_to_long holding put
read-Stream =
    in_order [] waiting read right_frame 57 start right_frame-Arrives (omega arith) refl refl
      data_bytes read_handled

asynch_prints_in_order_example :
    (read.app.stdout ≡ 65 ∷ 66 ∷ 67 ∷ [])
    × (state_of (asynch_env driver) read 0 ≡ established)
    × (0 ≡ read.app.globals)
    × ((read.connections 0).expected_sequence ≡ 261)
    × ((b : Mem) (length : ℕ)
        → Arrives driver handlers 0 read b
        → HasNoEnd driver handlers 0 read b
        → (t' : Net ℕ Client) × (handle driver handlers 0 length (record read { buffer = b })
            ≡ some (tt, t')))
asynch_prints_in_order_example =
    asynch_prints_in_order driver handlers 0 waiting read (65 ∷ 66 ∷ 67 ∷ []) (omega arith) refl
      refl (omega arith) read-Stream
