-- ===== src/Tests/Fixtures.antt =====
-- Two stations, a connection between them, the packets they send and an environment.
use avr_net_enc28j.Base.{
  ℕ, zero, suc, ◌+◌, ◌*◌, ◌≡◌, refl, Bool, true, ◌&&◌, List, [], ◌∷◌, arith, Mem, IsBytes, bytes,
  put, ltb, put-IsBytes,
}
use avr_net_enc28j.Net.{
  Config, no_connection, established, TcpConnection, Net, Env, Handlers, pure, modify,
}

abbrev pub our_mac : Mem
our_mac = bytes (2 ∷ 0 ∷ 0 ∷ 0 ∷ 0 ∷ 1 ∷ [])

abbrev pub their_mac : Mem
their_mac = bytes (2 ∷ 0 ∷ 0 ∷ 0 ∷ 0 ∷ 2 ∷ [])

abbrev pub our_ip : Mem
our_ip = bytes (10 ∷ 0 ∷ 0 ∷ 1 ∷ [])

abbrev pub their_ip : Mem
their_ip = bytes (10 ∷ 0 ∷ 0 ∷ 2 ∷ [])

abbrev pub our_config : Config
our_config = record {
  net_buffer_size = 600;
  tcp_max_connections = 2;
  net_arp_cache_size = 3;
  net_mac = our_mac;
  net_ip = our_ip;
  with_icmp = true;
  with_udp = true;
  with_tcp = true;
}

abbrev pub their_config : Config
their_config = record our_config { net_mac = their_mac; net_ip = their_ip }

-- An established connection from port 80 to port 4000.
abbrev pub connection : TcpConnection
connection = record {
  send_sequence = 2;
  expected_sequence = 258;
  port = 80;
  remote_port = 4000;
  max_segmet_size = 536;
  state = established;
  ip = their_ip;
  mac = their_mac;
}

abbrev pub unused : TcpConnection
unused = record connection { state = no_connection }

-- The connection in place 0, and place 1 free.
abbrev pub table : ℕ → TcpConnection
table zero = connection
table (suc i) = unused

abbrev pub empty_table : ℕ → TcpConnection
empty_table i = unused

-- The bytes 14 and up of a frame, behind a frame header from the other station to this one.
abbrev frame_with : List ℕ → List ℕ
frame_with xs = (2 ∷ 0 ∷ 0 ∷ 0 ∷ 0 ∷ 1 ∷ 2 ∷ 0 ∷ 0 ∷ 0 ∷ 0 ∷ 2 ∷ 8 ∷ 0 ∷ xs)

-- A TCP packet of the connection: header length in 32-bit words, flags, and the total length.
abbrev tcp_frame : ℕ → ℕ → ℕ → List ℕ → List ℕ
tcp_frame total words flags behind = frame_with (
    0x45
    ∷ 0
    ∷ 0
    ∷ total
    ∷ 0
    ∷ 1
    ∷ 0
    ∷ 0
    ∷ 64
    ∷ 6
    ∷ 0
    ∷ 0
    ∷ 10
    ∷ 0
    ∷ 0
    ∷ 2
    ∷ 10
    ∷ 0
    ∷ 0
    ∷ 1
    ∷ 0x0F
    ∷ 0xA0
    ∷ 0
    ∷ 80
    ∷ 0
    ∷ 0
    ∷ 1
    ∷ 2
    ∷ 0
    ∷ 0
    ∷ 0
    ∷ 2
    ∷ words * 16
    ∷ flags
    ∷ 0x10
    ∷ 0
    ∷ 0
    ∷ 0
    ∷ 0
    ∷ 0
    ∷ behind)

-- Three bytes of data, in order.
abbrev pub data_frame : Mem
data_frame = bytes (tcp_frame 43 5 0x18 (65 ∷ 66 ∷ 67 ∷ []))

-- The same with its checksum.
abbrev pub right_frame : Mem
right_frame = put (put data_frame 0x32 246) 0x33 144

-- A first packet that asks for segments of 100 bytes.
abbrev pub syn_frame : Mem
syn_frame = bytes (tcp_frame 44 6 0x02 (2 ∷ 4 ∷ 0 ∷ 100 ∷ []))

-- A first packet with a filler and a window scale before the segment size.
abbrev pub options_frame : Mem
options_frame = bytes (tcp_frame 48 7 0x02 (1 ∷ 3 ∷ 3 ∷ 0 ∷ 2 ∷ 4 ∷ 0 ∷ 100 ∷ []))

-- A first packet with an option of length 0.
abbrev pub bad_syn_frame : Mem
bad_syn_frame = bytes (tcp_frame 44 6 0x02 (8 ∷ 0 ∷ 0 ∷ 0 ∷ []))

-- A ping with the data 65, 66.
abbrev pub ping_frame : Mem
ping_frame = bytes (
    frame_with (
      0x45 ∷ 0 ∷ 0 ∷ 46 ∷ 0 ∷ 1 ∷ 0 ∷ 0 ∷ 64 ∷ 1 ∷ 0 ∷ 0 ∷ 10 ∷ 0 ∷ 0 ∷ 2 ∷ 10 ∷ 0 ∷ 0 ∷ 1 ∷ 8 ∷ 0
      ∷ 0 ∷ 0 ∷ 0 ∷ 7 ∷ 0 ∷ 1 ∷ 65 ∷ 66 ∷ []))

abbrev pub all_bytes : List ℕ → Bool
all_bytes [] = true
all_bytes (x ∷ xs) = ltb x 256 && all_bytes xs

pub bytes-IsBytes : (xs : List ℕ) → all_bytes xs ≡ true → IsBytes (bytes xs)
bytes-IsBytes [] h i = omega arith
bytes-IsBytes (x ∷ xs) h zero = ground arith
bytes-IsBytes (x ∷ xs) h (suc i) = bytes-IsBytes xs (ground arith) i

pub our_mac-IsBytes : IsBytes our_mac
our_mac-IsBytes = bytes-IsBytes (2 ∷ 0 ∷ 0 ∷ 0 ∷ 0 ∷ 1 ∷ []) refl

pub our_ip-IsBytes : IsBytes our_ip
our_ip-IsBytes = bytes-IsBytes (10 ∷ 0 ∷ 0 ∷ 1 ∷ []) refl

pub their_mac-IsBytes : IsBytes their_mac
their_mac-IsBytes = bytes-IsBytes (2 ∷ 0 ∷ 0 ∷ 0 ∷ 0 ∷ 2 ∷ []) refl

pub their_ip-IsBytes : IsBytes their_ip
their_ip-IsBytes = bytes-IsBytes (10 ∷ 0 ∷ 0 ∷ 2 ∷ []) refl

pub data_frame-IsBytes : IsBytes data_frame
data_frame-IsBytes = bytes-IsBytes (tcp_frame 43 5 0x18 (65 ∷ 66 ∷ 67 ∷ [])) refl

pub right_frame-IsBytes : IsBytes right_frame
right_frame-IsBytes =
    put-IsBytes (put data_frame 0x32 246) 0x33 144
      (put-IsBytes data_frame 0x32 246 data_frame-IsBytes)

pub bad_syn_frame-IsBytes : IsBytes bad_syn_frame
bad_syn_frame-IsBytes = bytes-IsBytes (tcp_frame 44 6 0x02 (8 ∷ 0 ∷ 0 ∷ 0 ∷ [])) refl

pub ping_frame-IsBytes : IsBytes ping_frame
ping_frame-IsBytes =
    bytes-IsBytes
      (frame_with (
        0x45 ∷ 0 ∷ 0 ∷ 46 ∷ 0 ∷ 1 ∷ 0 ∷ 0 ∷ 64 ∷ 1 ∷ 0 ∷ 0 ∷ 10 ∷ 0 ∷ 0 ∷ 2 ∷ 10 ∷ 0 ∷ 0 ∷ 1 ∷ 8 ∷ 0
        ∷ 0 ∷ 0 ∷ 0 ∷ 7 ∷ 0 ∷ 1 ∷ 65 ∷ 66 ∷ []))
      refl

-- A chip that counts the frames sent and delivers none; an application that adds up the lengths of
-- the data it is given, and rejects connections by answering 2.
abbrev pub env : Env ℕ ℕ
env = record {
  config = our_config;
  packet_receive = λ m size n. record { length = 0; buffer = m; nic = n };
  packet_send = λ m length n. n + 1;
  tcp_on_new_connection = λ h id. pure 2;
  tcp_on_connect = λ h id. pure tt;
  tcp_on_incoming_data = λ h id m length. modify (λ s. record s { app = s.app + length });
  tcp_on_disconnect = λ h id. pure tt;
  udp_on_incoming_datagram = λ h d m length. pure 0;
}

abbrev pub handlers : Handlers ℕ ℕ
handlers = record { net_handle = λ length. pure tt; tcp_handle = λ length. pure tt }

-- The station with this frame in its buffer.
abbrev pub holding : Mem → Net ℕ ℕ
holding m = record {
  nic = 0;
  buffer = m;
  ip_identfier = 1;
  connect_port_rotaiting = 49152;
  arp_cache = λ i. record { mac = their_mac; ip = their_ip; use_count = 0 };
  connections = table;
  app = 0;
}
