-- ===== src/Tests/Waiting.antt =====
-- The theorems on the calls that wait for packets, with the library's own handlers, on a network that
-- delivers one ping after the other.
use avr_net_enc28j.Base.{ℕ, ◌≡◌, refl, some, arith, put}
use avr_net_enc28j.Checksum.{software_checksum, sum_words, fold_carry}
use avr_net_enc28j.Util.{chars_to_short, chars_put_short}
use avr_net_enc28j.Net.{no_connection, Net, Env, Handlers}
use avr_net_enc28j.Net.Calls.{Ends, OnNic, Arrived, NetEnds, TcpEnds}
use avr_net_enc28j.Ethernet.{eth_wait_packet}
use avr_net_enc28j.Ethernet.Wait.{eth_wait_packet-Ends}
use avr_net_enc28j.Tcp.Segment.{
  tcp_get_data_length, tcp_get_header_length, tcp_verify_checksum, tcp_checksum,
}
use avr_net_enc28j.Tcp.Table.Kept.{HasSize, HasSize-IsKept}
use avr_net_enc28j.Tcp.Handle.Keeps.{CallbacksKeep}
use avr_net_enc28j.Tcp.Wait.{tcp_close}
use avr_net_enc28j.Tcp.Wait.Close.{tcp_close_frees}
use avr_net_enc28j.Tcp.Client.{tcp_send_data}
use avr_net_enc28j.Tcp.Client.Segments.{tcp_send_data_comes_back}
use avr_net_enc28j.Network.{handlers}
use avr_net_enc28j.Network.Keeps.{handlers-Keeps}
use avr_net_enc28j.Network.Quiet.{IsQuiet, handlers-NetEnds, handlers-TcpEnds}
use avr_net_enc28j.Tests.Fixtures.{
  our_config, env, holding, data_frame, ping_frame, ping_frame-IsBytes,
}

-- A chip that delivers pings, and counts the frames sent.
abbrev pinging : Env ℕ ℕ
pinging = record env {
  packet_receive = λ m size n. record { length = 60; buffer = ping_frame; nic = n };
}

-- The chip may be in any state.
abbrev Any : ℕ → Type 0
Any n = Unit {0}

ping_frame-IsQuiet : IsQuiet 60 ping_frame
unfolding tcp_verify_checksum tcp_checksum tcp_get_data_length tcp_get_header_length chars_to_short
    chars_put_short put software_checksum sum_words fold_carry
ping_frame-IsQuiet = (ping_frame-IsBytes, refl, refl)

-- The library's handlers, for packets that arrive while one is waited for.
abbrev own : Handlers ℕ ℕ
own = handlers pinging 2

own-NetEnds : NetEnds Any IsQuiet pinging own
own-NetEnds =
    handlers-NetEnds pinging Any (λ m length n q. tt) (λ m size n q. (tt, λ nz. ping_frame-IsQuiet))
      1

own-TcpEnds : TcpEnds Any IsQuiet pinging own
own-TcpEnds = handlers-TcpEnds pinging Any (λ m length n q. tt) 1

eth_wait_packet-Ends_example :
    Ends (Arrived Any IsQuiet) (eth_wait_packet pinging own 0x0806 100 (holding data_frame))
eth_wait_packet-Ends_example =
    eth_wait_packet-Ends pinging own 0x0806 100 Any IsQuiet own-NetEnds (omega arith)
      (holding data_frame) tt

tcp_close_frees_example :
    (s' : Net ℕ ℕ) × (tcp_close pinging own 0 1000 (holding data_frame) ≡ some (tt, s'))
    × ((s'.connections 0).state ≡ no_connection)
    × Unit {0}
tcp_close_frees_example =
    tcp_close_frees pinging own Any IsQuiet own-NetEnds own-TcpEnds 0 1000 (omega arith)
      (holding data_frame) tt

pinging-CallbacksKeep : CallbacksKeep (HasSize 0) pinging
pinging-CallbacksKeep = record {
  tcp_on_new_connection = λ h keep id s u live. (u, live);
  tcp_on_connect = λ h keep id s u. u;
  tcp_on_incoming_data = λ h keep id m length s u. u;
  tcp_on_disconnect = λ h keep id s u. u;
  udp_on_incoming_datagram = λ h keep d m length s u. u;
}

tcp_send_data_comes_back_example :
    Ends
      (OnNic Any IsQuiet)
      (tcp_send_data pinging own 0 1000 (λ s. data_frame) 2000 (holding data_frame))
tcp_send_data_comes_back_example =
    let law = HasSize-IsKept our_config 0 (omega arith) (omega arith) (omega arith) in
    tcp_send_data_comes_back pinging own 0 1000 (λ s. data_frame) Any IsQuiet own-NetEnds
      own-TcpEnds (omega arith) law (handlers-Keeps (HasSize 0) pinging law pinging-CallbacksKeep 2)
      2000 (holding data_frame) (omega arith) (omega arith) tt
