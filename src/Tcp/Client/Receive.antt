-- ===== src/Tcp/Client/Receive.antt =====
-- `TcpReceiveData` of src/tcp.c, with the library's own handlers, on the data that it waits for.
use avr_net_enc28j.Base.{
  ℕ, suc, ◌≤◌, ◌<◌, ◌≡◌, ◌≢◌, refl, ◌∙◌, true, false, not, ◌&&◌, ◌||◌, some, arith, leb, ◌==◌, Mem,
  offset,
}
use avr_net_enc28j.Util.{add32, chars_to_long}
use avr_net_enc28j.Net.{established, Net, Env, Handlers, ◌>>=◌}
use avr_net_enc28j.Ethernet.{
  receive, send, is_awaited, eth_type_ip, eth_wait_take, eth_wait_from, eth_wait_packet,
}
use avr_net_enc28j.Ip.{ip_packet_is_ip, ip_proto_tcp, next_identfier}
use avr_net_enc28j.Tcp.Segment.{
  has_flag, tcp_flag_ack, tcp_flag_fin, tcp_get_data_length, tcp_get_data_position,
}
use avr_net_enc28j.Tcp.Segment.Verify.{tcp_verify_checksum_restores}
use avr_net_enc28j.Tcp.Send.{tcp_send_packet, tcp_send_buffer}
use avr_net_enc28j.Tcp.Send.Packets.{tcp_packet_lengths}
use avr_net_enc28j.Tcp.Wait.{is_expected, tcp_take_expected, tcp_wait_packet}
use avr_net_enc28j.Tcp.Handle.{is_established, state_of, tcp_handle_incoming_packet}
use avr_net_enc28j.Tcp.Handle.Arrival.{IsArrival, tcp_handle_established}
use avr_net_enc28j.Tcp.Handle.Data.{
  acknowledged, acknowledged_parts, ack_in_order, tcp_data_in_order,
}
use avr_net_enc28j.Tcp.Client.{tcp_receive_from, tcp_receive_data}

module _ {N A : Type 0} (env : Env N A) (h inner : Handlers N A) (id : ℕ) (s : Net N A) where
  -- The frame that the network delivers next, and the state in which it is in the buffer.
  abbrev frame : Mem
  frame = (env.packet_receive s.buffer env.config.net_buffer_size s.nic).buffer

  abbrev frame_length : ℕ
  frame_length = (env.packet_receive s.buffer env.config.net_buffer_size s.nic).length

  abbrev pub arrived : Net N A
  arrived = record s {
    buffer = frame;
    nic = (env.packet_receive s.buffer env.config.net_buffer_size s.nic).nic;
  }

  abbrev sequence : ℕ
  sequence = (s.connections id).send_sequence

  -- The next frame is the data that is waited for: a TCP packet to this station, in order, without
  -- FIN, that acknowledges all that was sent.
  pub record IsNext : Type 0 where
    pub some_frame : (frame_length == 0) ≡ false
    pub awaited : is_awaited env eth_type_ip frame ≡ true
    pub is_tcp : (ip_packet_is_ip env.config frame && frame 0x17 == ip_proto_tcp) ≡ true
    pub arrival : IsArrival env inner id arrived
    pub expected : is_expected frame (s.connections id) sequence tcp_flag_ack ≡ true
    pub has_data : tcp_get_data_length frame ≢ 0

  -- The handler that is called for the packet in between is `TcpHandleIncomingPacket`, and its
  -- callback returns without a change.
  pub record IsHandled : Type 0 where
    pub handler :
        (length : ℕ) (t : Net N A)
        → h.tcp_handle length t ≡ tcp_handle_incoming_packet env inner length t
    pub callback :
        (m : Mem) (length : ℕ) (t : Net N A)
        → env.tcp_on_incoming_data inner id m length t ≡ some (tt, t)

  next_waited : IsNext → eth_wait_packet env h eth_type_ip 0 s ≡ some (frame_length, arrived)
  unfolding eth_wait_packet eth_wait_from eth_wait_take receive
  next_waited n = rw (◌>>=◌, n.some_frame, n.awaited) refl

  -- The state that the handler leaves: the data is acknowledged.
  abbrev taken : Net N A
  taken = acknowledged env inner id (tcp_get_data_length frame) arrived

  next_handled :
      IsNext
      → IsHandled
      → id ≢ 255
      → state_of env s id ≡ established
      → h.tcp_handle frame_length arrived ≡ some (tt, taken)
  unfolding is_expected
  next_handled n k valid est =
      let in_order : chars_to_long (offset frame 0x26) ≡ (s.connections id).expected_sequence =
        let e = n.expected in ground arith in
      k.handler frame_length arrived
      ∙ tcp_handle_established env inner id frame_length arrived valid n.arrival est
      ∙ (tcp_data_in_order env inner id arrived est n.has_data in_order).0
      ∙ k.callback _ _ _

  take_next :
      IsNext
      → IsHandled
      → id ≢ 255
      → state_of env s id ≡ established
      → tcp_take_expected env h id sequence tcp_flag_ack frame_length arrived ≡ some (true, taken)
  unfolding tcp_take_expected
  take_next n k valid est =
      let more : (not (tcp_get_data_length frame == 0) || has_flag (frame 0x2F) tcp_flag_fin)
          ≡ true =
        let some_data = n.has_data in ground arith in
      let all_sent : (sequence == sequence) ≡ true = ground arith in
      rw (more, all_sent, ◌>>=◌, next_handled n k valid est) refl

  wait_next :
      IsNext
      → IsHandled
      → id ≢ 255
      → state_of env s id ≡ established
      → tcp_wait_packet env h id sequence tcp_flag_ack s ≡ some (true, taken)
  unfolding tcp_wait_packet
  wait_next n k valid est =
      let restored = tcp_verify_checksum_restores frame n.arrival.bytes in
      rw (◌>>=◌, next_waited n, n.some_frame, n.is_tcp, n.arrival.verified, restored, n.expected)
        (take_next n k valid est)

  taken_header :
      (tcp_get_data_position taken.buffer ≡ 0x36) × (tcp_get_data_length taken.buffer ≡ 0)
  unfolding tcp_send_packet tcp_send_buffer send next_identfier
  taken_header = (
    (acknowledged_parts env inner id (tcp_get_data_length frame) arrived).0,
    (tcp_packet_lengths env.config _ _ _ _ 0x10 0 (omega arith)).0,
  )

  -- `TcpReceiveData` hands over no byte of the data that it has waited for. The next frame is a TCP
  -- packet with data for this station and its established connection, found in the table, with a right
  -- checksum and without FIN, in order, and it acknowledges all that was sent: the result says
  -- position 0x36 and length 0, and the data counts as received. For the handler, called in between,
  -- which is `TcpHandleIncomingPacket`, has by then given it to the callback, and the lengths are read
  -- from the acknowledgement. The callback changes nothing, and there are at most 255 connections.
  pub tcp_receive_data_empty :
      (timeout fuel : ℕ)
      → id < env.config.tcp_max_connections
      → env.config.tcp_max_connections ≤ 255
      → state_of env s id ≡ established
      → IsNext
      → IsHandled
      → (s' : Net N A) × (tcp_receive_data env h id timeout (suc fuel) s
          ≡ some (some (0x36, 0), s'))
        × ((s'.connections id).expected_sequence
            ≡ add32 (s.connections id).expected_sequence (tcp_get_data_length frame))
  unfolding tcp_receive_data tcp_receive_from
  tcp_receive_data_empty timeout fuel here few est n k =
      let inside : leb env.config.tcp_max_connections id ≡ false = ground arith in
      let live : not (is_established (s.connections id).state) ≡ false = rw est refl in
      let waited = wait_next n k (omega arith) est in
      let (position, none_left) = taken_header in
      let (at, sum, left) = acknowledged_parts env inner id 0 taken in
      let told : ((taken.connections id).expected_sequence
            == (taken.connections id).expected_sequence)
          ≡ true =
        ground arith in
      let answered =
        ack_in_order env inner id (taken.connections id).expected_sequence 0 taken told in
      let counted = (acknowledged_parts env inner id (tcp_get_data_length frame) arrived).1 in
      (
        acknowledged env inner id 0 taken,
        rw (inside, live, ◌>>=◌, waited, none_left, answered, position, none_left) refl,
        sum ∙ rw counted (omega arith),
      )
