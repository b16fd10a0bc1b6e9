-- ===== src/Tcp/Handle/Data.antt =====
-- `TcpHandleIncomingPacket` of src/tcp.c on data.
use avr_net_enc28j.Base.{
  ℕ, ◌+◌, ◌≤◌, ◌≡◌, ◌≢◌, inr, refl, ap, ◌∙◌, true, false, not, ◌||◌, some, arith, Mem, put, copy,
  offset, ◌==◌,
}
use avr_net_enc28j.Util.{chars_to_long, add32, chars_put_short}
use avr_net_enc28j.Util.Bytes.{chars_put_short_ne}
use avr_net_enc28j.Net.{Config, TcpConnection, established, Net, Env, Handlers, ◌>>=◌}
use avr_net_enc28j.Net.Update.{update_at}
use avr_net_enc28j.Ethernet.{send, eth_generate_header}
use avr_net_enc28j.Ethernet.Frame.{eth_generate_header_outside}
use avr_net_enc28j.Ip.{next_identfier, ip_generate_header, ip_header_cleared}
use avr_net_enc28j.Ip.Header.{ip_generate_header_outside}
use avr_net_enc28j.Tcp.Segment.{tcp_get_data_length, tcp_get_data_position, tcp_get_header_length}
use avr_net_enc28j.Tcp.Send.{
  tcp_packet, tcp_packet_cleared, tcp_options, tcp_set_sequence, tcp_set_port, tcp_send_ack,
  tcp_send_packet, tcp_send_buffer, on_connection,
}
use avr_net_enc28j.Tcp.Handle.{tcp_data, state_of, is_established}

module _ (c : Config) (identfier : ℕ) (b : Mem) (k : TcpConnection) (seq : ℕ) where
  -- The headers of an acknowledgement up to the TCP header.
  ip_part : Mem
  ip_part =
      ip_generate_header c identfier (tcp_options c (eth_generate_header c b 0x0800 k.mac) 0x10) 40
        6 k.ip

  ip_part_behind : (j : ℕ) → 0x36 ≤ j → ip_part j ≡ b j
  unfolding ip_part tcp_options put
  ip_part_behind j h =
      ip_generate_header_outside c identfier _ 40 6 k.ip j (inr (omega arith))
      ∙ ground (arith, eth_generate_header_outside c b 0x0800 k.mac j)

  cleared_behind : (j : ℕ) → 0x36 ≤ j → tcp_packet_cleared c identfier b k seq 0x10 0 j ≡ ip_part j
  unfolding tcp_packet_cleared ip_part tcp_set_sequence tcp_set_port put
  cleared_behind j h = ground arith

  -- An acknowledgement is written over the 54 bytes of headers, says that its header has 20 bytes,
  -- and leaves what stands behind it in the buffer.
  ack_packet_position : tcp_get_data_position (tcp_packet c identfier b k seq 0x10 0) ≡ 0x36
  unfolding tcp_packet tcp_packet_cleared tcp_options tcp_set_sequence tcp_set_port
      tcp_get_data_position tcp_get_header_length ip_generate_header ip_header_cleared
      chars_put_short put copy
  ack_packet_position = refl

  ack_packet_behind : (j : ℕ) → 0x36 ≤ j → tcp_packet c identfier b k seq 0x10 0 j ≡ b j
  unfolding tcp_packet
  ack_packet_behind j h =
      chars_put_short_ne _ 0x32 _ j (omega arith) (omega arith)
      ∙ cleared_behind j h
      ∙ ip_part_behind j h

module _ {N A : Type 0} (env : Env N A) (h : Handlers N A) (id : ℕ) where
  -- The state after the data in `s` was acknowledged: the sequence number behind it is expected.
  abbrev pub acknowledged : ℕ → Net N A → Net N A
  acknowledged length s = tcp_send_packet env id (s.connections id).send_sequence 0x10 0 (
      on_connection env id (λ c. record c { expected_sequence = add32 c.expected_sequence length })
        s)

  pub acknowledged_parts :
      (length : ℕ) (s : Net N A)
      → let s' = acknowledged length s in
        (tcp_get_data_position s'.buffer ≡ 0x36)
        × ((s'.connections id).expected_sequence
            ≡ add32 (s.connections id).expected_sequence length)
        × ((i : ℕ) → s'.buffer (0x36 + i) ≡ s.buffer (0x36 + i))
  unfolding tcp_send_packet tcp_send_buffer send next_identfier
  acknowledged_parts length s = (
    ack_packet_position _ _ _ _ _,
    ap (λ (k : TcpConnection). k.expected_sequence) (update_at s.connections _ refl),
    λ i. ack_packet_behind _ _ _ _ _ (0x36 + i) (omega arith),
  )

  pub ack_in_order :
      (sequence length : ℕ) (s : Net N A)
      → (sequence == (s.connections id).expected_sequence) ≡ true
      → tcp_send_ack env id sequence length s ≡ some (true, acknowledged length s)
  unfolding tcp_send_ack
  ack_in_order sequence length s e = rw e refl

  ack_out_of_order :
      (sequence length : ℕ) (s : Net N A)
      → (sequence == (s.connections id).expected_sequence) ≡ false
      → tcp_send_ack env id sequence length s
        ≡ some (false, tcp_send_packet env id (s.connections id).send_sequence 0x10 0 s)
  unfolding tcp_send_ack
  ack_out_of_order sequence length s e = rw e refl

  -- The tests of `tcp_data` on a packet with data for an established connection.
  data_taken :
      (s : Net N A)
      → state_of env s id ≡ established
      → tcp_get_data_length s.buffer ≢ 0
      → (not (is_established (state_of env s id)) || tcp_get_data_length s.buffer == 0) ≡ false
  data_taken s est some_data = rw est (ground arith)

  -- Data of an established connection that is in order is acknowledged, and handed to the
  -- application once: the sequence number behind it is the one expected next. The application is
  -- given the bytes from position 0x36 of the buffer on, which the acknowledgement has left as
  -- they were, and the length of the data, which is not 0.
  pub tcp_data_in_order :
      (s : Net N A)
      → state_of env s id ≡ established
      → tcp_get_data_length s.buffer ≢ 0
      → chars_to_long (offset s.buffer 0x26) ≡ (s.connections id).expected_sequence
      → let length = tcp_get_data_length s.buffer in
        let s' = acknowledged length s in
        (tcp_data env h id s ≡ env.tcp_on_incoming_data h id (offset s'.buffer 0x36) length s')
        × ((s'.connections id).expected_sequence
            ≡ add32 (s.connections id).expected_sequence length)
        × ((i : ℕ) → s'.buffer (0x36 + i) ≡ s.buffer (0x36 + i))
  unfolding tcp_data
  tcp_data_in_order s est some_data in_order =
      let length = tcp_get_data_length s.buffer in
      let s' = acknowledged length s in
      let sequence = chars_to_long (offset s.buffer 0x26) in
      let test : (sequence == (s.connections id).expected_sequence) ≡ true = ground arith in
      (
        rw (data_taken s est some_data, ack_in_order sequence length s test, ◌>>=◌)
            (ap (λ (p : ℕ). env.tcp_on_incoming_data h id (offset s'.buffer p) length s')
              (acknowledged_parts length s).0),
        (acknowledged_parts length s).1,
        (acknowledged_parts length s).2,
      )

  -- Data of an established connection that is not the data expected, such as that of a repeated
  -- packet, is not handed to the application: the handler ends, with the number expected
  -- acknowledged again and no connection changed.
  pub tcp_data_out_of_order :
      (s : Net N A)
      → state_of env s id ≡ established
      → tcp_get_data_length s.buffer ≢ 0
      → chars_to_long (offset s.buffer 0x26) ≢ (s.connections id).expected_sequence
      → let t = tcp_send_packet env id (s.connections id).send_sequence 0x10 0 s in
        (tcp_data env h id s ≡ some (tt, t))
        × (t.connections ≡ s.connections)
        × (t.app ≡ s.app)
        × (t.nic
            ≡ env.packet_send
                (tcp_packet env.config s.ip_identfier s.buffer
                  (s.connections id)
                  (s.connections id).send_sequence
                  0x10
                  0)
                54
                s.nic)
  unfolding tcp_data tcp_send_packet tcp_send_buffer send next_identfier
  tcp_data_out_of_order s est some_data late =
      let length = tcp_get_data_length s.buffer in
      let sequence = chars_to_long (offset s.buffer 0x26) in
      let test : (sequence == (s.connections id).expected_sequence) ≡ false = ground arith in
      (
        rw (data_taken s est some_data, ack_out_of_order sequence length s test, ◌>>=◌) refl,
        refl,
        refl,
        refl,
      )
