-- ===== src/Tcp/Wait/Close.antt =====
-- `TcpWaitPacket` and `TcpClose` of src/tcp.c come back, and a closed connection's place is free.
use avr_net_enc28j.Base.{
  ℕ, zero, suc, ◌+◌, ◌≤◌, ◌<◌, ◌≡◌, refl, ap, true, false, not, ◌&&◌, ◌||◌, some, arith, ltb, ◌==◌,
  if◌then◌else◌, offset, Option, Mem, inl, inr, Bool-cases, ◌%◌,
}
use avr_net_enc28j.Util.{add16, add32, chars_to_long}
use avr_net_enc28j.Net.{no_connection, TcpConnection, Net, Env, Handlers, M, ◌>>=◌, ◌>>◌, pure}
use avr_net_enc28j.Net.Calls.{Ends, OnNic, Arrived, NetEnds, TcpEnds, if-Ends, >>=-Ends}
use avr_net_enc28j.Net.Update.{update_at}
use avr_net_enc28j.Ethernet.{eth_type_ip, eth_wait_packet}
use avr_net_enc28j.Ethernet.Wait.{eth_wait_packet-Ends}
use avr_net_enc28j.Ip.{ip_packet_is_ip, ip_proto_tcp}
use avr_net_enc28j.Tcp.Segment.{
  tcp_flag_ack, tcp_flag_fin, tcp_flag_syn, has_flag, tcp_verify_checksum, tcp_get_data_length,
}
use avr_net_enc28j.Tcp.Send.{on_connection, tcp_send_packet, tcp_send_buffer}
use avr_net_enc28j.Ethernet.{send}
use avr_net_enc28j.Ip.{next_identfier}
use avr_net_enc28j.Tcp.Wait.{
  is_expected, tcp_take_expected, tcp_wait_packet, tcp_close_from, tcp_close,
}

module _ {N A : Type 0} (env : Env N A) (h : Handlers N A) (Q : N → Type 0)
    (Fine : ℕ → Mem → Type 0) (net_ends : NetEnds Q Fine env h)
    (tcp_ends : TcpEnds Q Fine env h) where
  abbrev Here : {X : Type 0} → Option (X × Net N A) → Type 0
  Here = Ends (OnNic Q Fine)

  handled :
      {X : Type 0} (m : M N A (Unit {0})) (x : X) (s : Net N A)
      → Here (m s)
      → Here ((m >> pure x) s)
  handled m x s t =
      >>=-Ends (OnNic Q Fine) (OnNic Q Fine) m (λ _. pure x) s t (λ _ s' q. ((x, s'), refl, q))

  module _ (id expected_ack expected_flag : ℕ) where
    tcp_take_expected-Ends :
        (length : ℕ) (s : Net N A)
        → Q s.nic
        → Fine length s.buffer
        → Here (tcp_take_expected env h id expected_ack expected_flag length s)
    unfolding tcp_take_expected
    tcp_take_expected-Ends length s q fine =
        elim (Bool-cases (has_flag expected_flag tcp_flag_syn)) [
          | inl e ↦
              let s' =
                on_connection env id
                  (λ c. record c { expected_sequence = chars_to_long (offset s.buffer 0x26) }) s in
              rw e (taken s' q fine)
          | inr e ↦ rw e (taken s q fine)
        ]
      where
        taken :
            (s' : Net N A)
            → Q s'.nic
            → Fine length s'.buffer
            → Here (
                if (not (tcp_get_data_length s.buffer == 0)
                    || has_flag (s.buffer 0x2F) tcp_flag_fin)
                  && (s'.connections id).send_sequence == expected_ack
                then (h.tcp_handle length >> pure true) s'
                else some (true, s'))
        taken s' q' fine' =
            if-Ends (OnNic Q Fine)
              ((not (tcp_get_data_length s.buffer == 0) || has_flag (s.buffer 0x2F) tcp_flag_fin)
                && (s'.connections id).send_sequence == expected_ack)
              _ (some (true, s'))
              (handled (h.tcp_handle length) true s' (tcp_ends.tcp_handled length s' q' fine'))
              (λ e. ((true, s'), refl, q'))

    pub tcp_wait_packet-Ends :
        (s : Net N A) → Q s.nic → Here (tcp_wait_packet env h id expected_ack expected_flag s)
    unfolding tcp_wait_packet
    tcp_wait_packet-Ends s q =
        >>=-Ends (Arrived Q Fine) (OnNic Q Fine) (eth_wait_packet env h eth_type_ip 0) _ s
          (eth_wait_packet-Ends env h eth_type_ip 0 Q Fine net_ends (omega arith) s q)
          λ length s arrived.
            let b = (tcp_verify_checksum s.buffer).1 in
            let s' : Net N A = record s { buffer = b } in
            if-Ends (OnNic Q Fine) (length == 0) _ _ (_, refl, arrived.0)
              λ e.
                let fine : Fine length s.buffer = arrived.1 (ground arith) in
                let fine' : Fine length b = tcp_ends.verified length s.buffer fine in
                if-Ends (OnNic Q Fine)
                  (ip_packet_is_ip env.config s.buffer && s.buffer 0x17 == ip_proto_tcp) _ _
                  (if-Ends (OnNic Q Fine) (not (tcp_verify_checksum s.buffer).0) (some (false, s'))
                    _ (_, refl, arrived.0)
                    λ e'.
                      if-Ends (OnNic Q Fine)
                        (is_expected b (s.connections id) expected_ack expected_flag) _ _
                        (tcp_take_expected-Ends length s' arrived.0 fine')
                        (λ e''.
                          handled (h.tcp_handle length) false s'
                            (tcp_ends.tcp_handled length s' arrived.0 fine')))
                  (λ e'.
                    handled (h.net_handle length) false s
                      (net_ends.net_handled length s arrived.0 fine))

  pub tcp_send_buffer-OnNic :
      (m : Mem) (id send_sequence flags dlength : ℕ) (s : Net N A)
      → Q s.nic
      → Q (tcp_send_buffer env m id send_sequence flags dlength s).nic
  unfolding tcp_send_buffer send next_identfier
  tcp_send_buffer-OnNic m id send_sequence flags dlength s q = tcp_ends.sent _ _ s.nic q

  module _ (id timeout : ℕ) (small : timeout < 65535) where
    fin_sent :
        (send_sequence waiting : ℕ) (s : Net N A)
        → Q s.nic
        → Q (if waiting % 300 == 0 then tcp_send_packet env id send_sequence 0x11 0 s else s).nic
    unfolding tcp_send_packet
    fin_sent send_sequence waiting s q = elim (Bool-cases (waiting % 300 == 0)) [
      | inl e ↦ rw e (tcp_send_buffer-OnNic s.buffer id send_sequence 0x11 0 s q)
      | inr e ↦ rw e q
    ]

    tcp_close_from-Ends :
        (send_sequence fuel waiting : ℕ)
        → waiting ≤ timeout
        → timeout < fuel + waiting
        → (s : Net N A) → Q s.nic
        → Here (tcp_close_from env h id send_sequence timeout fuel waiting s)
    unfolding tcp_close_from
    tcp_close_from-Ends send_sequence zero waiting le enough s q = absurd (omega arith)
    tcp_close_from-Ends send_sequence (suc fuel) waiting le enough s q =
        >>=-Ends (OnNic Q Fine) (OnNic Q Fine)
          (tcp_wait_packet env h id (add32 send_sequence 1) tcp_flag_ack) _ _
          (tcp_wait_packet-Ends id (add32 send_sequence 1) tcp_flag_ack _
            (fin_sent send_sequence waiting s q))
          (λ acked s' q'.
            if-Ends (OnNic Q Fine) acked _ _ (_, refl, q')
              λ e.
                if-Ends (OnNic Q Fine) (ltb timeout (add16 waiting 1)) _ _ (_, refl, q')
                  λ e'.
                    tcp_close_from-Ends send_sequence fuel (add16 waiting 1) (ground arith)
                      (ground arith) s' q')

    -- `TcpClose` comes back and leaves the place of the connection free, on a network from whose
    -- frames the handlers of the packets in between return. The timeout is below 65535.
    pub tcp_close_frees :
        (s : Net N A)
        → Q s.nic
        → (s' : Net N A) × (tcp_close env h id timeout s ≡ some (tt, s'))
          × ((s'.connections id).state ≡ no_connection)
          × Q s'.nic
    unfolding tcp_close
    tcp_close_frees s q =
        let send_sequence = (s.connections id).send_sequence in
        let begun =
          on_connection env id (λ c. record c { send_sequence = add32 c.send_sequence 1 }) s in
        let ((x, after), e, q') =
          tcp_close_from-Ends send_sequence (timeout + 1) 0 (omega arith) (omega arith) begun q in
        (
          on_connection env id (λ c. record c { state = no_connection }) after,
          rw (e, ◌>>=◌) refl,
          ap (λ (k : TcpConnection). k.state) (update_at after.connections _ refl),
          q',
        )
