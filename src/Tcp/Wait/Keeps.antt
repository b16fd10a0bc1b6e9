-- ===== src/Tcp/Wait/Keeps.antt =====
-- `TcpWaitPacket` and `TcpClose` of src/tcp.c keep predicates on the table of connections.
use avr_net_enc28j.Base.{
  ℕ, zero, suc, ◌+◌, ◌%◌, ◌≡◌, refl, true, false, not, ◌&&◌, ◌||◌, some, ltb, ◌==◌, if◌then◌else◌,
  offset,
}
use avr_net_enc28j.Util.{add16, add32, chars_to_long}
use avr_net_enc28j.Net.{
  TcpState, no_connection, TcpConnection, Net, Env, Handlers, ◌>>◌, pure, modify,
}
use avr_net_enc28j.Net.Keeps.{
  OnTable, if-After, if_holds, Keeps, >>=-After, >>=-Keeps, HandlersKeep,
}
use avr_net_enc28j.Ethernet.{eth_type_ip, eth_wait_packet, send}
use avr_net_enc28j.Ethernet.Keeps.{eth_wait_packet-Keeps}
use avr_net_enc28j.Ip.{ip_packet_is_ip, ip_proto_tcp, next_identfier}
use avr_net_enc28j.Tcp.Segment.{
  tcp_flag_ack, tcp_flag_fin, tcp_flag_syn, has_flag, tcp_verify_checksum, tcp_get_data_length,
}
use avr_net_enc28j.Tcp.Table.{is_free}
use avr_net_enc28j.Tcp.Table.Kept.{IsKept}
use avr_net_enc28j.Tcp.Table.Narrow.{Narrows, Narrows-same}
use avr_net_enc28j.Tcp.Send.{on_connection, tcp_send_buffer, tcp_send_packet}
use avr_net_enc28j.Tcp.Wait.{
  is_expected, tcp_take_expected, tcp_wait_packet, tcp_close_from, tcp_close,
}

module _ {N A : Type 0} (P : (ℕ → TcpConnection) → Type 0) (env : Env N A)
    (law : IsKept env.config P) where
  abbrev Kept : Net N A → Type 0
  Kept = OnTable P

  pub on_connection-Keeps :
      (id : ℕ) (f : TcpConnection → TcpConnection) (s : Net N A)
      → Narrows (s.connections id) (f (s.connections id))
      → Kept s
      → Kept (on_connection env id f s)
  on_connection-Keeps id f s n u = law.write s.connections id (f (s.connections id)) n u

  -- A write of sequence numbers.
  pub rewrite-Keeps :
      (id : ℕ) (send_sequence expected_sequence : ℕ) (s : Net N A)
      → Kept s
      → Kept (
          on_connection env id
            (λ c. record c { send_sequence = send_sequence; expected_sequence = expected_sequence })
            s)
  rewrite-Keeps id a b s u =
      let f = λ (c : TcpConnection). record c { send_sequence = a; expected_sequence = b } in
      let c = s.connections id in
      on_connection-Keeps id f s (Narrows-same c (f c) refl refl refl refl refl (λ l. l)) u

  -- A new state, which is in use only if the old one is.
  pub state-Keeps :
      (id : ℕ) (state : TcpState) (s : Net N A)
      → (is_free state ≡ false → is_free (s.connections id).state ≡ false)
      → Kept s
      → Kept (on_connection env id (λ c. record c { state = state }) s)
  state-Keeps id state s live u =
      let f = λ (c : TcpConnection). record c { state = state } in
      let c = s.connections id in
      on_connection-Keeps id f s (Narrows-same c (f c) refl refl refl refl refl live) u

  pub tcp_send_packet-Keeps :
      (id send_sequence flags dlength : ℕ) (s : Net N A)
      → Kept s
      → Kept (tcp_send_packet env id send_sequence flags dlength s)
  unfolding tcp_send_packet tcp_send_buffer send next_identfier
  tcp_send_packet-Keeps id send_sequence flags dlength s u = u

  module _ (h : Handlers N A) (keep : HandlersKeep P h) where
    module _ (id expected_ack expected_flag : ℕ) where
      tcp_take_expected-Keeps :
          (length : ℕ) → Keeps P (tcp_take_expected env h id expected_ack expected_flag length)
      unfolding tcp_take_expected
      tcp_take_expected-Keeps length s u =
          let b = s.buffer in
          let s' : Net N A =
            if has_flag expected_flag tcp_flag_syn
            then on_connection env id
                (λ c. record c { expected_sequence = chars_to_long (offset b 0x26) }) s
            else s in
          let u' : Kept s' =
            if_holds Kept (has_flag expected_flag tcp_flag_syn) _ s
              (rewrite-Keeps id (s.connections id).send_sequence (chars_to_long (offset b 0x26)) s
                u)
              u in
          if-After Kept
            ((not (tcp_get_data_length b == 0) || has_flag (b 0x2F) tcp_flag_fin)
              && (s'.connections id).send_sequence == expected_ack)
            _ (some (true, s'))
            (λ e.
              >>=-Keeps P (h.tcp_handle length) (λ _. pure true) (keep.tcp_handle length)
                (λ _ _ w. w) s' u')
            (λ e. u')

      pub tcp_wait_packet-Keeps : Keeps P (tcp_wait_packet env h id expected_ack expected_flag)
      unfolding tcp_wait_packet
      tcp_wait_packet-Keeps =
          >>=-Keeps P (eth_wait_packet env h eth_type_ip 0) _
            (eth_wait_packet-Keeps P env h keep eth_type_ip 0)
            λ length s u.
              let b = (tcp_verify_checksum s.buffer).1 in
              let s' : Net N A = record s { buffer = b } in
              if-After Kept (length == 0) (some (false, s)) _ (λ e. u)
                λ e.
                  if-After Kept
                    (ip_packet_is_ip env.config s.buffer && s.buffer 0x17 == ip_proto_tcp) _ _
                    (λ e'.
                      if-After Kept (not (tcp_verify_checksum s.buffer).0) (some (false, s')) _
                        (λ t. u)
                        λ t.
                          if-After Kept
                            (is_expected b (s.connections id) expected_ack expected_flag) _ _
                            (λ t'. tcp_take_expected-Keeps length s' u)
                            (λ t'.
                              >>=-Keeps P (h.tcp_handle length) (λ _. pure false)
                                (keep.tcp_handle length) (λ _ _ w. w) s' u))
                    (λ e'.
                      >>=-Keeps P (h.net_handle length) (λ _. pure false) (keep.net_handle length)
                        (λ _ _ w. w) s u)

    module _ (id timeout : ℕ) where
      tcp_close_from-Keeps :
          (send_sequence fuel waiting : ℕ)
          → Keeps P (tcp_close_from env h id send_sequence timeout fuel waiting)
      unfolding tcp_close_from
      tcp_close_from-Keeps send_sequence zero waiting s u = tt
      tcp_close_from-Keeps send_sequence (suc fuel) waiting s u =
          let rest = tcp_close_from env h id send_sequence timeout fuel (add16 waiting 1) in
          >>=-Keeps P (tcp_wait_packet env h id (add32 send_sequence 1) tcp_flag_ack) _
            (tcp_wait_packet-Keeps id (add32 send_sequence 1) tcp_flag_ack)
            (λ acked s' u'.
              if-After Kept acked (some (tt, s')) _ (λ e. u')
                λ e.
                  if-After Kept (ltb timeout (add16 waiting 1)) (some (tt, s')) (rest s') (λ e'. u')
                    (λ e'. tcp_close_from-Keeps send_sequence fuel (add16 waiting 1) s' u'))
            _
            (if_holds Kept (waiting % 300 == 0) (tcp_send_packet env id send_sequence 0x11 0 s) s
              (tcp_send_packet-Keeps id send_sequence 0x11 0 s u) u)

      pub tcp_close-Keeps : Keeps P (tcp_close env h id timeout)
      unfolding tcp_close
      tcp_close-Keeps s u =
          let c = s.connections id in
          >>=-After Kept Kept
            (modify
                (on_connection env id (λ c. record c { send_sequence = add32 c.send_sequence 1 }))
              >> tcp_close_from env h id c.send_sequence timeout (timeout + 1) 0)
            (λ _. modify (on_connection env id (λ c. record c { state = no_connection }))) s
            (tcp_close_from-Keeps c.send_sequence (timeout + 1) 0 _
              (rewrite-Keeps id (add32 c.send_sequence 1) c.expected_sequence s u))
            (λ x s' u'. state-Keeps id no_connection s' (λ l. cc) u')
