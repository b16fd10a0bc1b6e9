-- ===== src/Tcp/Handle/Open.antt =====
-- `TcpHandleIncomingPacket` of src/tcp.c on refused packets and on new connections.
use avr_net_enc28j.Base.{
  ℕ, ◌≡◌, ◌≢◌, ◌⊎◌, inl, inr, refl, ap, ◌∙◌, true, false, some, arith, IsBytes, offset, ◌==◌,
  if◌then◌else◌, Bool-cases,
}
use avr_net_enc28j.Util.{chars_to_short}
use avr_net_enc28j.Net.{TcpConnection, no_connection, syn_received, Net, Env, Handlers}
use avr_net_enc28j.Net.Update.{update_at, update_ne}
use avr_net_enc28j.Icmp.{icmp_send_unreachable}
use avr_net_enc28j.Ethernet.{send}
use avr_net_enc28j.Ip.{next_identfier}
use avr_net_enc28j.Tcp.Segment.{tcp_verify_checksum}
use avr_net_enc28j.Tcp.Segment.Verify.{tcp_verify_checksum_restores}
use avr_net_enc28j.Tcp.Table.{tcp_get_connection_id}
use avr_net_enc28j.Tcp.Send.{tcp_packet, tcp_send_packet, tcp_send_buffer}
use avr_net_enc28j.Tcp.Handle.{
  tcp_handle_incoming_packet, tcp_decide, tcp_accept, set_state, state_of,
}

module _ {N A : Type 0} (env : Env N A) (h : Handlers N A) where
  -- A packet, in a buffer of bytes, whose checksum is wrong changes nothing.
  pub tcp_handle_bad_checksum :
      (length : ℕ) (s : Net N A)
      → IsBytes s.buffer
      → (tcp_verify_checksum s.buffer).0 ≡ false
      → tcp_handle_incoming_packet env h length s ≡ some (tt, s)
  unfolding tcp_handle_incoming_packet
  tcp_handle_bad_checksum length s bytes bad =
      rw bad
        (ap (λ b. some (tt, record s { buffer = b })) (tcp_verify_checksum_restores s.buffer bytes))

  -- A packet with a right checksum that belongs to no connection and opens none changes nothing.
  pub tcp_handle_no_connection :
      (length : ℕ) (s : Net N A)
      → IsBytes s.buffer
      → (tcp_verify_checksum s.buffer).0 ≡ true
      → tcp_get_connection_id env.config s.buffer s.connections ≡ some (255, s.connections)
      → tcp_handle_incoming_packet env h length s ≡ some (tt, s)
  unfolding tcp_handle_incoming_packet
  tcp_handle_no_connection length s bytes good e =
      rw (good, tcp_verify_checksum_restores s.buffer bytes, e)
        (ap (λ b. some (tt, record s { buffer = b })) (tcp_verify_checksum_restores s.buffer bytes))

  module _ (id : ℕ) where
    -- The sender of a rejected connection is told so, where ICMP is included.
    told : Net N A → Net N A
    told s =
        if env.config.with_icmp
        then icmp_send_unreachable env (s.connections id).mac (s.connections id).ip
            (chars_to_short (offset s.buffer 0x10)) s
        else s

    told_nic :
        (s : Net N A)
        → (told s).nic ≡ (
            if env.config.with_icmp
            then (icmp_send_unreachable env
                (s.connections id).mac
                (s.connections id).ip
                (chars_to_short (offset s.buffer 0x10))
                s).nic
            else s.nic)
    unfolding told
    told_nic s = elim (Bool-cases env.config.with_icmp) [ inl e ↦ rw e refl | inr e ↦ rw e refl ]

    told_connections : (s : Net N A) (j : ℕ) → (told s).connections j ≡ s.connections j
    unfolding told icmp_send_unreachable send next_identfier
    told_connections s j = elim (Bool-cases env.config.with_icmp) [
      | inl e ↦ rw e refl
      | inr e ↦ rw e refl
    ]

    decide_drop :
        (result : ℕ) (s : Net N A)
        → (result == 1) ≡ true
        → tcp_decide env h id result s ≡ set_state env id no_connection s
    unfolding tcp_decide
    decide_drop result s t = rw t refl

    decide_reject :
        (result : ℕ) (s : Net N A)
        → (result == 1) ≡ false
        → (result == 2) ≡ true
        → tcp_decide env h id result s ≡ set_state env id no_connection (told s)
    unfolding tcp_decide told
    decide_reject result s t u = rw (t, u) refl

    decide_accept :
        (result : ℕ) (s : Net N A)
        → (result == 1) ≡ false
        → (result == 2) ≡ false
        → tcp_decide env h id result s ≡ tcp_accept env h id s
    unfolding tcp_decide
    decide_accept result s t u = rw (t, u) refl

    free_now : (s : Net N A) → state_of env (set_state env id no_connection s) id ≡ no_connection
    free_now s = ap (λ (k : TcpConnection). k.state) (update_at s.connections _ refl)

    accepted :
        (s : Net N A)
        → let s' = tcp_accept env h id s in
          (state_of env s' id ≡ syn_received)
          × (s'.nic
              ≡ env.packet_send
                  (tcp_packet env.config s.ip_identfier s.buffer
                    (record (s.connections id) { state = syn_received })
                    (s.connections id).send_sequence
                    0x12
                    0)
                  58
                  s.nic)
          × ((j : ℕ) → id ≢ j → s'.connections j ≡ s.connections j)
    unfolding tcp_accept tcp_send_packet tcp_send_buffer send next_identfier
    accepted s = (
      ap (λ (k : TcpConnection). k.state) (update_at s.connections _ refl),
      ap
          (λ (k : TcpConnection).
            env.packet_send (tcp_packet env.config s.ip_identfier s.buffer k k.send_sequence 0x12 0)
              58 s.nic)
          (update_at s.connections _ refl),
      λ j ne. update_ne s.connections _ ne,
    )

    -- What the application's answer to a new connection does: on a drop the place is free again and
    -- nothing is sent; on a reject the place is free again, and the sender is told so where ICMP is
    -- included; on any other answer the connection waits for its acknowledgement, and the second
    -- packet of the handshake is sent. No other connection is changed.
    pub tcp_decide_lem :
        (result : ℕ) (s : Net N A)
        → let s' = tcp_decide env h id result s in
          (((result ≡ 1) × (state_of env s' id ≡ no_connection) × (s'.nic ≡ s.nic))
            ⊎ (((result ≡ 2)
                  × (state_of env s' id ≡ no_connection)
                  × (s'.nic ≡ (
                      if env.config.with_icmp
                      then (icmp_send_unreachable env
                          (s.connections id).mac
                          (s.connections id).ip
                          (chars_to_short (offset s.buffer 0x10))
                          s).nic
                      else s.nic)))
                ⊎ ((result ≢ 1)
                    × (result ≢ 2)
                    × (state_of env s' id ≡ syn_received)
                    × (s'.nic
                        ≡ env.packet_send
                            (tcp_packet env.config s.ip_identfier s.buffer
                              (record (s.connections id) { state = syn_received })
                              (s.connections id).send_sequence
                              0x12
                              0)
                            58
                            s.nic))))
          × ((j : ℕ) → id ≢ j → s'.connections j ≡ s.connections j)
    tcp_decide_lem result s = elim (Bool-cases (result == 1)) [
      | inl t ↦
          rw (decide_drop result s t)
            (inl (ground arith, free_now s, refl), λ j ne. update_ne s.connections _ ne)
      | inr t ↦ elim (Bool-cases (result == 2)) [
        | inl u ↦ rw (decide_reject result s t u) (
          inr (inl (ground arith, free_now (told s), told_nic s)),
          λ j ne. update_ne (told s).connections _ ne ∙ told_connections s j,
        )
        | inr u ↦ rw (decide_accept result s t u) (
          inr (inr (ground arith, ground arith, (accepted s).0, (accepted s).1)),
          λ j ne. (accepted s).2 j ne,
        )
      ]
    ]
