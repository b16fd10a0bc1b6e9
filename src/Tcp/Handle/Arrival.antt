-- ===== src/Tcp/Handle/Arrival.antt =====
-- `TcpHandleIncomingPacket` of src/tcp.c on a packet of an established connection.
use avr_net_enc28j.Base.{
  ℕ, ◌≡◌, ◌≢◌, refl, ap, ◌∙◌, true, false, ◌&&◌, ◌||◌, some, arith, IsBytes, ◌==◌,
}
use avr_net_enc28j.Net.{established, Net, Env, Handlers, ◌>>=◌}
use avr_net_enc28j.Tcp.Segment.{
  has_flag, tcp_flag_ack, tcp_flag_fin, tcp_flag_syn, tcp_verify_checksum, tcp_get_data_length,
}
use avr_net_enc28j.Tcp.Segment.Verify.{tcp_verify_checksum_restores}
use avr_net_enc28j.Tcp.Table.{tcp_get_connection_id, tcp_invalid_connection_id}
use avr_net_enc28j.Tcp.Handle.{
  is_new, is_syn_received, state_of, tcp_establish, tcp_finish, tcp_data, tcp_handle_on,
  tcp_handle_incoming_packet,
}

module _ {N A : Type 0} (env : Env N A) (h : Handlers N A) (id : ℕ) where
  -- A packet in a buffer of bytes, with a right checksum and without FIN, of connection `id`, which is
  -- in the table.
  pub record IsArrival (s : Net N A) : Type 0 where
    pub bytes : IsBytes s.buffer
    pub verified : (tcp_verify_checksum s.buffer).0 ≡ true
    pub owned : tcp_get_connection_id env.config s.buffer s.connections ≡ some (id, s.connections)
    pub no_fin : has_flag (s.buffer 0x2F) tcp_flag_fin ≡ false

  handle_on_established :
      (s : Net N A)
      → state_of env s id ≡ established
      → has_flag (s.buffer 0x2F) tcp_flag_fin ≡ false
      → tcp_handle_on env h id s ≡ tcp_data env h id s
  unfolding tcp_handle_on tcp_establish tcp_finish
  handle_on_established s est no_fin =
      let not_opening : (s.buffer 0x2F == tcp_flag_syn
            && (is_new (state_of env s id) || is_syn_received (state_of env s id)))
          ≡ false =
        rw est (ground arith) in
      let not_establishing : (has_flag (s.buffer 0x2F) tcp_flag_ack
            && is_syn_received (state_of env s id))
          ≡ false =
        rw est (ground arith) in
      rw (not_opening, ◌>>=◌, not_establishing, no_fin) refl

  -- Such a packet goes on to the part of the handler that takes data.
  pub tcp_handle_established :
      (length : ℕ) (s : Net N A)
      → id ≢ tcp_invalid_connection_id
      → IsArrival s
      → state_of env s id ≡ established
      → tcp_handle_incoming_packet env h length s ≡ tcp_data env h id s
  unfolding tcp_handle_incoming_packet
  tcp_handle_established length s valid a est =
      let other : (id == tcp_invalid_connection_id) ≡ false = ground arith in
      rw (a.verified, tcp_verify_checksum_restores s.buffer a.bytes, a.owned, other)
        (ap (λ b. tcp_handle_on env h id (record s { buffer = b }))
            (tcp_verify_checksum_restores s.buffer a.bytes)
          ∙ handle_on_established s est a.no_fin)

  -- Without data, nothing is left to do.
  pub tcp_data_none :
      (s : Net N A) → tcp_get_data_length s.buffer ≡ 0 → tcp_data env h id s ≡ some (tt, s)
  unfolding tcp_data
  tcp_data_none s e = ground arith
