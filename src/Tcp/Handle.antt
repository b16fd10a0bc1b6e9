-- ===== src/Tcp/Handle.antt =====
-- `TcpHandleIncomingPacket` of src/tcp.c.
pub mod Data
pub mod Arrival
pub mod Open
pub mod Keeps
use avr_net_enc28j.Base.{
  ℕ, ◌+◌, ◌%◌, Bool, true, false, not, ◌||◌, ◌&&◌, Option, none, some, ◌==◌, if◌then◌else◌, Mem,
  offset,
}
use avr_net_enc28j.Util.{chars_to_short, chars_to_long}
use avr_net_enc28j.Net.{
  Config, TcpState, no_connection, new, syn_received, established, dyeing, TcpConnection, Net, Env,
  Handlers, M, ◌>>=◌, ◌>>◌, pure, modify, net_handle_result_drop, net_handle_result_reject,
}
use avr_net_enc28j.Icmp.{icmp_send_unreachable}
use avr_net_enc28j.Tcp.Segment.{
  tcp_flag_fin, tcp_flag_syn, tcp_flag_ack, has_flag, tcp_verify_checksum, tcp_get_data_length,
  tcp_get_data_position,
}
use avr_net_enc28j.Tcp.Table.{tcp_get_connection_id, tcp_invalid_connection_id}
use avr_net_enc28j.Tcp.Send.{on_connection, tcp_send_packet, tcp_send_ack}
use avr_net_enc28j.Tcp.Wait.{tcp_close}

abbrev pub is_new : TcpState → Bool
is_new new = true
is_new _ = false

abbrev pub is_syn_received : TcpState → Bool
is_syn_received syn_received = true
is_syn_received _ = false

abbrev pub is_established : TcpState → Bool
is_established established = true
is_established _ = false

abbrev pub is_dyeing : TcpState → Bool
is_dyeing dyeing = true
is_dyeing _ = false

module _ {N A : Type 0} (env : Env N A) where
  open env use {config}

  -- `connections[id].state = state`.
  abbrev pub set_state : ℕ → TcpState → Net N A → Net N A
  set_state id state = on_connection env id (λ c. record c { state = state })

  abbrev pub state_of : Net N A → ℕ → TcpState
  state_of s id = (s.connections id).state

  module _ (h : Handlers N A) (id : ℕ) where
    -- The answer to a first packet: the connection is acknowledged.
    unfoldable pub tcp_accept : Net N A → Net N A
    tcp_accept s =
        let s' = set_state id syn_received s in
        tcp_send_packet env id (s'.connections id).send_sequence 0x12 0 s'

    -- The application's answer to a new connection.
    unfoldable pub tcp_decide : ℕ → Net N A → Net N A
    tcp_decide result s =
        if result == net_handle_result_drop
        then set_state id no_connection s
        else if result == net_handle_result_reject
        then set_state id no_connection (
            if config.with_icmp
            then icmp_send_unreachable env (s.connections id).mac (s.connections id).ip
                (chars_to_short (offset s.buffer 0x10)) s
            else s)
        else tcp_accept s

    -- `handle new connection`.
    unfoldable pub tcp_open : M N A (Unit {0})
    tcp_open s =
        if is_new (state_of s id)
        then (env.tcp_on_new_connection h id >>= λ result. modify (tcp_decide result)) s
        else some (tt, tcp_accept s)

    -- The acknowledgement that establishes a connection.
    unfoldable pub tcp_establish : M N A (Unit {0})
    tcp_establish s =
        if has_flag (s.buffer 0x2F) tcp_flag_ack && is_syn_received (state_of s id)
        then env.tcp_on_connect h id (
            on_connection env id
              (λ c. record c {
                state = established;
                send_sequence = chars_to_long (offset s.buffer 0x2A);
              })
              s)
        else some (tt, s)

    -- `handle connection close`. The Boolean says whether the handler goes on.
    unfoldable pub tcp_finish : M N A Bool
    tcp_finish s =
        if has_flag (s.buffer 0x2F) tcp_flag_fin
          && (is_established (state_of s id) || is_dyeing (state_of s id))
        then (tcp_send_ack env id (chars_to_long (offset s.buffer 0x26)) 1 >>= λ expected s'.
              if not expected
              then some (false, s')
              else if is_established (state_of s' id)
              then (modify (set_state id dyeing)
                    >> env.tcp_on_disconnect h id
                    >> tcp_close env h id 1000
                    >> pure true)
                  s'
              else some (true, s'))
            s
        else some (true, s)

    -- `handle incoming data packet`. The position of the data is read from the buffer after the
    -- acknowledgement was written over the packet's header, as in the source.
    unfoldable pub tcp_data : M N A (Unit {0})
    tcp_data s =
        let length = tcp_get_data_length s.buffer in
        if not (is_established (state_of s id)) || length == 0
        then some (tt, s)
        else (tcp_send_ack env id (chars_to_long (offset s.buffer 0x26)) length >>= λ expected s'.
              if not expected
              then some (tt, s')
              else env.tcp_on_incoming_data h id
                  (offset s'.buffer (tcp_get_data_position s'.buffer)) length s')
            s

    -- The handler on a packet of connection `id`.
    unfoldable pub tcp_handle_on : M N A (Unit {0})
    tcp_handle_on s =
        if s.buffer 0x2F == tcp_flag_syn
          && (is_new (state_of s id) || is_syn_received (state_of s id))
        then tcp_open s
        else (tcp_establish >> tcp_finish >>= λ goes_on. if goes_on then tcp_data else pure tt) s

  unfoldable pub tcp_handle_incoming_packet : Handlers N A → ℕ → M N A (Unit {0})
  tcp_handle_incoming_packet h length s =
      let (verified, b) = tcp_verify_checksum s.buffer in
      if not verified
      then some (tt, record s { buffer = b })
      else elim (tcp_get_connection_id config b s.connections) [
        | none ↦ none
        | some (id, connections) ↦
            let s' = record s { buffer = b; connections = connections } in
            if id == tcp_invalid_connection_id then some (tt, s') else tcp_handle_on h id s'
      ]
