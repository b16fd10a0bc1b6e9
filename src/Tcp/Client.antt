-- ===== src/Tcp/Client.antt =====
-- `TcpConnect`, `TcpSendData`, `TcpReceiveData` and `TcpDisconnect` of src/tcp.c. The data to
-- send is what a pointer points to, outside the packet buffer: the memory at the time of each sending.
pub mod Returns
pub mod Receive
pub mod Keeps
pub mod Segments
use avr_net_enc28j.Base.{
  ℕ, zero, suc, ◌+◌, ◌%◌, Bool, true, false, not, ◌||◌, ◌&&◌, Option, none, some, ltb, leb, ◌==◌,
  if◌then◌else◌, Mem, copy, offset,
}
use avr_net_enc28j.Util.{add16, add32, sub16}
use avr_net_enc28j.Net.{
  no_connection, new, established, dyeing, Net, Env, Handlers, M, ◌>>=◌, ◌>>◌, pure, modify,
}
use avr_net_enc28j.Arp.{arp_who_is}
use avr_net_enc28j.Udp.{next_port}
use avr_net_enc28j.Tcp.Segment.{
  tcp_flag_syn, tcp_flag_ack, tcp_get_option_position, tcp_option_max_segmet_size, segment_size_at,
  tcp_get_data_length, tcp_get_data_position,
}
use avr_net_enc28j.Tcp.Table.{tcp_get_empty_conenction_id, tcp_invalid_connection_id}
use avr_net_enc28j.Tcp.Send.{on_connection, tcp_send_packet, tcp_send_buffer, tcp_send_ack}
use avr_net_enc28j.Tcp.Wait.{tcp_wait_packet, tcp_close}
use avr_net_enc28j.Tcp.Handle.{set_state, state_of, is_established}

module _ {N A : Type 0} (env : Env N A) where
  open env use {config}

  module _ (h : Handlers N A) (id : ℕ) where
    -- What `TcpConnect` does when the second packet of the handshake is there.
    unfoldable pub tcp_connected : M N A ℕ
    tcp_connected s = elim (tcp_get_option_position s.buffer tcp_option_max_segmet_size) [
      | none ↦ none
      | some p ↦
          let size = segment_size_at config s.buffer p in
          let s' = on_connection env id (λ c. record c { max_segmet_size = size }) s in
          (tcp_send_ack env id (s'.connections id).expected_sequence 1 >>= λ expected.
          modify (set_state env id established) >> env.tcp_on_connect h id >> pure id)
            s'
    ]

    module _ (send_sequence timeout : ℕ) where
      -- The loop of `TcpConnect`.
      unfoldable pub tcp_connect_from : ℕ → ℕ → M N A ℕ
      tcp_connect_from zero waiting s = none
      tcp_connect_from (suc fuel) waiting s =
          let rest = tcp_connect_from fuel (add16 waiting 1) in
          let s' =
            if waiting % 300 == 0
            then tcp_send_packet env id send_sequence tcp_flag_syn 0 s
            else s in
          (tcp_wait_packet env h id (add32 send_sequence 1) 0x12 >>= λ answered s'.
          if answered
          then tcp_connected s'
          else if ltb timeout (add16 waiting 1)
          then some (tcp_invalid_connection_id, set_state env id no_connection s')
          else rest s')
            s'

    -- The connection that `TcpConnect` prepares, before the address of the host is known.
    unfoldable pub tcp_prepare : Mem → ℕ → Net N A → Net N A
    tcp_prepare ip remote_port s =
        let prepared =
          on_connection env id
            (λ c. record c {
              ip = copy c.ip 0 ip 4;
              port = s.connect_port_rotaiting;
              remote_port = remote_port;
              send_sequence = 2;
              expected_sequence = 0;
              state = new;
            })
            s in
        record prepared { connect_port_rotaiting = next_port s.connect_port_rotaiting }

  unfoldable pub tcp_connect : Handlers N A → Mem → ℕ → ℕ → M N A ℕ
  tcp_connect h ip remote_port timeout s =
      let id = tcp_get_empty_conenction_id config.tcp_max_connections s.connections in
      if id == tcp_invalid_connection_id
      then some (tcp_invalid_connection_id, s)
      else (arp_who_is env h ip >>= λ found s'. elim found [
        | none ↦ some (tcp_invalid_connection_id, set_state env id no_connection s')
        | some mac ↦
            let s' = on_connection env id (λ c. record c { mac = copy c.mac 0 mac 6 }) s' in
            let send_sequence = (s'.connections id).send_sequence in
            let s' =
              on_connection env id (λ c. record c { send_sequence = add32 c.send_sequence 1 }) s' in
            tcp_connect_from h id send_sequence timeout (timeout + 1) 0 s'
      ])
          (tcp_prepare h id ip remote_port s)

  module _ (h : Handlers N A) (id timeout : ℕ) (payload : Net N A → Mem) where
    -- The inner loop of `TcpSendData`, on the `length` bytes from `from` on: the value of
    -- `waiting` when the part is acknowledged, `none` for a return of 0.
    unfoldable pub tcp_send_part : ℕ → ℕ → ℕ → ℕ → Bool → ℕ → M N A (Option ℕ)
    tcp_send_part send_sequence from length zero first_try waiting s = none
    tcp_send_part send_sequence from length (suc fuel) first_try waiting s =
        let rest = tcp_send_part send_sequence from length fuel false (add16 waiting 1) in
        let s' =
          if waiting % 200 == 0 || first_try
          then tcp_send_buffer env (copy s.buffer 0x36 (offset (payload s) from) length) id
              send_sequence tcp_flag_ack length s
          else s in
        if not (is_established (state_of env s id))
        then some (none, s)
        else (tcp_wait_packet env h id (add32 send_sequence length) tcp_flag_ack >>= λ acked s'.
              if acked
              then some (some waiting, s')
              else if ltb timeout (add16 waiting 1)
              then some (none, s')
              else rest s')
            s'

    -- The outer loop of `TcpSendData`, with `from` bytes sent.
    unfoldable pub tcp_send_from : ℕ → ℕ → ℕ → ℕ → M N A Bool
    tcp_send_from data_length zero from waiting s = none
    tcp_send_from data_length (suc fuel) from waiting s =
        let c = s.connections id in
        let left = sub16 data_length from in
        let length = if ltb left c.max_segmet_size then left else c.max_segmet_size in
        let from' = add16 from length in
        let rest = tcp_send_from data_length fuel from' in
        (modify (
              on_connection env id (λ c. record c { send_sequence = add32 c.send_sequence length }))
            >> tcp_send_part c.send_sequence from length (timeout + 1) true waiting
            >>= λ sent. elim sent [
              | none ↦ pure false
              | some waiting' ↦
                  λ s'. if ltb from' data_length then rest waiting' s' else some (true, s')
            ])
          s

    unfoldable pub tcp_send_data : ℕ → M N A Bool
    tcp_send_data data_length s =
        if leb config.tcp_max_connections id
        then some (false, s)
        else if data_length == 0
        then some (false, s)
        else tcp_send_from data_length (data_length + 1) 0 0 s

  module _ (h : Handlers N A) (id timeout : ℕ) where
    -- The loop of `TcpReceiveData`: the position and the length of the data, `none` for a return
    -- of 0. With a timeout of 0 it waits without end.
    unfoldable pub tcp_receive_from : ℕ → ℕ → M N A (Option (ℕ × ℕ))
    tcp_receive_from zero waiting s = none
    tcp_receive_from (suc fuel) waiting s =
        let waiting' = if ltb 0 timeout then add16 waiting 1 else waiting in
        let rest = tcp_receive_from fuel waiting' in
        if not (is_established (state_of env s id))
        then some (none, s)
        else (tcp_wait_packet env h id (s.connections id).send_sequence tcp_flag_ack >>= λ taken s'.
              if taken
              then (let position = tcp_get_data_position s'.buffer in
                  let length = tcp_get_data_length s'.buffer in
                  (tcp_send_ack env id (s'.connections id).expected_sequence length >>= λ expected.
                  pure (some (position, length)))
                    s')
              else if ltb 0 timeout && ltb timeout waiting'
              then some (none, s')
              else rest s')
            s

    -- `TcpReceiveData`, cut off after `fuel` rounds.
    unfoldable pub tcp_receive_data : ℕ → M N A (Option (ℕ × ℕ))
    tcp_receive_data fuel s =
        if leb config.tcp_max_connections id then some (none, s) else tcp_receive_from fuel 0 s

    unfoldable pub tcp_disconnect : M N A Bool
    tcp_disconnect s =
        if leb config.tcp_max_connections id
        then some (false, s)
        else if not (is_established (state_of env s id))
        then some (false, s)
        else (modify (set_state env id dyeing)
              >> env.tcp_on_disconnect h id
              >> tcp_close env h id timeout
              >> pure true)
            s
