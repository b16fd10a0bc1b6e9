-- ===== src/Tcp/Wait.antt =====
-- `TcpWaitPacket` and `TcpClose` of src/tcp.c.
pub mod Close
pub mod Keeps
use Prim.Native.Nat.{bit_and}
use avr_net_enc28j.Base.{
  ℕ, zero, suc, ◌+◌, ◌-◌, ◌%◌, Bool, true, false, not, ◌||◌, ◌&&◌, none, some, ltb, ◌==◌,
  if◌then◌else◌, Mem, offset,
}
use avr_net_enc28j.Util.{add16, add32, chars_to_short, chars_to_long}
use avr_net_enc28j.Net.{no_connection, TcpConnection, Env, Handlers, M, ◌>>=◌, ◌>>◌, pure, modify}
use avr_net_enc28j.Ethernet.{eth_type_ip, eth_wait_packet}
use avr_net_enc28j.Ip.{ip_packet_is_ip, ip_proto_tcp}
use avr_net_enc28j.Tcp.Segment.{
  tcp_flag_fin, tcp_flag_syn, tcp_flag_ack, has_flag, tcp_verify_checksum, tcp_get_data_length,
}
use avr_net_enc28j.Tcp.Table.{tcp_is_connection}
use avr_net_enc28j.Tcp.Send.{on_connection, tcp_send_packet}

-- The packet in the buffer is the one that `TcpWaitPacket` waits for on connection `c`.
unfoldable pub is_expected : Mem → TcpConnection → ℕ → ℕ → Bool
is_expected b c expected_ack expected_flag =
    tcp_is_connection b c (chars_to_short (offset b 0x24)) (chars_to_short (offset b 0x22))
    && bit_and (255 - b 0x2F) expected_flag == 0
    && (c.expected_sequence == chars_to_long (offset b 0x26) || has_flag expected_flag tcp_flag_syn)
    && expected_ack == chars_to_long (offset b 0x2A)

module _ {N A : Type 0} (env : Env N A) where
  open env use {config}

  module _ (h : Handlers N A) (id expected_ack expected_flag : ℕ) where
    -- What `TcpWaitPacket` does with the packet waited for.
    unfoldable pub tcp_take_expected : ℕ → M N A Bool
    tcp_take_expected length s =
        let b = s.buffer in
        let s' =
          if has_flag expected_flag tcp_flag_syn
          then on_connection env id
              (λ c. record c { expected_sequence = chars_to_long (offset b 0x26) }) s
          else s in
        if (not (tcp_get_data_length b == 0) || has_flag (b 0x2F) tcp_flag_fin)
          && (s'.connections id).send_sequence == expected_ack
        then (h.tcp_handle length >> pure true) s'
        else some (true, s')

    unfoldable pub tcp_wait_packet : M N A Bool
    tcp_wait_packet = eth_wait_packet env h eth_type_ip 0 >>= λ length s.
        if length == 0
        then some (false, s)
        else if ip_packet_is_ip config s.buffer && s.buffer 0x17 == ip_proto_tcp
        then (let (verified, b) = tcp_verify_checksum s.buffer in
            let s' = record s { buffer = b } in
            if not verified
            then some (false, s')
            else if is_expected b (s'.connections id) expected_ack expected_flag
            then tcp_take_expected length s'
            else (h.tcp_handle length >> pure false) s')
        else (h.net_handle length >> pure false) s

  module _ (h : Handlers N A) (id : ℕ) where
    module _ (send_sequence timeout : ℕ) where
      -- The loop of `TcpClose`: the packet goes out again every 300 rounds.
      unfoldable pub tcp_close_from : ℕ → ℕ → M N A (Unit {0})
      tcp_close_from zero waiting s = none
      tcp_close_from (suc fuel) waiting s =
          let rest = tcp_close_from fuel (add16 waiting 1) in
          let s' =
            if waiting % 300 == 0 then tcp_send_packet env id send_sequence 0x11 0 s else s in
          (tcp_wait_packet h id (add32 send_sequence 1) tcp_flag_ack >>= λ acked s'.
          if acked
          then some (tt, s')
          else if ltb timeout (add16 waiting 1)
          then some (tt, s')
          else rest s')
            s'

    unfoldable pub tcp_close : ℕ → M N A (Unit {0})
    tcp_close timeout s =
        let send_sequence = (s.connections id).send_sequence in
        (modify (on_connection env id (λ c. record c { send_sequence = add32 c.send_sequence 1 }))
            >> tcp_close_from send_sequence timeout (timeout + 1) 0
            >> modify (on_connection env id (λ c. record c { state = no_connection })))
          s
