-- ===== src/Udp/Keeps.antt =====
-- `UdpSendData`, `UdpSendDataTmpPort` and `UdpReceiveData` of src/udp.c, and the handler of datagrams,
-- keep predicates on the table of connections.
use avr_net_enc28j.Base.{
  ℕ, zero, suc, ◌+◌, ◌&&◌, Option, none, some, ltb, ◌==◌, if◌then◌else◌, Mem, offset,
}
use avr_net_enc28j.Util.{add16, sub16, chars_to_short}
use avr_net_enc28j.Net.{
  TcpConnection, UdpDatagram, Env, Handlers, M, pure, net_handle_result_reject,
}
use avr_net_enc28j.Net.Keeps.{OnTable, After, if-After, Keeps, >>=-Keeps, HandlersKeep}
use avr_net_enc28j.Ethernet.{eth_type_ip, eth_wait_packet, send, eth_header_len}
use avr_net_enc28j.Ethernet.Keeps.{eth_wait_packet-Keeps}
use avr_net_enc28j.Ip.{ip_packet_is_ip, ip_proto_udp, next_identfier, ip_header_len}
use avr_net_enc28j.Arp.{arp_who_is}
use avr_net_enc28j.Arp.Keeps.{arp_who_is-Keeps}
use avr_net_enc28j.Tcp.Table.Kept.{IsKept}
use avr_net_enc28j.Tcp.Handle.Keeps.{CallbacksKeep, icmp_send_unreachable-Keeps}
use avr_net_enc28j.Udp.{
  guarded_length, is_reply, next_port, udp_handle_incoming_packet, udp_header_len, udp_packet,
  udp_receive_data, udp_receive_from, udp_send_data, udp_send_data_mac, udp_send_data_tmp_port,
}

module _ {N A : Type 0} (P : (ℕ → TcpConnection) → Type 0) (env : Env N A)
    (law : IsKept env.config P) (callbacks : CallbacksKeep P env) (h : Handlers N A)
    (keep : HandlersKeep P h) where
  pub udp_handle-Keeps : (length : ℕ) → Keeps P (udp_handle_incoming_packet env h length)
  unfolding udp_handle_incoming_packet
  udp_handle-Keeps length s u =
      let b = s.buffer in
      let datagram : UdpDatagram = record {
        mac = offset b 6;
        ip = offset b 26;
        port = chars_to_short (offset b 0x24);
        remote_port = chars_to_short (offset b 0x22);
      } in
      let size = sub16 (chars_to_short (offset b 0x26)) udp_header_len in
      >>=-Keeps P (env.udp_on_incoming_datagram h datagram (offset b 0x2A) size) _
        (callbacks.udp_on_incoming_datagram h keep datagram (offset b 0x2A) size)
        (λ result s' u'.
          if-After (OnTable P) (result == net_handle_result_reject && env.config.with_icmp) _
            (some (tt, s'))
            (λ _.
              icmp_send_unreachable-Keeps P env law datagram.mac datagram.ip
                (chars_to_short (offset s'.buffer 0x10)) s' u')
            (λ _. u'))
        s u

  udp_send_data_mac-Keeps :
      (mac ip : Mem) (remote_port port : ℕ) (payload : Mem) (data_length : ℕ)
      → Keeps P (udp_send_data_mac env mac ip remote_port port payload data_length)
  unfolding udp_send_data_mac send next_identfier
  udp_send_data_mac-Keeps mac ip remote_port port payload data_length s u =
      let b =
        udp_packet env.config s.ip_identfier s.buffer mac ip remote_port port payload data_length in
      let length = add16 (eth_header_len + ip_header_len + udp_header_len) data_length in
      if-After (OnTable P) (ltb env.config.net_buffer_size (guarded_length data_length))
        (some (0, s)) (some (port, send env b length (next_identfier s))) (λ _. u) (λ _. u)

  pub udp_send_data-Keeps :
      (ip : Mem) (remote_port port : ℕ) (payload : Mem) (data_length : ℕ)
      → Keeps P (udp_send_data env h ip remote_port port payload data_length)
  unfolding udp_send_data
  udp_send_data-Keeps ip remote_port port payload data_length =
      let next : Option Mem → M N A ℕ = λ found. elim found [
        | none ↦ pure 0
        | some mac ↦ udp_send_data_mac env mac ip remote_port port payload data_length
      ] in
      >>=-Keeps P (arp_who_is env h ip) next (arp_who_is-Keeps P env h keep ip) λ found s u.
        elim found as (λ (o : Option Mem). After (OnTable P) (next o s)) [
          | none ↦ u
          | some mac ↦ udp_send_data_mac-Keeps mac ip remote_port port payload data_length s u
        ]

  pub udp_send_data_tmp_port-Keeps :
      (ip : Mem) (remote_port : ℕ) (payload : Mem) (data_length : ℕ)
      → Keeps P (udp_send_data_tmp_port env h ip remote_port payload data_length)
  unfolding udp_send_data_tmp_port
  udp_send_data_tmp_port-Keeps ip remote_port payload data_length s u =
      udp_send_data-Keeps ip remote_port (next_port s.connect_port_rotaiting) payload data_length _
        u

  udp_receive_from-Keeps :
      (ip : Mem) (remote_port port timeout fuel waiting : ℕ)
      → Keeps P (udp_receive_from env h ip remote_port port timeout fuel waiting)
  unfolding udp_receive_from
  udp_receive_from-Keeps ip remote_port port timeout zero waiting s u = tt
  udp_receive_from-Keeps ip remote_port port timeout (suc fuel) waiting s u =
      let rest = udp_receive_from env h ip remote_port port timeout fuel (add16 waiting 1) in
      let next : M N A (Option ℕ) =
        λ s'. if ltb timeout (add16 waiting 1) then some (none, s') else rest s' in
      let next_keeps : Keeps P next = λ s' u'.
        if-After (OnTable P) (ltb timeout (add16 waiting 1)) (some (none, s')) (rest s') (λ _. u')
          (λ _. udp_receive_from-Keeps ip remote_port port timeout fuel (add16 waiting 1) s' u') in
      >>=-Keeps P (eth_wait_packet env h eth_type_ip 0) _
        (eth_wait_packet-Keeps P env h keep eth_type_ip 0)
        (λ length s' u'.
          if-After (OnTable P) (length == 0) (next s') _ (λ _. next_keeps s' u')
            λ _.
              if-After (OnTable P)
                (ip_packet_is_ip env.config s'.buffer && s'.buffer 0x17 == ip_proto_udp) _ _
                (λ _.
                  if-After (OnTable P) (is_reply env s'.buffer ip remote_port port)
                    (some (some (sub16 length 0x2A), s')) _ (λ _. u')
                    (λ _.
                      >>=-Keeps P (udp_handle_incoming_packet env h length) (λ _. next)
                        (udp_handle-Keeps length) (λ _. next_keeps) s' u'))
                (λ _.
                  >>=-Keeps P (h.net_handle length) (λ _. next) (keep.net_handle length)
                    (λ _. next_keeps) s' u'))
        s u

  pub udp_receive_data-Keeps :
      (ip : Mem) (remote_port port timeout : ℕ)
      → Keeps P (udp_receive_data env h ip remote_port port timeout)
  unfolding udp_receive_data
  udp_receive_data-Keeps ip remote_port port timeout =
      udp_receive_from-Keeps ip remote_port port timeout (timeout + 1) 0
