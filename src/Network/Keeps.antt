-- ===== src/Network/Keeps.antt =====
-- `NetHandleIncomingPacket` and `NetHandleNetwork` of src/network.c keep predicates on the table of
-- connections.
use avr_net_enc28j.Base.{
  ℕ, zero, suc, Bool, true, false, not, ◌&&◌, Option, some, ◌==◌, if◌then◌else◌, Mem, offset,
}
use avr_net_enc28j.Net.{TcpConnection, Net, Env, Handlers, pure}
use avr_net_enc28j.Net.Keeps.{OnTable, After, if-After, Keeps, >>=-Keeps, HandlersKeep}
use avr_net_enc28j.Ethernet.{receive, send}
use avr_net_enc28j.Ip.{ip_proto_icmp, ip_packet_is_ip, ip_proto_udp, ip_proto_tcp, next_identfier}
use avr_net_enc28j.Arp.{arp_packet_is_arp, arp_opcode_request, arp_send_reply}
use avr_net_enc28j.Icmp.{icmp_reply, icmp_type_echorequest, icmp_send_reply}
use avr_net_enc28j.Udp.Keeps.{udp_handle-Keeps}
use avr_net_enc28j.Tcp.Table.Kept.{IsKept}
use avr_net_enc28j.Tcp.Handle.Keeps.{CallbacksKeep, tcp_handle_incoming_packet-Keeps}
use avr_net_enc28j.Network.{net_dispatch, net_handle_incoming_packet, handlers, net_handle_network}

module _ {N A : Type 0} (P : (ℕ → TcpConnection) → Type 0) (env : Env N A)
    (law : IsKept env.config P) (callbacks : CallbacksKeep P env) where
  module _ (h : Handlers N A) (keep : HandlersKeep P h) (length : ℕ) where
    net_dispatch-Keeps : Keeps P (net_dispatch env h length)
    unfolding net_dispatch
    net_dispatch-Keeps s u =
        if-After (OnTable P) (env.config.with_udp && s.buffer 0x17 == ip_proto_udp) _ _
          (λ _. udp_handle-Keeps P env law callbacks h keep length s u)
          λ _.
            if-After (OnTable P) (env.config.with_tcp && s.buffer 0x17 == ip_proto_tcp) _
              (some (tt, s))
              (λ _. tcp_handle_incoming_packet-Keeps P env law callbacks h keep length s u) (λ _. u)

    icmp_send_reply-Keeps : (mac ip : Mem) → Keeps P (icmp_send_reply env length mac ip)
    unfolding icmp_send_reply send next_identfier
    icmp_send_reply-Keeps mac ip s u =
        let packet = icmp_reply env.config s.ip_identfier s.buffer length mac ip in
        let no : Option (Bool × Net N A) = some (false, s) in
        if-After (OnTable P) (not (s.buffer 0x17 == ip_proto_icmp)) no _ (λ _. u)
          λ _.
            if-After (OnTable P) (not (s.buffer 0x22 == icmp_type_echorequest)) no
              (some (true, send env packet length (next_identfier s))) (λ _. u) (λ _. u)

    net_handle-Keeps : Keeps P (net_handle_incoming_packet env h length)
    unfolding net_handle_incoming_packet arp_send_reply send
    net_handle-Keeps s u =
        let b = s.buffer in
        let mac = offset b 6 in
        let ip = offset b 26 in
        let continue =
          λ (answered : Bool). if answered then pure tt else net_dispatch env h length in
        if-After (OnTable P) (arp_packet_is_arp env.config b arp_opcode_request) _ _ (λ _. u)
          λ _.
            if-After (OnTable P) (not (ip_packet_is_ip env.config b)) (some (tt, s)) _ (λ _. u)
              λ _.
                if-After (OnTable P) env.config.with_icmp _ _
                  (λ _.
                    >>=-Keeps P (icmp_send_reply env length mac ip) continue
                      (icmp_send_reply-Keeps mac ip)
                      (λ answered s' u'.
                        elim answered as (λ b'. After (OnTable P) (continue b' s')) [
                          | true ↦ u'
                          | false ↦ net_dispatch-Keeps s' u'
                        ])
                      s u)
                  (λ _. net_dispatch-Keeps s u)

  -- However deep the handling of packets while others are waited for goes.
  pub handlers-Keeps : (depth : ℕ) → HandlersKeep P (handlers env depth)
  unfolding handlers
  handlers-Keeps zero = record { net_handle = λ _ _ _. tt; tcp_handle = λ _ _ _. tt }
  handlers-Keeps (suc depth) =
      let inner = handlers-Keeps depth in
      record {
        net_handle = net_handle-Keeps (handlers env depth) inner;
        tcp_handle =
            tcp_handle_incoming_packet-Keeps P env law callbacks (handlers env depth) inner;
      }

  pub net_handle_network-Keeps : (depth : ℕ) → Keeps P (net_handle_network env depth)
  unfolding net_handle_network receive
  net_handle_network-Keeps depth =
      >>=-Keeps P (receive env) _ (λ _ u. u)
        λ length s u.
          elim (length == 0)
            as (λ b. After (OnTable P) (
              (if b then pure tt else net_handle_incoming_packet env (handlers env depth) length)
                s)) [
                  | true ↦ u
                  | false ↦ net_handle-Keeps (handlers env depth) (handlers-Keeps depth) length s u
                ]
