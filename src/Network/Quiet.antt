-- ===== src/Network/Quiet.antt =====
-- The handlers of src/network.c and src/tcp.c on ARP, pings and packets with a wrong checksum.
use avr_net_enc28j.Base.{
  ℕ, suc, Bool, true, false, not, ◌&&◌, ◌≡◌, ◌≢◌, refl, some, arith, ◌==◌, if◌then◌else◌, Mem,
  IsBytes, offset,
}
use avr_net_enc28j.Net.{Net, Env, Handlers, ◌>>=◌, pure}
use avr_net_enc28j.Net.Calls.{Ends, OnNic, if-Ends, >>=-Ends, NetEnds, TcpEnds}
use avr_net_enc28j.Ethernet.{send}
use avr_net_enc28j.Ip.{ip_packet_is_ip, ip_proto_udp, ip_proto_tcp, ip_proto_icmp, next_identfier}
use avr_net_enc28j.Arp.{arp_packet_is_arp, arp_opcode_request, arp_send_reply}
use avr_net_enc28j.Icmp.{icmp_type_echorequest, icmp_send_reply}
use avr_net_enc28j.Tcp.Segment.{tcp_verify_checksum}
use avr_net_enc28j.Tcp.Segment.Verify.{tcp_verify_checksum_restores}
use avr_net_enc28j.Tcp.Handle.Open.{tcp_handle_bad_checksum}
use avr_net_enc28j.Tcp.Handle.{tcp_handle_incoming_packet}
use avr_net_enc28j.Network.{net_dispatch, net_handle_incoming_packet, handlers}

-- Bytes that are no UDP packet, nor a TCP packet with a right checksum.
abbrev pub IsQuiet : ℕ → Mem → Type 0
IsQuiet length b =
    IsBytes b × ((tcp_verify_checksum b).0 ≡ false) × ((b 0x17 == ip_proto_udp) ≡ false)

pub tcp_verify_checksum-IsQuiet :
    (length : ℕ) (b : Mem) → IsQuiet length b → IsQuiet length (tcp_verify_checksum b).1
tcp_verify_checksum-IsQuiet length b quiet = rw (tcp_verify_checksum_restores b quiet.0) quiet

module _ {N A : Type 0} (env : Env N A) (Q : N → Type 0)
    (sent : (m : Mem) (length : ℕ) (n : N) → Q n → Q (env.packet_send m length n)) where
  module _ (h : Handlers N A) (length : ℕ) where
    tcp_handle_incoming_packet-Ends :
        (s : Net N A)
        → Q s.nic
        → IsQuiet length s.buffer
        → Ends (OnNic Q IsQuiet) (tcp_handle_incoming_packet env h length s)
    tcp_handle_incoming_packet-Ends s q (bytes, bad, no_udp) =
        ((tt, s), tcp_handle_bad_checksum env h length s bytes bad, q)

    net_dispatch-Ends :
        (s : Net N A)
        → Q s.nic
        → IsQuiet length s.buffer
        → Ends (OnNic Q IsQuiet) (net_dispatch env h length s)
    unfolding net_dispatch
    net_dispatch-Ends s q quiet =
        let no_udp : (env.config.with_udp && s.buffer 0x17 == ip_proto_udp) ≡ false =
          ground (arith, quiet.2) in
        rw no_udp (
          if-Ends (OnNic Q IsQuiet) (env.config.with_tcp && s.buffer 0x17 == ip_proto_tcp) _ _
            (tcp_handle_incoming_packet-Ends s q quiet) (λ e. ((tt, s), refl, q)))

    -- After the test for a ping: a frame that was none is still in the buffer.
    abbrev Tested : Bool → Net N A → Type 0
    Tested answered s = Q s.nic × (answered ≡ false → IsQuiet length s.buffer)

    icmp_send_reply-Ends :
        (mac ip : Mem) (s : Net N A)
        → Q s.nic
        → IsQuiet length s.buffer
        → Ends Tested (icmp_send_reply env length mac ip s)
    unfolding icmp_send_reply send next_identfier
    icmp_send_reply-Ends mac ip s q quiet =
        if-Ends Tested (not (s.buffer 0x17 == ip_proto_icmp)) (some (false, s)) _
          ((false, s), refl, (q, λ e. quiet))
          λ e.
            if-Ends Tested (not (s.buffer 0x22 == icmp_type_echorequest)) (some (false, s)) _
              ((false, s), refl, (q, λ e'. quiet))
              (λ e'. (_, refl, (sent _ _ s.nic q, λ f. absurd (cc f))))

    after_ping_test :
        (mac ip : Mem) (s : Net N A)
        → Q s.nic
        → IsQuiet length s.buffer
        → Ends (OnNic Q IsQuiet) (
            (icmp_send_reply env length mac ip >>= λ answered.
            if answered then pure tt else net_dispatch env h length)
              s)
    after_ping_test mac ip s q quiet =
        >>=-Ends Tested (OnNic Q IsQuiet) (icmp_send_reply env length mac ip) _ s
          (icmp_send_reply-Ends mac ip s q quiet)
          λ answered s' t.
            elim answered
                as (λ x.
                  (x ≡ false → IsQuiet length s'.buffer)
                  → Ends (OnNic Q IsQuiet)
                      ((if x then pure tt else net_dispatch env h length) s')) [
                        | true ↦ λ quiet'. (_, refl, t.0)
                        | false ↦ λ quiet'. net_dispatch-Ends s' t.0 (quiet' refl)
                      ]
              t.1

    net_handle_incoming_packet-Ends :
        (s : Net N A)
        → Q s.nic
        → IsQuiet length s.buffer
        → Ends (OnNic Q IsQuiet) (net_handle_incoming_packet env h length s)
    unfolding net_handle_incoming_packet arp_send_reply send
    net_handle_incoming_packet-Ends s q quiet =
        if-Ends (OnNic Q IsQuiet) (arp_packet_is_arp env.config s.buffer arp_opcode_request) _ _
          (_, refl, sent _ _ s.nic q)
          λ e.
            if-Ends (OnNic Q IsQuiet) (not (ip_packet_is_ip env.config s.buffer)) (some (tt, s)) _
              (_, refl, q)
              λ e'.
                if-Ends (OnNic Q IsQuiet) env.config.with_icmp _ _
                  (after_ping_test (offset s.buffer 6) (offset s.buffer 26) s q quiet)
                  (λ e''. net_dispatch-Ends s q quiet)

  -- The library's own handlers return from such frames, at every depth but 0.
  module _ (depth : ℕ) (length : ℕ) (s : Net N A) where
    pub handlers-net_handled :
        Q s.nic
        → IsQuiet length s.buffer
        → Ends (OnNic Q IsQuiet) ((handlers env (suc depth)).net_handle length s)
    unfolding handlers
    handlers-net_handled = net_handle_incoming_packet-Ends (handlers env depth) length s

    pub handlers-tcp_handled :
        Q s.nic
        → IsQuiet length s.buffer
        → Ends (OnNic Q IsQuiet) ((handlers env (suc depth)).tcp_handle length s)
    unfolding handlers
    handlers-tcp_handled = tcp_handle_incoming_packet-Ends (handlers env depth) length s

pub handlers-NetEnds :
    {N A : Type 0} (env : Env N A) (Q : N → Type 0)
    → ((m : Mem) (length : ℕ) (n : N) → Q n → Q (env.packet_send m length n))
    → ((m : Mem) (size : ℕ) (n : N)
        → Q n
        → let r = env.packet_receive m size n in
          Q r.nic × (r.length ≢ 0 → IsQuiet r.length r.buffer))
    → (depth : ℕ) → NetEnds Q IsQuiet env (handlers env (suc depth))
handlers-NetEnds env Q sent received depth = record {
  received = received;
  net_handled = handlers-net_handled env Q sent depth;
}

pub handlers-TcpEnds :
    {N A : Type 0} (env : Env N A) (Q : N → Type 0)
    → ((m : Mem) (length : ℕ) (n : N) → Q n → Q (env.packet_send m length n))
    → (depth : ℕ) → TcpEnds Q IsQuiet env (handlers env (suc depth))
handlers-TcpEnds env Q sent depth = record {
  sent = sent;
  verified = tcp_verify_checksum-IsQuiet;
  tcp_handled = handlers-tcp_handled env Q sent depth;
}
