-- ===== src/Network.antt =====
-- src/network.c: the start, the main loop's step, and the dispatch of an incoming packet.
pub mod Ping
pub mod Start
pub mod Keeps
pub mod Quiet
pub mod Runs
use avr_net_enc28j.Base.{ℕ, zero, suc, not, ◌&&◌, none, some, ◌==◌, if◌then◌else◌, offset}
use avr_net_enc28j.Net.{Net, Env, Handlers, M, ◌>>=◌, pure}
use avr_net_enc28j.Ethernet.{receive}
use avr_net_enc28j.Ip.{ip_packet_is_ip, ip_proto_udp, ip_proto_tcp}
use avr_net_enc28j.Arp.{arp_packet_is_arp, arp_opcode_request, arp_send_reply, arp_init}
use avr_net_enc28j.Icmp.{icmp_send_reply}
use avr_net_enc28j.Udp.{udp_handle_incoming_packet}
use avr_net_enc28j.Tcp.Table.{tcp_init}
use avr_net_enc28j.Tcp.Handle.{tcp_handle_incoming_packet}

module _ {N A : Type 0} (env : Env N A) where
  open env use {config}

  -- `NetInit` behind the start of the chip.
  unfoldable pub net_init : Net N A → Net N A
  net_init s = record s {
    arp_cache = arp_init config.net_arp_cache_size s.arp_cache;
    connections =
        if config.with_tcp
        then tcp_init config.tcp_max_connections s.connections
        else s.connections;
  }

  -- The part of `NetHandleIncomingPacket` behind ARP and ping.
  unfoldable pub net_dispatch : Handlers N A → ℕ → M N A (Unit {0})
  net_dispatch h length s =
      if config.with_udp && s.buffer 0x17 == ip_proto_udp
      then udp_handle_incoming_packet env h length s
      else if config.with_tcp && s.buffer 0x17 == ip_proto_tcp
      then tcp_handle_incoming_packet env h length s
      else some (tt, s)

  unfoldable pub net_handle_incoming_packet : Handlers N A → ℕ → M N A (Unit {0})
  net_handle_incoming_packet h length s =
      let b = s.buffer in
      if arp_packet_is_arp config b arp_opcode_request
      then some (tt, arp_send_reply env (offset b 6) s)
      else if not (ip_packet_is_ip config b)
      then some (tt, s)
      else if config.with_icmp
      then (icmp_send_reply env length (offset b 6) (offset b 26) >>= λ answered.
            if answered then pure tt else net_dispatch h length)
          s
      else net_dispatch h length s

  -- The handlers, for packets that are handled while another is waited for, down to this depth.
  unfoldable pub handlers : ℕ → Handlers N A
  handlers zero = record { net_handle = λ length s. none; tcp_handle = λ length s. none }
  handlers (suc depth) =
      let inner = handlers depth in
      record {
        net_handle = net_handle_incoming_packet inner;
        tcp_handle = tcp_handle_incoming_packet env inner;
      }

  -- `NetHandleNetwork`, with this many levels of waiting inside one another.
  unfoldable pub net_handle_network : ℕ → M N A (Unit {0})
  net_handle_network depth = receive env >>= λ length.
      if length == 0 then pure tt else net_handle_incoming_packet (handlers depth) length
