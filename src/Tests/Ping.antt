-- ===== src/Tests/Ping.antt =====
-- The theorem on pings at a fixed ping.
use avr_net_enc28j.Base.{ℕ, ◌≤◌, ◌≡◌, refl, true, some, arith, same, offset}
use avr_net_enc28j.Checksum.{software_checksum}
use avr_net_enc28j.Net.{Net}
use avr_net_enc28j.Ip.{ip_packet_is_ip}
use avr_net_enc28j.Network.{net_handle_incoming_packet}
use avr_net_enc28j.Network.Ping.{net_handle_ping}
use avr_net_enc28j.Tests.Fixtures.{
  env, handlers, holding, ping_frame, ping_frame-IsBytes, our_mac-IsBytes, our_ip-IsBytes,
}

net_handle_ping_example :
    (s' : Net ℕ ℕ) × (net_handle_incoming_packet env handlers 60 (holding ping_frame)
      ≡ some (tt, s'))
    × (s'.nic ≡ 1)
    × (same (offset s'.buffer 0) (offset ping_frame 6) 6 ≡ true)
    × (same (offset s'.buffer 30) (offset ping_frame 26) 4 ≡ true)
    × (same (offset s'.buffer 26) env.config.net_ip 4 ≡ true)
    × (s'.buffer 0x22 ≡ 0)
    × (software_checksum s'.buffer 0x22 26 0 ≡ 0)
    × ((i : ℕ) → 0x26 ≤ i → s'.buffer i ≡ ping_frame i)
    × (s'.connections ≡ (holding ping_frame).connections)
    × (s'.app ≡ 0)
unfolding ip_packet_is_ip same
net_handle_ping_example =
    net_handle_ping env handlers 60 (holding ping_frame) refl refl refl refl (omega arith)
      (omega arith) ping_frame-IsBytes our_mac-IsBytes our_ip-IsBytes
