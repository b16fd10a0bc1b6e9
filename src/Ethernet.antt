-- ===== src/Ethernet.antt =====
-- src/ethernet.c: the frame header, and the wait for a frame. The checksum is in `Checksum`.
pub mod Wait
pub mod Keeps
pub mod Frame
use avr_net_enc28j.Base.{
  ℕ, zero, suc, ◌+◌, ◌*◌, ◌%◌, Bool, ◌&&◌, Option, none, some, ltb, ◌==◌, if◌then◌else◌, Mem, copy,
  same, offset,
}
use avr_net_enc28j.Util.{low, high, add16, chars_put_short}
use avr_net_enc28j.Net.{Config, Net, Env, Handlers, M, ◌>>=◌, ◌>>◌, pure, Received}

abbrev pub eth_type_arp : ℕ
eth_type_arp = 0x0806

abbrev pub eth_type_ip : ℕ
eth_type_ip = 0x0800

abbrev pub eth_header_len : ℕ
eth_header_len = 14

unfoldable pub eth_generate_header : Config → Mem → ℕ → Mem → Mem
eth_generate_header c buffer type dest_mac =
    chars_put_short (copy (copy buffer 0 dest_mac 6) 6 c.net_mac 6) 12 type

unfoldable pub eth_check_type : Mem → ℕ → Bool
eth_check_type buffer type = buffer 12 == high type && buffer 13 == low type

-- Ten rounds for each millisecond of the timeout, and one millisecond more.
abbrev pub wait_fuel : ℕ → ℕ
wait_fuel timeout = 10 * (timeout + 1)

module _ {N A : Type 0} (env : Env N A) where
  -- `enc28j60_packet_receive(buffer, NET_BUFFER_SIZE)` on the library's buffer.
  unfoldable pub receive : M N A ℕ
  receive s =
      let r = env.packet_receive s.buffer env.config.net_buffer_size s.nic in
      some (r.length, record s { buffer = r.buffer; nic = r.nic })

  -- `enc28j60_packet_send(buffer, length)` with this content of the buffer.
  unfoldable pub send : Mem → ℕ → Net N A → Net N A
  send buffer length s = record s { buffer = buffer; nic = env.packet_send buffer length s.nic }

  -- The frame is of the type waited for, and addressed to this station.
  abbrev pub is_awaited : ℕ → Mem → Bool
  is_awaited type buffer = eth_check_type buffer type && same (offset buffer 0) env.config.net_mac 6

  module _ (h : Handlers N A) (type timeout : ℕ) where
    -- The end of a round of `EthWaitPacket`, with the counter as it then is.
    unfoldable pub eth_wait_next : ℕ → M N A ℕ → M N A ℕ
    eth_wait_next waiting rest s = if ltb timeout waiting then some (0, s) else rest s

    -- A frame that was received: it is the one waited for, or it is handled in between.
    unfoldable pub eth_wait_take : M N A ℕ → ℕ → M N A ℕ
    eth_wait_take next length s =
        if length == 0
        then next s
        else if is_awaited type s.buffer
        then some (length, s)
        else (h.net_handle length >> next) s

    -- The loop of `EthWaitPacket`, a round for each 100 microseconds.
    unfoldable pub eth_wait_from : ℕ → ℕ → ℕ → M N A ℕ
    eth_wait_from zero micro_waiting waiting s = none
    eth_wait_from (suc fuel) micro_waiting waiting s =
        let micro = (micro_waiting + 1) % 256 in
        let micro' = if micro == 10 then 0 else micro in
        let waiting' = if micro == 10 then add16 waiting 1 else waiting in
        let rest = eth_wait_from fuel micro' waiting' in
        (receive >>= eth_wait_take (eth_wait_next waiting' rest)) s

  unfoldable pub eth_wait_packet : Handlers N A → ℕ → ℕ → M N A ℕ
  eth_wait_packet h type timeout = eth_wait_from h type timeout (wait_fuel timeout) 0 0
