-- ===== src/Enc28j60/Link.antt =====
-- The driver of src/enc28j60.c under the network library: its packet functions are those of `Env`.
use avr_net_enc28j.Base.{◌-◌, ◌≤◌, ◌<◌, ◌≡◌, refl, some}
use avr_net_enc28j.Net.{Net, Env, Received}
use avr_net_enc28j.Ethernet.{receive}
use avr_net_enc28j.Enc28j60.{Spi, Driver, enc28j60_packet_receive, enc28j60_packet_send}
use avr_net_enc28j.Enc28j60.Receive.{WrittenBelow, enc28j60_packet_receive_bounds}

module _ {C A : Type 0} (spi : Spi C) (env : Env (Driver C) A) where
  unfoldable pub driver_env : Env (Driver C) A
  driver_env = record env {
    packet_receive = λ buffer size d. enc28j60_packet_receive spi buffer size d;
    packet_send =
        λ buffer length d. enc28j60_packet_send spi env.config.net_buffer_size buffer length d;
  }

  -- A frame is received inside the packet buffer, whatever the chip answers, and only the buffer and
  -- the driver change. The size of the buffer is from 1 to 65535.
  pub receive_bounds :
      (s : Net (Driver C) A)
      → 1 ≤ env.config.net_buffer_size
      → env.config.net_buffer_size < 65536
      → (r : Received (Driver C)) × (receive driver_env s
          ≡ some (r.length, record s { buffer = r.buffer; nic = r.nic }))
        × (r.length ≤ env.config.net_buffer_size - 1)
        × WrittenBelow (env.config.net_buffer_size - 1) s.buffer r.buffer
  unfolding receive driver_env
  receive_bounds s lo hi =
      let (bound, within) =
        enc28j60_packet_receive_bounds spi s.buffer env.config.net_buffer_size s.nic lo hi in
      (enc28j60_packet_receive spi s.buffer env.config.net_buffer_size s.nic, refl, bound, within)
