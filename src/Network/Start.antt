-- ===== src/Network/Start.antt =====
-- `NetInit` of src/network.c with the start of the chip and of HTTP.
use avr_net_enc28j.Base.{ℕ, Bool, none, some, if◌then◌else◌}
use avr_net_enc28j.Net.{Env, M}
use avr_net_enc28j.Enc28j60.{Spi, Driver}
use avr_net_enc28j.Enc28j60.Init.{enc28j60_init}
use avr_net_enc28j.Http.State.{http_init}
use avr_net_enc28j.Http.Send.{HttpApp, set_http}
use avr_net_enc28j.Network.{net_init}

module _ {C U : Type 0} (spi : Spi C) (env : Env (Driver C) (HttpApp U)) (with_http : Bool) where
  -- The chip, then the tables, then HTTP where it is included. `none` is a chip that stays busy.
  unfoldable pub net_start : ℕ → M (Driver C) (HttpApp U) (Unit {0})
  net_start fuel s =
      elim (enc28j60_init spi fuel env.config.net_buffer_size env.config.net_mac s.nic) [
        | none ↦ none
        | some d ↦
            let s' = net_init env (record s { nic = d }) in
            some (tt, if with_http then set_http http_init s' else s')
      ]
