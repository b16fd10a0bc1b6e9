-- ===== src/Ethernet/Keeps.antt =====
-- `EthWaitPacket` of src/ethernet.c keeps what the packet handler keeps of the connections.
use avr_net_enc28j.Base.{ℕ, zero, suc, ◌+◌, ◌%◌, some, ltb, ◌==◌, if◌then◌else◌}
use avr_net_enc28j.Util.{add16}
use avr_net_enc28j.Net.{TcpConnection, Net, Env, Handlers, M}
use avr_net_enc28j.Net.Keeps.{if-After, OnTable, Keeps, >>=-Keeps, HandlersKeep}
use avr_net_enc28j.Ethernet.{
  receive, is_awaited, eth_wait_take, eth_wait_next, eth_wait_from, eth_wait_packet, wait_fuel,
}

module _ {N A : Type 0} (P : (ℕ → TcpConnection) → Type 0) (env : Env N A) (h : Handlers N A)
    (keep : HandlersKeep P h) (type timeout : ℕ) where
  abbrev Table : Net N A → Type 0
  Table = OnTable P

  eth_wait_take-Keeps :
      (next : M N A ℕ)
      → Keeps P next
      → (length : ℕ) → Keeps P (eth_wait_take env h type timeout next length)
  unfolding eth_wait_take
  eth_wait_take-Keeps next kn length s p =
      if-After Table (length == 0) (next s) _ (λ e. kn s p)
        λ e.
          if-After Table (is_awaited env type s.buffer) (some (length, s)) _ (λ e'. p)
            (λ e'.
              >>=-Keeps P (h.net_handle length) (λ _. next) (keep.net_handle length) (λ _. kn) s p)

  eth_wait_from-Keeps :
      (fuel micro waiting : ℕ) → Keeps P (eth_wait_from env h type timeout fuel micro waiting)
  unfolding eth_wait_from eth_wait_next receive
  eth_wait_from-Keeps zero micro waiting s p = tt
  eth_wait_from-Keeps (suc fuel) micro waiting s p =
      let now = (micro + 1) % 256 in
      let micro' = if now == 10 then 0 else now in
      let waiting' = if now == 10 then add16 waiting 1 else waiting in
      let rest = eth_wait_from env h type timeout fuel micro' waiting' in
      eth_wait_take-Keeps (eth_wait_next env h type timeout waiting' rest)
        (λ s' p'.
          if-After Table (ltb timeout waiting') (some (0, s')) (rest s') (λ e. p')
            (λ e. eth_wait_from-Keeps fuel micro' waiting' s' p'))
        _ _ p

  pub eth_wait_packet-Keeps : Keeps P (eth_wait_packet env h type timeout)
  unfolding eth_wait_packet
  eth_wait_packet-Keeps = eth_wait_from-Keeps (wait_fuel timeout) 0 0
