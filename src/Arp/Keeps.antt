-- ===== src/Arp/Keeps.antt =====
-- `ArpWhoIs` of src/arp.c keeps what the packet handler keeps of the connections.
use avr_net_enc28j.Base.{
  ℕ, Option, none, some, ◌==◌, if◌then◌else◌, Mem, offset, inl, inr, Option-cases,
}
use avr_net_enc28j.Net.{TcpConnection, Net, Env, Handlers, M, ◌>>◌}
use avr_net_enc28j.Net.Keeps.{After, if-After, if_holds, OnTable, Keeps, >>=-Keeps, HandlersKeep}
use avr_net_enc28j.Ethernet.{send, eth_type_arp, eth_wait_packet}
use avr_net_enc28j.Ethernet.Keeps.{eth_wait_packet-Keeps}
use avr_net_enc28j.Arp.{
  arp_send_request, arp_packet_is_arp, arp_opcode_reply, arp_cache_store, arp_ask, arp_lookup,
  arp_who_is,
}

module _ {N A : Type 0} (P : (ℕ → TcpConnection) → Type 0) (env : Env N A) (h : Handlers N A)
    (keep : HandlersKeep P h) (dest_ip : Mem) where
  abbrev Table : Net N A → Type 0
  Table = OnTable P

  arp_ask-Keeps : (i : ℕ) → Keeps P (arp_ask env h dest_ip i)
  unfolding arp_ask arp_send_request send
  arp_ask-Keeps i s p =
      >>=-Keeps P (eth_wait_packet env h eth_type_arp 100) _
        (eth_wait_packet-Keeps P env h keep eth_type_arp 100)
        (λ dlength s' p'.
          let mac = offset s'.buffer 6 in
          let stored : Net N A =
            if env.config.net_arp_cache_size == 0
            then s'
            else record s' { arp_cache = arp_cache_store i mac dest_ip s'.arp_cache } in
          let other : M N A (Option Mem) = h.net_handle dlength >> λ s''. some (none, s'') in
          if-After Table (dlength == 0) (some (none, s')) _ (λ _. p')
            λ _.
              if-After Table (arp_packet_is_arp env.config s'.buffer arp_opcode_reply)
                (some (some mac, stored)) (other s')
                (λ _.
                  if_holds Table (env.config.net_arp_cache_size == 0) s'
                    (record s' { arp_cache = arp_cache_store i mac dest_ip s'.arp_cache }) p' p')
                (λ _.
                  >>=-Keeps P (h.net_handle dlength) (λ _ s''. some (none, s''))
                    (keep.net_handle dlength) (λ _ _ w. w) s' p'))
        (arp_send_request env dest_ip s) p

  pub arp_who_is-Keeps : Keeps P (arp_who_is env h dest_ip)
  unfolding arp_who_is
  arp_who_is-Keeps s p =
      let l = arp_lookup env.config.net_arp_cache_size dest_ip s.arp_cache in
      elim (Option-cases l.found) [
        | inl none_found ↦
            rw (After, none_found)
              (arp_ask-Keeps l.min_use_cache_id (record s { arp_cache = l.rows }) p)
        | inr (mac, found) ↦ rw (After, found) p
      ]
