-- ===== src/Tcp/Handle/Keeps.antt =====
-- `TcpHandleIncomingPacket` of src/tcp.c keeps predicates on the table of connections.
use avr_net_enc28j.Base.{
  ℕ, ◌≡◌, refl, arith, inl, inr, Bool, true, false, not, ◌&&◌, ◌||◌, some, ◌==◌, if◌then◌else◌, Mem,
  offset, Option-cases,
}
use avr_net_enc28j.Util.{add32, chars_to_short, chars_to_long}
use avr_net_enc28j.Net.{
  TcpState, no_connection, new, syn_received, established, dyeing, TcpConnection, Net, Env,
  Handlers, UdpDatagram, ◌>>◌, pure, modify, net_handle_result_drop, net_handle_result_reject,
}
use avr_net_enc28j.Net.Keeps.{
  OnTable, After, if-After, if_holds, Keeps, >>=-After, >>=-Keeps, HandlersKeep,
}
use avr_net_enc28j.Ethernet.{send}
use avr_net_enc28j.Ip.{next_identfier}
use avr_net_enc28j.Icmp.{icmp_send_unreachable}
use avr_net_enc28j.Tcp.Segment.{
  tcp_flag_ack, tcp_flag_fin, tcp_flag_syn, has_flag, tcp_verify_checksum, tcp_get_data_length,
  tcp_get_data_position,
}
use avr_net_enc28j.Tcp.Table.{is_free, tcp_get_connection_id, tcp_invalid_connection_id}
use avr_net_enc28j.Tcp.Table.Kept.{IsKept}
use avr_net_enc28j.Tcp.Table.Narrow.{Narrows-same}
use avr_net_enc28j.Tcp.Table.Kept.{IsKept}
use avr_net_enc28j.Tcp.Send.{on_connection, tcp_send_ack}
use avr_net_enc28j.Tcp.Wait.{tcp_close}
use avr_net_enc28j.Tcp.Wait.Keeps.{
  on_connection-Keeps, rewrite-Keeps, state-Keeps, tcp_send_packet-Keeps, tcp_close-Keeps,
}
use avr_net_enc28j.Tcp.Handle.{
  is_new, is_syn_received, is_established, is_dyeing, set_state, state_of, tcp_accept, tcp_decide,
  tcp_open, tcp_establish, tcp_finish, tcp_data, tcp_handle_on, tcp_handle_incoming_packet,
}

-- What the state machine's tests say of a connection's use.
opening_live :
    (b : Bool) (st : TcpState)
    → (b && (is_new st || is_syn_received st)) ≡ true
    → is_free st ≡ false
opening_live b no_connection e = ground arith
opening_live b new e = refl
opening_live b syn_received e = refl
opening_live b established e = refl
opening_live b dyeing e = refl

acked_live : (b : Bool) (st : TcpState) → (b && is_syn_received st) ≡ true → is_free st ≡ false
acked_live b no_connection e = ground arith
acked_live b new e = refl
acked_live b syn_received e = refl
acked_live b established e = refl
acked_live b dyeing e = refl

pub established_live : (st : TcpState) → is_established st ≡ true → is_free st ≡ false
established_live no_connection e = cc
established_live new e = refl
established_live syn_received e = refl
established_live established e = refl
established_live dyeing e = refl

module _ {N A : Type 0} (P : (ℕ → TcpConnection) → Type 0) (env : Env N A) where
  -- The connection is in use.
  abbrev pub IsLive : ℕ → Net N A → Type 0
  IsLive id s = is_free (s.connections id).state ≡ false

  -- The application's callbacks keep the predicate, where the handlers that they are given do, and the
  -- one that judges a new connection leaves it in use.
  pub record CallbacksKeep : Type 0 where
    pub tcp_on_new_connection :
        (h : Handlers N A)
        → HandlersKeep P h
        → (id : ℕ) (s : Net N A) → OnTable P s
        → IsLive id s
        → After (λ s'. OnTable P s' × IsLive id s') (env.tcp_on_new_connection h id s)
    pub tcp_on_connect :
        (h : Handlers N A) → HandlersKeep P h → (id : ℕ) → Keeps P (env.tcp_on_connect h id)
    pub tcp_on_incoming_data :
        (h : Handlers N A)
        → HandlersKeep P h
        → (id : ℕ) (m : Mem) (length : ℕ) → Keeps P (env.tcp_on_incoming_data h id m length)
    pub tcp_on_disconnect :
        (h : Handlers N A) → HandlersKeep P h → (id : ℕ) → Keeps P (env.tcp_on_disconnect h id)
    pub udp_on_incoming_datagram :
        (h : Handlers N A)
        → HandlersKeep P h
        → (d : UdpDatagram) (m : Mem) (length : ℕ)
        → Keeps P (env.udp_on_incoming_datagram h d m length)

module _ {N A : Type 0} (P : (ℕ → TcpConnection) → Type 0) (env : Env N A)
    (law : IsKept env.config P) where
  pub icmp_send_unreachable-Keeps :
      (mac ip : Mem) (length : ℕ) (s : Net N A)
      → OnTable P s
      → OnTable P (icmp_send_unreachable env mac ip length s)
  unfolding icmp_send_unreachable send next_identfier
  icmp_send_unreachable-Keeps mac ip length s u = u

  pub tcp_send_ack-Keeps :
      (id sequence data_length : ℕ) → Keeps P (tcp_send_ack env id sequence data_length)
  unfolding tcp_send_ack
  tcp_send_ack-Keeps id sequence data_length s u =
      let c = s.connections id in
      tcp_send_packet-Keeps P env law id c.send_sequence tcp_flag_ack 0 _ (
        if_holds (OnTable P) (sequence == c.expected_sequence) _ s
          (rewrite-Keeps P env law id c.send_sequence (add32 c.expected_sequence data_length) s u)
          u)

  module _ (h : Handlers N A) (id : ℕ) where
    tcp_accept-Keeps :
        (s : Net N A) → IsLive P env id s → OnTable P s → OnTable P (tcp_accept env h id s)
    unfolding tcp_accept
    tcp_accept-Keeps s live u =
        let s' = set_state env id syn_received s in
        tcp_send_packet-Keeps P env law id (s'.connections id).send_sequence 0x12 0 s'
          (state-Keeps P env law id syn_received s (λ _. live) u)

    freed-Keeps : (s : Net N A) → OnTable P s → OnTable P (set_state env id no_connection s)
    freed-Keeps s u = state-Keeps P env law id no_connection s (λ l. cc) u

    tcp_decide-Keeps :
        (result : ℕ) (s : Net N A)
        → IsLive P env id s
        → OnTable P s
        → OnTable P (tcp_decide env h id result s)
    unfolding tcp_decide
    tcp_decide-Keeps result s live u =
        let reported : Net N A =
          if env.config.with_icmp
          then icmp_send_unreachable env (s.connections id).mac (s.connections id).ip
              (chars_to_short (offset s.buffer 0x10)) s
          else s in
        if_holds (OnTable P) (result == net_handle_result_drop) _ _ (freed-Keeps s u) (
          if_holds (OnTable P) (result == net_handle_result_reject) _ _
            (freed-Keeps reported (
              if_holds (OnTable P) env.config.with_icmp _ s
                (icmp_send_unreachable-Keeps (s.connections id).mac (s.connections id).ip
                  (chars_to_short (offset s.buffer 0x10)) s u)
                u))
            (tcp_accept-Keeps s live u))

    module _ (callbacks : CallbacksKeep P env) (keep : HandlersKeep P h) where
      tcp_open-Keeps :
          (s : Net N A) → IsLive P env id s → OnTable P s → After (OnTable P) (tcp_open env h id s)
      unfolding tcp_open
      tcp_open-Keeps s live u =
          if-After (OnTable P) (is_new (state_of env s id)) _ _
            (λ e.
              >>=-After (λ s'. OnTable P s' × IsLive P env id s') (OnTable P)
                (env.tcp_on_new_connection h id) (λ result. modify (tcp_decide env h id result)) s
                (callbacks.tcp_on_new_connection h keep id s u live)
                (λ result s' (u', live'). tcp_decide-Keeps result s' live' u'))
            (λ e. tcp_accept-Keeps s live u)

      tcp_establish-Keeps : Keeps P (tcp_establish env h id)
      unfolding tcp_establish
      tcp_establish-Keeps s u =
          if-After (OnTable P)
            (has_flag (s.buffer 0x2F) tcp_flag_ack && is_syn_received (state_of env s id)) _
            (some (tt, s))
            (λ e.
              let c = s.connections id in
              let f = λ (c : TcpConnection). record c {
                state = established;
                send_sequence = chars_to_long (offset s.buffer 0x2A);
              } in
              callbacks.tcp_on_connect h keep id (on_connection env id f s) (
                on_connection-Keeps P env law id f s
                  (Narrows-same c (f c) refl refl refl refl refl (λ _. acked_live _ c.state e)) u))
            (λ e. u)

      tcp_finish-Keeps : Keeps P (tcp_finish env h id)
      unfolding tcp_finish
      tcp_finish-Keeps s u =
          if-After (OnTable P)
            (has_flag (s.buffer 0x2F) tcp_flag_fin
              && (is_established (state_of env s id) || is_dyeing (state_of env s id)))
            _ (some (true, s))
            (λ e.
              >>=-Keeps P (tcp_send_ack env id (chars_to_long (offset s.buffer 0x26)) 1) _
                (tcp_send_ack-Keeps id (chars_to_long (offset s.buffer 0x26)) 1)
                (λ expected s' u'.
                  if-After (OnTable P) (not expected) (some (false, s')) _ (λ _. u')
                    λ _.
                      if-After (OnTable P) (is_established (state_of env s' id)) _ (some (true, s'))
                        (λ est.
                          >>=-Keeps P (env.tcp_on_disconnect h id >> tcp_close env h id 1000)
                            (λ _. pure true)
                            (>>=-Keeps P (env.tcp_on_disconnect h id) (λ _. tcp_close env h id 1000)
                              (callbacks.tcp_on_disconnect h keep id)
                              (λ _. tcp_close-Keeps P env law h keep id 1000))
                            (λ _ _ w. w) (set_state env id dyeing s')
                            (state-Keeps P env law id dyeing s' (λ _. established_live _ est) u'))
                        (λ _. u'))
                s u)
            (λ e. u)

      tcp_data-Keeps : Keeps P (tcp_data env h id)
      unfolding tcp_data
      tcp_data-Keeps s u =
          let length = tcp_get_data_length s.buffer in
          if-After (OnTable P) (not (is_established (state_of env s id)) || length == 0)
            (some (tt, s)) _ (λ e. u)
            (λ e.
              >>=-Keeps P (tcp_send_ack env id (chars_to_long (offset s.buffer 0x26)) length) _
                (tcp_send_ack-Keeps id (chars_to_long (offset s.buffer 0x26)) length)
                (λ expected s' u'.
                  if-After (OnTable P) (not expected) (some (tt, s')) _ (λ _. u')
                    (λ _.
                      callbacks.tcp_on_incoming_data h keep id
                        (offset s'.buffer (tcp_get_data_position s'.buffer)) length s' u'))
                s u)

      tcp_handle_on-Keeps : Keeps P (tcp_handle_on env h id)
      unfolding tcp_handle_on
      tcp_handle_on-Keeps s u =
          let first =
            s.buffer 0x2F == tcp_flag_syn
            && (is_new (state_of env s id) || is_syn_received (state_of env s id)) in
          if-After (OnTable P) first _ _
            (λ e. tcp_open-Keeps s (opening_live _ (state_of env s id) e) u)
            (λ e.
              >>=-Keeps P (tcp_establish env h id >> tcp_finish env h id)
                (λ goes_on. if goes_on then tcp_data env h id else pure tt)
                (>>=-Keeps P (tcp_establish env h id) (λ _. tcp_finish env h id) tcp_establish-Keeps
                  (λ _. tcp_finish-Keeps))
                (λ goes_on s' u'.
                  elim goes_on
                    as (λ b. After (OnTable P) ((if b then tcp_data env h id else pure tt) s')) [
                      | true ↦ tcp_data-Keeps s' u'
                      | false ↦ u'
                    ])
                s u)

  pub tcp_handle_incoming_packet-Keeps :
      CallbacksKeep P env
      → (h : Handlers N A) → HandlersKeep P h
      → (length : ℕ) → Keeps P (tcp_handle_incoming_packet env h length)
  unfolding tcp_handle_incoming_packet
  tcp_handle_incoming_packet-Keeps callbacks h keep length s u =
      let b = (tcp_verify_checksum s.buffer).1 in
      if-After (OnTable P) (not (tcp_verify_checksum s.buffer).0) _ _ (λ e. u)
        λ e. elim (Option-cases (tcp_get_connection_id env.config b s.connections)) [
          | inl hangs ↦ rw hangs tt
          | inr ((id, connections), found) ↦
              let s' : Net N A = record s { buffer = b; connections = connections } in
              let u' = law.open_connection b s.connections id connections found u in
              rw found (
                if-After (OnTable P) (id == tcp_invalid_connection_id) (some (tt, s')) _ (λ _. u')
                  (λ _. tcp_handle_on-Keeps h id callbacks keep s' u'))
        ]
