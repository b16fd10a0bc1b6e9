-- ===== src/Tcp/Client/Keeps.antt =====
-- `TcpSendData`, `TcpReceiveData` and `TcpDisconnect` of src/tcp.c keep predicates on the table of
-- connections.
use avr_net_enc28j.Base.{
  ℕ, zero, suc, ◌+◌, ◌%◌, inl, inr, Bool-cases, Bool, true, false, not, ◌||◌, ◌&&◌, Option, none,
  some, ltb, leb, ◌==◌, if◌then◌else◌, Mem, copy, offset,
}
use avr_net_enc28j.Util.{add16, add32, sub16}
use avr_net_enc28j.Net.{TcpConnection, dyeing, Net, Env, Handlers, M, ◌>>◌, pure}
use avr_net_enc28j.Net.Keeps.{OnTable, After, if-After, if_holds, Keeps, >>=-Keeps, HandlersKeep}
use avr_net_enc28j.Ethernet.{send}
use avr_net_enc28j.Ip.{next_identfier}
use avr_net_enc28j.Tcp.Segment.{tcp_flag_ack, tcp_get_data_length, tcp_get_data_position}
use avr_net_enc28j.Tcp.Table.Kept.{IsKept}
use avr_net_enc28j.Tcp.Send.{tcp_send_buffer, tcp_send_ack}
use avr_net_enc28j.Tcp.Wait.{tcp_wait_packet, tcp_close}
use avr_net_enc28j.Tcp.Wait.Keeps.{
  rewrite-Keeps, state-Keeps, tcp_wait_packet-Keeps, tcp_close-Keeps,
}
use avr_net_enc28j.Tcp.Handle.{is_established, set_state, state_of}
use avr_net_enc28j.Tcp.Handle.Keeps.{established_live, tcp_send_ack-Keeps}
use avr_net_enc28j.Tcp.Client.{
  tcp_send_part, tcp_send_from, tcp_send_data, tcp_receive_from, tcp_receive_data, tcp_disconnect,
}

module _ {N A : Type 0} (P : (ℕ → TcpConnection) → Type 0) (env : Env N A)
    (law : IsKept env.config P) (h : Handlers N A) (keep : HandlersKeep P h) (id timeout : ℕ) where
  tcp_send_buffer-Keeps :
      (buffer : Mem) (send_sequence flags dlength : ℕ) (s : Net N A)
      → OnTable P s
      → OnTable P (tcp_send_buffer env buffer id send_sequence flags dlength s)
  unfolding tcp_send_buffer send next_identfier
  tcp_send_buffer-Keeps buffer send_sequence flags dlength s u = u

  module _ (payload : Net N A → Mem) where
    pub tcp_send_part-Keeps :
        (send_sequence from length fuel waiting : ℕ) (first_try : Bool)
        → Keeps P (
            tcp_send_part env h id timeout payload send_sequence from length fuel first_try waiting)
    unfolding tcp_send_part
    tcp_send_part-Keeps send_sequence from length zero waiting first_try s u = tt
    tcp_send_part-Keeps send_sequence from length (suc fuel) waiting first_try s u =
        let out = copy s.buffer 0x36 (offset (payload s) from) length in
        let ack = add32 send_sequence length in
        let rest =
          tcp_send_part env h id timeout payload send_sequence from length fuel false
            (add16 waiting 1) in
        if-After (OnTable P) (not (is_established (state_of env s id))) (some (none, s)) _ (λ e. u)
          λ e.
            >>=-Keeps P (tcp_wait_packet env h id ack tcp_flag_ack) _
              (tcp_wait_packet-Keeps P env law h keep id ack tcp_flag_ack)
              (λ acked s' u'.
                if-After (OnTable P) acked (some (some waiting, s')) _ (λ _. u')
                  λ _.
                    if-After (OnTable P) (ltb timeout (add16 waiting 1)) (some (none, s')) (rest s')
                      (λ _. u')
                      (λ _.
                        tcp_send_part-Keeps send_sequence from length fuel (add16 waiting 1) false
                          s' u'))
              _
              (if_holds (OnTable P) (waiting % 200 == 0 || first_try) _ s
                (tcp_send_buffer-Keeps out send_sequence tcp_flag_ack length s u) u)

    tcp_send_from-Keeps :
        (data_length fuel from waiting : ℕ)
        → Keeps P (tcp_send_from env h id timeout payload data_length fuel from waiting)
    unfolding tcp_send_from
    tcp_send_from-Keeps data_length zero from waiting s u = tt
    tcp_send_from-Keeps data_length (suc fuel) from waiting s u =
        let c = s.connections id in
        let left = sub16 data_length from in
        let length = if ltb left c.max_segmet_size then left else c.max_segmet_size in
        let from' = add16 from length in
        let rest = tcp_send_from env h id timeout payload data_length fuel from' in
        let next : Option ℕ → M N A Bool = λ sent. elim sent [
          | none ↦ pure false
          | some waiting' ↦
              λ s'. if ltb from' data_length then rest waiting' s' else some (true, s')
        ] in
        >>=-Keeps P
          (tcp_send_part env h id timeout payload c.send_sequence from length (timeout + 1) true
            waiting)
          next (tcp_send_part-Keeps c.send_sequence from length (timeout + 1) waiting true)
          (λ sent s' u'. elim sent as (λ (o : Option ℕ). After (OnTable P) (next o s')) [
            | none ↦ u'
            | some waiting' ↦
                if-After (OnTable P) (ltb from' data_length) (rest waiting' s') (some (true, s'))
                  (λ _. tcp_send_from-Keeps data_length fuel from' waiting' s' u') (λ _. u')
          ])
          _ (rewrite-Keeps P env law id (add32 c.send_sequence length) c.expected_sequence s u)

    pub tcp_send_data-Keeps :
        (data_length : ℕ) → Keeps P (tcp_send_data env h id timeout payload data_length)
    unfolding tcp_send_data
    tcp_send_data-Keeps data_length s u =
        if-After (OnTable P) (leb env.config.tcp_max_connections id) (some (false, s)) _ (λ _. u)
          λ _.
            if-After (OnTable P) (data_length == 0) (some (false, s)) _ (λ _. u)
              (λ _. tcp_send_from-Keeps data_length (data_length + 1) 0 0 s u)

  tcp_receive_from-Keeps :
      (fuel waiting : ℕ) → Keeps P (tcp_receive_from env h id timeout fuel waiting)
  unfolding tcp_receive_from
  tcp_receive_from-Keeps zero waiting s u = tt
  tcp_receive_from-Keeps (suc fuel) waiting s u =
      let waiting' = if ltb 0 timeout then add16 waiting 1 else waiting in
      let rest = tcp_receive_from env h id timeout fuel waiting' in
      let ack = (s.connections id).send_sequence in
      if-After (OnTable P) (not (is_established (state_of env s id))) (some (none, s)) _ (λ e. u)
        λ e.
          >>=-Keeps P (tcp_wait_packet env h id ack tcp_flag_ack) _
            (tcp_wait_packet-Keeps P env law h keep id ack tcp_flag_ack)
            (λ taken s' u'.
              let position = tcp_get_data_position s'.buffer in
              let length = tcp_get_data_length s'.buffer in
              let sequence = (s'.connections id).expected_sequence in
              if-After (OnTable P) taken _ _
                (λ _.
                  >>=-Keeps P (tcp_send_ack env id sequence length)
                    (λ _. pure (some (position, length)))
                    (tcp_send_ack-Keeps P env law id sequence length) (λ _ _ w. w) s' u')
                λ _.
                  if-After (OnTable P) (ltb 0 timeout && ltb timeout waiting') (some (none, s'))
                    (rest s') (λ _. u') (λ _. tcp_receive_from-Keeps fuel waiting' s' u'))
            s u

  pub tcp_receive_data-Keeps : (fuel : ℕ) → Keeps P (tcp_receive_data env h id timeout fuel)
  unfolding tcp_receive_data
  tcp_receive_data-Keeps fuel s u =
      if-After (OnTable P) (leb env.config.tcp_max_connections id) (some (none, s)) _ (λ _. u)
        (λ _. tcp_receive_from-Keeps fuel 0 s u)

  pub tcp_disconnect-Keeps :
      Keeps P (env.tcp_on_disconnect h id) → Keeps P (tcp_disconnect env h id timeout)
  unfolding tcp_disconnect
  tcp_disconnect-Keeps callback s u =
      if-After (OnTable P) (leb env.config.tcp_max_connections id) (some (false, s)) _ (λ _. u)
        λ _. elim (Bool-cases (is_established (state_of env s id))) [
          | inr e ↦ rw e u
          | inl est ↦ rw est (
              >>=-Keeps P (env.tcp_on_disconnect h id >> tcp_close env h id timeout)
                (λ _. pure true)
                (>>=-Keeps P (env.tcp_on_disconnect h id) (λ _. tcp_close env h id timeout) callback
                  (λ _. tcp_close-Keeps P env law h keep id timeout))
                (λ _ _ w. w) (set_state env id dyeing s)
                (state-Keeps P env law id dyeing s (λ _. established_live _ est) u))
        ]
