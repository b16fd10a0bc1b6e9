-- ===== src/Tcp/Client/Returns.antt =====
-- A part of the data that `TcpSendData` of src/tcp.c sends: the loop that waits for its acknowledgement.
use avr_net_enc28j.Base.{
  ℕ, zero, suc, ◌+◌, ◌%◌, ◌≤◌, ◌<◌, refl, Bool, true, false, not, ◌||◌, none, some, arith, ltb,
  ◌==◌, if◌then◌else◌, Mem, copy, offset,
}
use avr_net_enc28j.Util.{add16, add32}
use avr_net_enc28j.Net.{Net, Env, Handlers}
use avr_net_enc28j.Net.Calls.{Ends, OnNic, NetEnds, TcpEnds, if-Ends, >>=-Ends}
use avr_net_enc28j.Tcp.Segment.{tcp_flag_ack}
use avr_net_enc28j.Tcp.Send.{tcp_send_buffer}
use avr_net_enc28j.Tcp.Handle.{state_of, is_established}
use avr_net_enc28j.Tcp.Wait.{tcp_wait_packet}
use avr_net_enc28j.Tcp.Wait.Close.{tcp_wait_packet-Ends, tcp_send_buffer-OnNic}
use avr_net_enc28j.Tcp.Client.{tcp_send_part}

module _ {N A : Type 0} (env : Env N A) (h : Handlers N A) (Q : N → Type 0)
    (Fine : ℕ → Mem → Type 0) (net_ends : NetEnds Q Fine env h) (tcp_ends : TcpEnds Q Fine env h)
    (id timeout : ℕ) (small : timeout < 65535) where
  part_sent :
      (again : Bool) (m : Mem) (send_sequence length : ℕ) (s : Net N A)
      → Q s.nic
      → Q (if again then tcp_send_buffer env m id send_sequence tcp_flag_ack length s else s).nic
  part_sent true m send_sequence length s q =
      tcp_send_buffer-OnNic env h Q Fine net_ends tcp_ends m id send_sequence tcp_flag_ack length s
        q
  part_sent false m send_sequence length s q = q

  pub tcp_send_part-Ends :
      (payload : Net N A → Mem) (send_sequence from length fuel waiting : ℕ) (first_try : Bool)
      → waiting ≤ timeout
      → timeout < fuel + waiting
      → (s : Net N A) → Q s.nic
      → Ends (OnNic Q Fine) (
          tcp_send_part env h id timeout payload send_sequence from length fuel first_try waiting s)
  unfolding tcp_send_part
  tcp_send_part-Ends payload send_sequence from length zero waiting first_try le enough s q =
      absurd (omega arith)
  tcp_send_part-Ends payload send_sequence from length (suc fuel) waiting first_try le enough s q =
      let ack = add32 send_sequence length in
      let later =
        tcp_send_part env h id timeout payload send_sequence from length fuel false
          (add16 waiting 1) in
      if-Ends (OnNic Q Fine) (not (is_established (state_of env s id))) (some (none, s)) _
        (_, refl, q)
        λ e.
          >>=-Ends (OnNic Q Fine) (OnNic Q Fine) (tcp_wait_packet env h id ack tcp_flag_ack) _ _
            (tcp_wait_packet-Ends env h Q Fine net_ends tcp_ends id ack tcp_flag_ack _ (
              part_sent (waiting % 200 == 0 || first_try)
                (copy s.buffer 0x36 (offset (payload s) from) length) send_sequence length s q))
            λ acked s' q'.
              if-Ends (OnNic Q Fine) acked (some (some waiting, s')) _ (_, refl, q')
                λ f.
                  if-Ends (OnNic Q Fine) (ltb timeout (add16 waiting 1)) (some (none, s'))
                    (later s') (_, refl, q')
                    λ g.
                      tcp_send_part-Ends payload send_sequence from length fuel (add16 waiting 1)
                        false (ground arith) (ground arith) s' q'
