-- ===== src/Tcp/Client/Segments.antt =====
-- `TcpSendData` of src/tcp.c comes back, also with data of many segments.
use avr_net_enc28j.Base.{
  ℕ, zero, suc, ◌+◌, ◌≤◌, ◌<◌, ◌≡◌, refl, ◌∙◌, Bool, true, false, not, Option, none, some, arith,
  ltb, leb, ◌==◌, if◌then◌else◌, Mem, inl, inr, Bool-cases, Option-cases,
}
use avr_net_enc28j.Util.{add16, add32, sub16}
use avr_net_enc28j.Net.{Net, Env, Handlers, M, ◌>>=◌}
use avr_net_enc28j.Net.Calls.{Ends, OnNic, NetEnds, TcpEnds, if-Ends}
use avr_net_enc28j.Net.Keeps.{HandlersKeep, kept}
use avr_net_enc28j.Tcp.Segment.{tcp_flag_ack}
use avr_net_enc28j.Tcp.Table.Kept.{IsKept, HasSize}
use avr_net_enc28j.Tcp.Send.{on_connection}
use avr_net_enc28j.Tcp.Wait.{tcp_wait_packet}
use avr_net_enc28j.Tcp.Wait.Keeps.{rewrite-Keeps}
use avr_net_enc28j.Tcp.Handle.{is_established, state_of}
use avr_net_enc28j.Tcp.Client.{tcp_send_part, tcp_send_from, tcp_send_data}
use avr_net_enc28j.Tcp.Client.Returns.{tcp_send_part-Ends}
use avr_net_enc28j.Tcp.Client.Keeps.{tcp_send_part-Keeps}

module _ {N A : Type 0} (timeout : ℕ) where
  -- A part that was acknowledged was in time.
  abbrev InTime : Option (Option ℕ × Net N A) → Type 0
  InTime none = Unit {0}
  InTime (some (none, s)) = Unit {0}
  InTime (some (some waited, s)) = waited ≤ timeout

  timely :
      (o : Option (Option ℕ × Net N A)) {waited : ℕ} {s : Net N A}
      → InTime o
      → o ≡ some (some waited, s)
      → waited ≤ timeout
  timely o t e = rw e at t

  if-InTime :
      (b : Bool) (x y : Option (Option ℕ × Net N A))
      → InTime x
      → (b ≡ false → InTime y)
      → InTime (if b then x else y)
  if-InTime true x y hx hy = hx
  if-InTime false x y hx hy = hy refl

  on_result-InTime :
      {X : Type 0} (o : Option (X × Net N A)) (f : X → M N A (Option ℕ))
      → ((x : X) (s : Net N A) → InTime (f x s))
      → InTime (elim o [ none ↦ none | some (x, s') ↦ f x s' ])
  on_result-InTime none f hf = tt
  on_result-InTime (some (x, s)) f hf = hf x s

module _ {N A : Type 0} (env : Env N A) (h : Handlers N A) (id timeout : ℕ)
    (payload : Net N A → Mem) where
  tcp_send_part-InTime :
      (send_sequence from length fuel waiting : ℕ) (first_try : Bool) (s : Net N A)
      → waiting ≤ timeout
      → timeout < 65535
      → InTime timeout (
          tcp_send_part env h id timeout payload send_sequence from length fuel first_try waiting s)
  unfolding tcp_send_part
  tcp_send_part-InTime send_sequence from length zero waiting first_try s le small = tt
  tcp_send_part-InTime send_sequence from length (suc fuel) waiting first_try s le small =
      let later =
        tcp_send_part env h id timeout payload send_sequence from length fuel false
          (add16 waiting 1) in
      if-InTime timeout (not (is_established (state_of env s id))) (some (none, s)) _ tt λ e.
        on_result-InTime timeout
          (tcp_wait_packet env h id (add32 send_sequence length) tcp_flag_ack _) _
          λ acked s'. if-InTime timeout acked (some (some waiting, s')) _ le λ f.
            if-InTime timeout (ltb timeout (add16 waiting 1)) (some (none, s')) (later s') tt λ g.
              tcp_send_part-InTime send_sequence from length fuel (add16 waiting 1) false s'
                (ground arith) small

  module _ (Q : N → Type 0) (Fine : ℕ → Mem → Type 0) (net_ends : NetEnds Q Fine env h)
      (tcp_ends : TcpEnds Q Fine env h) (small : timeout < 65535)
      (law : IsKept env.config (HasSize id)) (keep : HandlersKeep (HasSize id) h) where
    tcp_send_from-Ends :
        (data_length fuel from waiting : ℕ) (s : Net N A)
        → data_length < 65536
        → from < data_length
        → data_length < fuel + from
        → waiting ≤ timeout
        → HasSize id s.connections
        → Q s.nic
        → Ends
            (OnNic Q Fine)
            (tcp_send_from env h id timeout payload data_length fuel from waiting s)
    unfolding tcp_send_from
    tcp_send_from-Ends data_length zero from waiting s whole more enough le size q =
        absurd (omega arith)
    tcp_send_from-Ends data_length (suc fuel) from waiting s whole more enough le size q =
        let c = s.connections id in
        let left = sub16 data_length from in
        let length = if ltb left c.max_segmet_size then left else c.max_segmet_size in
        let from' = add16 from length in
        let some_bytes : 1 ≤ length = ground arith in
        let fits : from + length ≤ data_length = ground arith in
        let begun =
          on_connection env id (λ c. record c { send_sequence = add32 c.send_sequence length }) s in
        let begun_size : HasSize id begun.connections =
          rewrite-Keeps (HasSize id) env law id (add32 c.send_sequence length) c.expected_sequence s
            size in
        let ((sent, after), e, q') =
          tcp_send_part-Ends env h Q Fine net_ends tcp_ends id timeout small payload c.send_sequence
            from length (timeout + 1) waiting true le (omega arith) begun q in
        let in_time =
          tcp_send_part-InTime c.send_sequence from length (timeout + 1) waiting true begun le
            small in
        let after_size =
          kept (HasSize id)
            (tcp_send_part env h id timeout payload c.send_sequence from length (timeout + 1) true
              waiting)
            e
            (tcp_send_part-Keeps (HasSize id) env law h keep id timeout payload c.send_sequence from
              length (timeout + 1) waiting true)
            begun_size in
        elim (Option-cases sent) [
          | inl failed ↦ rw (◌>>=◌, e, failed) (_, refl, q')
          | inr (waited, acked) ↦
              let soon : waited ≤ timeout =
                timely timeout _ in_time (e ∙ (λ i. some (acked i, after))) in
              rw (◌>>=◌, e, acked)
                (elim (Bool-cases (ltb from' data_length)) [
                  | inr last ↦ rw last (_, refl, q')
                  | inl goes_on ↦ rw goes_on (
                      tcp_send_from-Ends data_length fuel from' waited after whole (ground arith)
                        (omega (arith, some_bytes, fits)) soon after_size q')
                ])
        ]

    -- `TcpSendData` comes back with data of any length below 65536, in as many segments as it takes,
    -- on a network from whose frames the handlers of the packets in between return, if they leave the
    -- connection with segments of a byte or more, as it has them before. The timeout is below 65535.
    pub tcp_send_data_comes_back :
        (data_length : ℕ) (s : Net N A)
        → data_length < 65536
        → HasSize id s.connections
        → Q s.nic
        → Ends (OnNic Q Fine) (tcp_send_data env h id timeout payload data_length s)
    unfolding tcp_send_data
    tcp_send_data_comes_back data_length s whole size q =
        if-Ends (OnNic Q Fine) (leb env.config.tcp_max_connections id) (some (false, s)) _
          (_, refl, q)
          λ e.
            if-Ends (OnNic Q Fine) (data_length == 0) (some (false, s)) _ (_, refl, q)
              λ f.
                tcp_send_from-Ends data_length (data_length + 1) 0 0 s whole (ground arith)
                  (omega arith) (omega arith) size q
