-- ===== src/Ethernet/Wait.antt =====
-- `EthWaitPacket` of src/ethernet.c: it comes back, and with what.
use avr_net_enc28j.Base.{
  ℕ, zero, suc, ◌+◌, ◌-◌, ◌*◌, ◌%◌, ◌≤◌, ◌<◌, ◌≡◌, ◌≢◌, inl, inr, refl, true, false, Option, none,
  some, arith, ltb, ◌==◌, if◌then◌else◌, Bool-cases, Mem,
}
use avr_net_enc28j.Util.{add16}
use avr_net_enc28j.Net.{Net, Env, Handlers, M, ◌>>=◌, ◌>>◌}
use avr_net_enc28j.Net.Calls.{Ends, OnNic, Arrived, NetEnds, >>=-Ends}
use avr_net_enc28j.Ethernet.{
  receive, is_awaited, eth_wait_take, eth_wait_next, eth_wait_from, eth_wait_packet, wait_fuel,
}

module _ {N A : Type 0} (env : Env N A) (h : Handlers N A) (type timeout : ℕ) where
  -- The counters of the next round.
  abbrev next_micro : ℕ → ℕ
  next_micro micro = if (micro + 1) % 256 == 10 then 0 else (micro + 1) % 256

  abbrev next_waiting : ℕ → ℕ → ℕ
  next_waiting micro waiting = if (micro + 1) % 256 == 10 then add16 waiting 1 else waiting

  -- The rounds left until the timeout.
  abbrev rounds_left : ℕ → ℕ → ℕ
  rounds_left micro waiting = 10 * (timeout - waiting) + (10 - micro)

  record InTime (fuel micro waiting : ℕ) : Type 0 where
    micro_small : micro < 10
    not_over : waiting ≤ timeout
    enough : rounds_left micro waiting ≤ fuel

  next-InTime :
      (fuel micro waiting : ℕ)
      → timeout < 65535
      → InTime (suc fuel) micro waiting
      → ltb timeout (next_waiting micro waiting) ≡ false
      → InTime fuel (next_micro micro) (next_waiting micro waiting)
  next-InTime fuel micro waiting small t e = ground arith

  module _ (Q : N → Type 0) (Fine : ℕ → Mem → Type 0) (ends : NetEnds Q Fine env h) where
    abbrev Waited : Option (ℕ × Net N A) → Type 0
    Waited = Ends (Arrived Q Fine)

    eth_wait_take-Ends :
        (next : M N A ℕ)
        → ((s : Net N A) → Q s.nic → Waited (next s))
        → (length : ℕ) (s : Net N A) → Arrived Q Fine length s
        → Waited (eth_wait_take env h type timeout next length s)
    unfolding eth_wait_take
    eth_wait_take-Ends next tn length s (q, fine) = elim (Bool-cases (length == 0)) [
      | inl e ↦ rw e (tn s q)
      | inr e ↦ elim (Bool-cases (is_awaited env type s.buffer)) [
        | inl a ↦ rw (e, a) ((length, s), refl, (q, fine))
        | inr a ↦
            rw (e, a)
              (>>=-Ends (OnNic Q Fine) (Arrived Q Fine) (h.net_handle length) (λ _. next) s
                (ends.net_handled length s q (fine (ground arith))) (λ x s' q'. tn s' q'))
      ]
    ]

    eth_wait_next-Ends :
        (waiting : ℕ) (rest : M N A ℕ)
        → (ltb timeout waiting ≡ false → (s : Net N A) → Q s.nic → Waited (rest s))
        → (s : Net N A) → Q s.nic
        → Waited (eth_wait_next env h type timeout waiting rest s)
    unfolding eth_wait_next
    eth_wait_next-Ends waiting rest tr s q = elim (Bool-cases (ltb timeout waiting)) [
      | inl e ↦ rw e ((0, s), refl, (q, λ nz. absurd (nz refl)))
      | inr e ↦ rw e (tr e s q)
    ]

    eth_wait_from-Ends :
        timeout < 65535
        → (fuel micro waiting : ℕ) → InTime fuel micro waiting
        → (s : Net N A) → Q s.nic
        → Waited (eth_wait_from env h type timeout fuel micro waiting s)
    unfolding eth_wait_from receive
    eth_wait_from-Ends small zero micro waiting t s q = absurd (omega arith)
    eth_wait_from-Ends small (suc fuel) micro waiting t s q =
        let waiting' = next_waiting micro waiting in
        let rest = eth_wait_from env h type timeout fuel (next_micro micro) waiting' in
        let rest_ends = λ (e : ltb timeout waiting' ≡ false).
          eth_wait_from-Ends small fuel (next_micro micro) waiting'
            (next-InTime fuel micro waiting small t e) in
        let next = eth_wait_next env h type timeout waiting' rest in
        eth_wait_take-Ends next (eth_wait_next-Ends waiting' rest rest_ends) _ _
          (ends.received s.buffer env.config.net_buffer_size s.nic q)

    -- `EthWaitPacket` comes back after at most 10 rounds for each millisecond of its timeout and 10
    -- more, with the result 0 or with a frame that the network has delivered. The timeout is below
    -- 65535, and the handler returns from the frames that this network delivers.
    pub eth_wait_packet-Ends :
        timeout < 65535 → (s : Net N A) → Q s.nic → Waited (eth_wait_packet env h type timeout s)
    unfolding eth_wait_packet
    eth_wait_packet-Ends small = eth_wait_from-Ends small (wait_fuel timeout) 0 0 (ground arith)

  -- The result 0, or a frame in the buffer that is one of those waited for.
  abbrev pub IsAwaited : Option (ℕ × Net N A) → Type 0
  IsAwaited none = Unit {0}
  IsAwaited (some (length, s)) = length ≢ 0 → is_awaited env type s.buffer ≡ true

  eth_wait_next-IsAwaited :
      (waiting : ℕ) (rest : M N A ℕ)
      → ((s : Net N A) → IsAwaited (rest s))
      → (s : Net N A) → IsAwaited (eth_wait_next env h type timeout waiting rest s)
  unfolding eth_wait_next
  eth_wait_next-IsAwaited waiting rest ar s = elim (Bool-cases (ltb timeout waiting)) [
    | inl e ↦ rw e (λ nz. absurd (nz refl))
    | inr e ↦ rw e (ar s)
  ]

  bind-IsAwaited :
      (o : Option (Unit {0} × Net N A)) (m : M N A (Unit {0})) (next : M N A ℕ) (s : Net N A)
      → m s ≡ o
      → ((s : Net N A) → IsAwaited (next s))
      → IsAwaited ((m >> next) s)
  bind-IsAwaited none m next s e an = rw (e, ◌>>=◌) tt
  bind-IsAwaited (some (x, s')) m next s e an = rw (e, ◌>>=◌) (an s')

  eth_wait_take-IsAwaited :
      (next : M N A ℕ)
      → ((s : Net N A) → IsAwaited (next s))
      → (length : ℕ) (s : Net N A) → IsAwaited (eth_wait_take env h type timeout next length s)
  unfolding eth_wait_take
  eth_wait_take-IsAwaited next an length s = elim (Bool-cases (length == 0)) [
    | inl e ↦ rw e (an s)
    | inr e ↦ elim (Bool-cases (is_awaited env type s.buffer)) [
      | inl a ↦ rw (e, a) (λ nz. a)
      | inr a ↦ rw (e, a) (bind-IsAwaited _ (h.net_handle length) next s refl an)
    ]
  ]

  eth_wait_from-IsAwaited :
      (fuel micro waiting : ℕ) (s : Net N A)
      → IsAwaited (eth_wait_from env h type timeout fuel micro waiting s)
  unfolding eth_wait_from receive
  eth_wait_from-IsAwaited zero micro waiting s = tt
  eth_wait_from-IsAwaited (suc fuel) micro waiting s =
      let waiting' = next_waiting micro waiting in
      let rest = eth_wait_from env h type timeout fuel (next_micro micro) waiting' in
      eth_wait_take-IsAwaited (eth_wait_next env h type timeout waiting' rest)
        (eth_wait_next-IsAwaited waiting' rest
          (eth_wait_from-IsAwaited fuel (next_micro micro) waiting'))
        _ _

  -- A frame that `EthWaitPacket` hands over (its result is not 0) is in the buffer, of the type
  -- waited for, and addressed to this station.
  pub eth_wait_packet_awaited :
      (s s' : Net N A) (length : ℕ)
      → eth_wait_packet env h type timeout s ≡ some (length, s')
      → length ≢ 0
      → is_awaited env type s'.buffer ≡ true
  unfolding eth_wait_packet
  eth_wait_packet_awaited s s' length e =
      rw e at (eth_wait_from-IsAwaited (wait_fuel timeout) 0 0 s)
