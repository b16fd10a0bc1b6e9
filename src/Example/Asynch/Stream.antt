-- ===== src/Example/Asynch/Stream.antt =====
-- Packets of the client's connection in example/tcp_asynch_client/main.c, through src/tcp.c to stdout.
use avr_net_enc28j.Base.{
  ℕ, ◌+◌, ◌^◌, ◌<◌, ◌≡◌, ◌≢◌, refl, ap, sym, ◌∙◌, Option, some, List, [], ◌++◌, append_assoc, arith,
  Mem, offset,
}
use mathlib.Core.List.{append-nil}
use native.Mathlib.Decide.{ℕ_discrete}
use avr_net_enc28j.Util.{add32, chars_to_long}
use avr_net_enc28j.Net.{TcpConnection, established, Net, Env, Handlers}
use avr_net_enc28j.Net.Update.{update_at}
use avr_net_enc28j.Ethernet.{send}
use avr_net_enc28j.Ip.{next_identfier}
use avr_net_enc28j.Tcp.Segment.{tcp_get_data_length, tcp_get_data_position}
use avr_net_enc28j.Tcp.Send.{tcp_send_packet, tcp_send_buffer}
use avr_net_enc28j.Tcp.Handle.{tcp_data, state_of, tcp_handle_incoming_packet}
use avr_net_enc28j.Tcp.Handle.Arrival.{IsArrival, tcp_handle_established, tcp_data_none}
use avr_net_enc28j.Tcp.Handle.Data.{acknowledged, tcp_data_in_order, tcp_data_out_of_order}
use avr_net_enc28j.Http.Value.{text_length}
use avr_net_enc28j.Http.Rows.{text_length-++}
use avr_net_enc28j.Example.{print}
use avr_net_enc28j.Example.Asynch.{Client, asynch_quiet, asynch_env}
use avr_net_enc28j.Example.Asynch.Printing.{
  bytes_from, bytes_from-eq, length-bytes_from, asynch_prints_data,
}

add32_add : (e a b : ℕ) → add32 (add32 e a) b ≡ add32 e (a + b)
add32_add e a b = omega arith

module _ {N : Type 0} (driver : Env N Client) (h : Handlers N Client) (id : ℕ) where
  abbrev pub handle : ℕ → Net N Client → Option (Unit {0} × Net N Client)
  handle length = tcp_handle_incoming_packet (asynch_env driver) h length

  -- The packet `b` comes in: it belongs to connection `id`, its checksum is right, and FIN is not set.
  abbrev pub Arrives : Net N Client → Mem → Type 0
  Arrives s b = IsArrival (asynch_env driver) h id (record s { buffer = b })

  -- Packets that have come in one after the other, each in a buffer of its own, and the data of those
  -- that came in order. A packet in order has no TCP options, and no 0 in its data.
  pub data Stream (first : Net N Client) : List ℕ → Net N Client → Type 0 where
    start : Stream first [] first
    in_order :
        (text : List ℕ) (s t : Net N Client) (b : Mem) (length : ℕ)
        → Stream first text s
        → Arrives s b
        → tcp_get_data_length b ≢ 0
        → tcp_get_data_position b ≡ 0x36
        → chars_to_long (offset b 0x26) ≡ (s.connections id).expected_sequence
        → ((j : ℕ) → j < tcp_get_data_length b → b (0x36 + j) ≢ 0)
        → handle length (record s { buffer = b }) ≡ some (tt, t)
        → Stream first (text ++ bytes_from b (tcp_get_data_position b) (tcp_get_data_length b)) t
    out_of_order :
        (text : List ℕ) (s t : Net N Client) (b : Mem) (length : ℕ)
        → Stream first text s
        → Arrives s b
        → tcp_get_data_length b ≢ 0
        → chars_to_long (offset b 0x26) ≢ (s.connections id).expected_sequence
        → handle length (record s { buffer = b }) ≡ some (tt, t)
        → Stream first text t
    no_data :
        (text : List ℕ) (s t : Net N Client) (b : Mem) (length : ℕ)
        → Stream first text s
        → Arrives s b
        → tcp_get_data_length b ≡ 0
        → handle length (record s { buffer = b }) ≡ some (tt, t)
        → Stream first text t

  -- The data of the packet, if it is in order, has no 0.
  abbrev pub HasNoEnd : Net N Client → Mem → Type 0
  HasNoEnd s b =
      chars_to_long (offset b 0x26) ≡ (s.connections id).expected_sequence
      → (j : ℕ) → j < tcp_get_data_length b
      → b (0x36 + j) ≢ 0

  -- The connection of the client, with this much read and printed.
  record IsRead (first : Net N Client) (text : List ℕ) (s : Net N Client) : Type 0 where
    pub open_still : state_of (asynch_env driver) s id ≡ established
    pub own : id ≡ s.app.globals
    pub printed : s.app.stdout ≡ first.app.stdout ++ text
    pub counted :
        (s.connections id).expected_sequence
        ≡ add32 (first.connections id).expected_sequence (text_length text)

  in_order-IsRead :
      (first s t : Net N Client) (text : List ℕ) (b : Mem)
      → IsRead first text s
      → tcp_get_data_length b ≢ 0
      → chars_to_long (offset b 0x26) ≡ (s.connections id).expected_sequence
      → ((j : ℕ) → j < tcp_get_data_length b → b (0x36 + j) ≢ 0)
      → tcp_data (asynch_env driver) h id (record s { buffer = b }) ≡ some (tt, t)
      → IsRead first (text ++ bytes_from b 0x36 (tcp_get_data_length b)) t
  unfolding asynch_env tcp_send_packet tcp_send_buffer send next_identfier print
  in_order-IsRead first s t text b r some_data next no_end e =
      let length = tcp_get_data_length b in
      let p : Net N Client = record s { buffer = b } in
      let (called, expected, left) =
        tcp_data_in_order (asynch_env driver) h id p r.open_still some_data next in
      let s' = acknowledged (asynch_env driver) h id length p in
      let m = offset s'.buffer 0x36 in
      let shown =
        asynch_prints_data (asynch_quiet driver) h id m s' r.own length
          (λ j lt z. no_end j lt (sym (left j) ∙ z)) in
      let same : bytes_from m 0 length ≡ bytes_from b 0x36 length =
        bytes_from-eq m b 0 0x36 length (λ j. let z : 0 + j ≡ j = omega arith in rw z (left j)) in
      let final : t ≡ print (bytes_from m 0 length) s' = cc in
      rw final (record {
        open_still =
            ap (λ (k : TcpConnection). k.state) (update_at s.connections _ refl) ∙ r.open_still;
        own = r.own;
        printed = rw (same, r.printed, append_assoc) refl;
        counted =
            expected
            ∙ (let added =
                  add32_add (first.connections id).expected_sequence (text_length text) length in
                let total : text_length (text ++ bytes_from b 0x36 length)
                    ≡ text_length text + length =
                  rw (text_length-++, length-bytes_from b 0x36 length) refl in
                rw (r.counted, added, total) refl);
      })

  out_of_order-IsRead :
      (first s t : Net N Client) (text : List ℕ) (b : Mem)
      → IsRead first text s
      → tcp_get_data_length b ≢ 0
      → chars_to_long (offset b 0x26) ≢ (s.connections id).expected_sequence
      → tcp_data (asynch_env driver) h id (record s { buffer = b }) ≡ some (tt, t)
      → IsRead first text t
  unfolding tcp_send_packet tcp_send_buffer send next_identfier
  out_of_order-IsRead first s t text b r some_data late e =
      let p : Net N Client = record s { buffer = b } in
      let (ended, same, app, nic) =
        tcp_data_out_of_order (asynch_env driver) h id p r.open_still some_data late in
      let final : t
          ≡ tcp_send_packet (asynch_env driver) id (s.connections id).send_sequence 0x10 0 p =
        cc in
      rw final (record {
        open_still = r.open_still;
        own = r.own;
        printed = r.printed;
        counted = r.counted;
      })

  no_data-IsRead :
      (first s t : Net N Client) (text : List ℕ) (b : Mem)
      → IsRead first text s
      → tcp_get_data_length b ≡ 0
      → tcp_data (asynch_env driver) h id (record s { buffer = b }) ≡ some (tt, t)
      → IsRead first text t
  no_data-IsRead first s t text b r none_here e =
      let p : Net N Client = record s { buffer = b } in
      let ended = tcp_data_none (asynch_env driver) h id p none_here in
      let final : t ≡ p = cc in
      rw final (record {
        open_still = r.open_still;
        own = r.own;
        printed = r.printed;
        counted = r.counted;
      })

  taken :
      (first s t : Net N Client) (text : List ℕ) (b : Mem) (length : ℕ)
      → id < 2
      → IsRead first text s
      → Arrives s b
      → handle length (record s { buffer = b }) ≡ some (tt, t)
      → tcp_data (asynch_env driver) h id (record s { buffer = b }) ≡ some (tt, t)
  taken first s t text b length small r a e =
      sym (
        tcp_handle_established (asynch_env driver) h id length (record s { buffer = b })
          (omega arith) a r.open_still)
      ∙ e

  answered :
      (first s : Net N Client) (text : List ℕ) (b : Mem)
      → IsRead first text s
      → HasNoEnd s b
      → (t : Net N Client) × (tcp_data (asynch_env driver) h id (record s { buffer = b })
          ≡ some (tt, t))
  unfolding asynch_env tcp_send_packet tcp_send_buffer send next_identfier
  answered first s text b r open_end =
      let length = tcp_get_data_length b in
      let p : Net N Client = record s { buffer = b } in
      elim (ℕ_discrete length 0) [
        | yes z ↦ (p, tcp_data_none (asynch_env driver) h id p z)
        | no nz ↦
            elim (ℕ_discrete (chars_to_long (offset b 0x26)) (s.connections id).expected_sequence) [
              | no late ↦
                  (_, (tcp_data_out_of_order (asynch_env driver) h id p r.open_still nz late).0)
              | yes next ↦
                  let (called, expected, left) =
                    tcp_data_in_order (asynch_env driver) h id p r.open_still nz next in
                  let s' = acknowledged (asynch_env driver) h id length p in
                  (
                    _,
                    called
                        ∙ asynch_prints_data (asynch_quiet driver) h id (offset s'.buffer 0x36) s'
                            r.own length (λ j lt z. open_end next j lt (sym (left j) ∙ z)),
                  )
            ]
      ]

  -- Whatever packets without FIN come in for the client's established connection, in any order and
  -- with repetitions: stdout gets the data of those that came in order, one behind the other and each
  -- once. The connection stays established, it stays the client's, and the sequence number expected
  -- is that of the byte behind them, modulo 2^32. The packets have a right checksum and are found to
  -- be of this connection, in place 0 or 1; those in order have no TCP options, and no 0 in their
  -- data; and the sequence number expected at first is below 2^32. The handler returns also from the
  -- next packet, if it is one of these.
  pub asynch_prints_in_order :
      (first t : Net N Client) (text : List ℕ)
      → id < 2
      → state_of (asynch_env driver) first id ≡ established
      → id ≡ first.app.globals
      → (first.connections id).expected_sequence < 2 ^ 32
      → Stream first text t
      → (t.app.stdout ≡ first.app.stdout ++ text)
        × (state_of (asynch_env driver) t id ≡ established)
        × (id ≡ t.app.globals)
        × ((t.connections id).expected_sequence
            ≡ add32 (first.connections id).expected_sequence (text_length text))
        × ((b : Mem) (length : ℕ)
            → Arrives t b
            → HasNoEnd t b
            → (t' : Net N Client) × (handle length (record t { buffer = b }) ≡ some (tt, t')))
  asynch_prints_in_order first t text small est own word stream =
      let r = read t text stream in
      (
        r.printed,
        r.open_still,
        r.own,
        r.counted,
        λ b length a open_end.
            let (t', e) = answered first t text b r open_end in
            (
              t',
              tcp_handle_established (asynch_env driver) h id length (record t { buffer = b })
                    (omega arith) a r.open_still
                  ∙ e,
            ),
      )
    where
      read : (t : Net N Client) (text : List ℕ) → Stream first text t → IsRead first text t
      read _ _ start = record {
        open_still = est;
        own = own;
        printed = sym (append-nil first.app.stdout);
        counted = omega (arith, word);
      }
      read _ _ (in_order text s t b length before a some_data place next no_end e) =
          let r = read s text before in
          rw place (
            in_order-IsRead first s t text b r some_data next no_end
              (taken first s t text b length small r a e))
      read _ _ (out_of_order text s t b length before a some_data late e) =
          let r = read s text before in
          out_of_order-IsRead first s t text b r some_data late
            (taken first s t text b length small r a e)
      read _ _ (no_data text s t b length before a none_here e) =
          let r = read s text before in
          no_data-IsRead first s t text b r none_here (taken first s t text b length small r a e)
