-- ===== src/Example/Asynch/Closing.antt =====
-- The end of a response in example/tcp_asynch_client/main.c.
use avr_net_enc28j.Base.{
  ℕ, ◌<◌, ◌≡◌, ◌≢◌, refl, ◌∙◌, true, false, not, some, List, [], ◌∷◌, ◌++◌, arith, leb, ◌==◌, Mem,
}
use avr_net_enc28j.Net.{no_connection, established, dyeing, Net, Env, Handlers, ◌>>=◌}
use avr_net_enc28j.Net.Calls.{NetEnds, TcpEnds}
use avr_net_enc28j.Tcp.Table.{tcp_invalid_connection_id}
use avr_net_enc28j.Tcp.Handle.{set_state, state_of, is_established}
use avr_net_enc28j.Tcp.Wait.{tcp_close}
use avr_net_enc28j.Tcp.Wait.Close.{tcp_close_frees}
use avr_net_enc28j.Tcp.Client.{tcp_disconnect}
use avr_net_enc28j.Example.{example_config, print}
use avr_net_enc28j.Example.Asynch.{
  Client, asynch_on_disconnect, asynch_quiet, asynch_env, set_connection_id,
}
use avr_net_enc28j.Example.Asynch.Printing.{bytes_from, asynch_prints_end}

module _ {N : Type 0} (driver : Env N Client) (id : ℕ) where
  -- The state in which the connection starts to be closed.
  abbrev pub closing : List ℕ → Net N Client → Net N Client
  closing text s =
      set_connection_id tcp_invalid_connection_id
        (set_state (asynch_quiet driver) id dyeing (print text s))

  disconnect_lem :
      (h : Handlers N Client) (text : List ℕ) (s t : Net N Client)
      → id ≡ s.app.globals
      → id < 2
      → state_of (asynch_quiet driver) s id ≡ established
      → tcp_close (asynch_quiet driver) h id 5000 (closing text s) ≡ some (tt, t)
      → tcp_disconnect (asynch_quiet driver) h id 5000 (print text s) ≡ some (true, t)
  unfolding tcp_disconnect asynch_quiet asynch_on_disconnect print example_config
  disconnect_lem h text s t own small est e =
      let here : leb 2 id ≡ false = ground arith in
      let live : not (is_established (s.connections id).state) ≡ false = rw est refl in
      let mine : (id == s.app.globals) ≡ true = ground arith in rw (here, live, mine, ◌>>=◌, e) refl

module _ {N : Type 0} (driver : Env N Client) (h : Handlers N Client) (Q : N → Type 0)
    (Fine : ℕ → Mem → Type 0) (net_ends : NetEnds Q Fine (asynch_quiet driver) h)
    (tcp_ends : TcpEnds Q Fine (asynch_quiet driver) h) (id : ℕ) (m : Mem) where
  -- The packet with the end of the response: the bytes before the first 0 are printed with a line end,
  -- and the client's established connection, of the two that there are, is closed: the callback comes
  -- back with the connection's place free, from a `TcpClose` that it enters with the variable
  -- `asynchClientConnectionId` marked as no connection. The network is one from whose frames the
  -- handlers of the packets in between return.
  pub asynch_response_ends :
      (s : Net N Client) (length k : ℕ)
      → Q s.nic
      → id ≡ s.app.globals
      → id < 2
      → state_of (asynch_env driver) s id ≡ established
      → k < length
      → ((j : ℕ) → j < k → m j ≢ 0)
      → m k ≡ 0
      → (t : Net N Client) × ((asynch_env driver).tcp_on_incoming_data h id m length s
          ≡ some (tt, t))
        × ((t.connections id).state ≡ no_connection)
        × (tcp_close
              (asynch_quiet driver)
              h
              id
              5000
              (closing driver id (bytes_from m 0 k ++ (b'\n' ∷ [])) s)
            ≡ some (tt, t))
  unfolding asynch_env print
  asynch_response_ends s length k q own small est inside before end =
      let text = bytes_from m 0 k ++ (b'\n' ∷ []) in
      let (t, e, free, q') =
        tcp_close_frees (asynch_quiet driver) h Q Fine net_ends tcp_ends id 5000 (omega arith)
          (closing driver id text s) q in
      let closed = disconnect_lem driver id h text s t own small est e in
      (
        t,
        asynch_prints_end (asynch_quiet driver) h id m s own length k inside before end
            ∙ rw (◌>>=◌, closed) refl,
        free,
        e,
      )
