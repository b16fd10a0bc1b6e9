-- ===== src/Example/Asynch/Keeps.antt =====
-- The callbacks of example/tcp_asynch_client/main.c keep predicates on the table of connections.
use avr_net_enc28j.Base.{ℕ, zero, suc, ◌+◌, some, ◌==◌, Mem}
use avr_net_enc28j.Net.{TcpConnection, UdpDatagram, Net, Env, Handlers, pure}
use avr_net_enc28j.Net.Keeps.{if-After, Keeps, >>=-Keeps, HandlersKeep}
use avr_net_enc28j.Tcp.Table.{tcp_invalid_connection_id}
use avr_net_enc28j.Tcp.Table.Kept.{IsKept}
use avr_net_enc28j.Tcp.Handle.Keeps.{CallbacksKeep}
use avr_net_enc28j.Tcp.Client.{tcp_disconnect}
use avr_net_enc28j.Tcp.Client.Keeps.{tcp_disconnect-Keeps}
use avr_net_enc28j.Example.{print, putchar, example_config}
use avr_net_enc28j.Example.Asynch.{
  Client, set_connection_id, print_response, asynch_on_incoming_data, asynch_on_disconnect,
  asynch_on_connect, asynch_on_new_connection, asynch_quiet, asynch_env,
}

module _ {N : Type 0} (P : (ℕ → TcpConnection) → Type 0) (driver : Env N Client) where
  asynch_on_disconnect-Keeps :
      (h : Handlers N Client) (id : ℕ) → Keeps P (asynch_on_disconnect h id)
  unfolding asynch_on_disconnect
  asynch_on_disconnect-Keeps h id s u =
      if-After (λ (s' : Net N Client). P s'.connections) (id == s.app.globals)
        (some (tt, set_connection_id tcp_invalid_connection_id s)) (some (tt, s)) (λ _. u) (λ _. u)

  module _ (law : IsKept example_config P) (h : Handlers N Client) (keep : HandlersKeep P h)
      (id : ℕ) (m : Mem) where
    print_response-Keeps :
        (left i : ℕ) → Keeps P (print_response (asynch_quiet driver) h id m left i)
    unfolding print_response putchar print asynch_quiet
    print_response-Keeps zero i s u = u
    print_response-Keeps (suc left) i s u =
        if-After (λ (s' : Net N Client). P s'.connections) (m i == 0) _ _
          (λ _.
            >>=-Keeps P (tcp_disconnect (asynch_quiet driver) h id 5000) (λ _. pure tt)
              (tcp_disconnect-Keeps P (asynch_quiet driver) law h keep id 5000
                (asynch_on_disconnect-Keeps h id))
              (λ _ _ w. w) (putchar b'\n' s) u)
          (λ _. print_response-Keeps left (i + 1) (putchar (m i) s) u)

    asynch_on_incoming_data-Keeps :
        (length : ℕ) → Keeps P (asynch_on_incoming_data (asynch_quiet driver) h id m length)
    unfolding asynch_on_incoming_data
    asynch_on_incoming_data-Keeps length s u =
        if-After (λ (s' : Net N Client). P s'.connections) (id == s.app.globals) _ (some (tt, s))
          (λ _. print_response-Keeps length 0 s u) (λ _. u)

  -- The application's callbacks keep every predicate on the table of connections that the library's
  -- writes keep (`IsKept`), where the handlers that they are given do, and a new connection is left in
  -- use when it is judged. The UDP callback, which the application does not set, keeps the predicate.
  pub asynch_env-CallbacksKeep :
      IsKept example_config P
      → ((h : Handlers N Client)
          → (d : UdpDatagram) (m : Mem) (length : ℕ)
          → Keeps P (driver.udp_on_incoming_datagram h d m length))
      → CallbacksKeep P (asynch_env driver)
  unfolding asynch_env asynch_quiet asynch_on_new_connection asynch_on_connect
  asynch_env-CallbacksKeep law udp = record {
    tcp_on_new_connection = λ h keep id s u live. (u, live);
    tcp_on_connect = λ h keep id s u. u;
    tcp_on_incoming_data =
        λ h keep id m length. asynch_on_incoming_data-Keeps law h keep id m length;
    tcp_on_disconnect = λ h keep id. asynch_on_disconnect-Keeps h id;
    udp_on_incoming_datagram = λ h keep d m length. udp h d m length;
  }
