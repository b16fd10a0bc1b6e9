-- ===== src/Example/Asynch.antt =====
-- example/tcp_asynch_client/main.c: a client that sends a request, and prints the response when it
-- arrives.
pub mod Printing
pub mod Closing
pub mod Stream
pub mod Keeps
use avr_net_enc28j.Base.{ℕ, zero, suc, ◌+◌, Bool, true, false, some, ◌==◌, if◌then◌else◌, Mem}
use avr_net_enc28j.Net.{Net, Env, Handlers, M, ◌>>=◌, ◌>>◌, pure, modify, net_handle_result_drop}
use avr_net_enc28j.Tcp.Table.{tcp_invalid_connection_id}
use avr_net_enc28j.Tcp.Client.{tcp_connect, tcp_send_data, tcp_disconnect}
use avr_net_enc28j.Network.{net_init, handlers, net_handle_network}
use avr_net_enc28j.Example.{
  Console, example_config, server_ip, test_message, text_bytes, putchar, puts,
}

-- The application's memory, with the global `asynchClientConnectionId`.
abbrev pub Client : Type 0
Client = Console ℕ

module _ {N : Type 0} where
  -- `asynchClientConnectionId = id`.
  abbrev pub set_connection_id : ℕ → Net N Client → Net N Client
  set_connection_id id s = record s { app = record (s.app) { globals = id } }

  unfoldable pub asynch_on_new_connection : Handlers N Client → ℕ → M N Client ℕ
  asynch_on_new_connection h id = pure net_handle_result_drop

  unfoldable pub asynch_on_connect : Handlers N Client → ℕ → M N Client (Unit {0})
  asynch_on_connect h id = pure tt

  unfoldable pub asynch_on_disconnect : Handlers N Client → ℕ → M N Client (Unit {0})
  asynch_on_disconnect h id s =
      if id == s.app.globals
      then some (tt, set_connection_id tcp_invalid_connection_id s)
      else some (tt, s)

  module _ (env : Env N Client) (h : Handlers N Client) where
    -- The loop of `TcpOnIncomingData`, from byte `i` with `left` bytes left.
    unfoldable pub print_response : ℕ → Mem → ℕ → ℕ → M N Client (Unit {0})
    print_response id bytes_in zero i s = some (tt, s)
    print_response id bytes_in (suc left) i s =
        let rest = print_response id bytes_in left (i + 1) in
        if bytes_in i == 0
        then (tcp_disconnect env h id 5000 >>= λ done. pure tt) (putchar b'\n' s)
        else rest (putchar (bytes_in i) s)

    unfoldable pub asynch_on_incoming_data : ℕ → Mem → ℕ → M N Client (Unit {0})
    asynch_on_incoming_data id bytes_in length s =
        if id == s.app.globals then print_response id bytes_in length 0 s else some (tt, s)

    -- What `TcpAsynchNotPersitentClientExample` does with a connection.
    unfoldable pub asynch_send_request : ℕ → M N Client (Unit {0})
    asynch_send_request id = tcp_send_data env h id 5000 (λ _. test_message) 12 >>= λ sent s.
        if sent
        then some (tt, s)
        else (tcp_disconnect env h s.app.globals 1000 >>= λ done s'. some (
          tt,
          puts (text_bytes "Send request error") (set_connection_id tcp_invalid_connection_id s'),
        ))
            s

    -- `TcpAsynchNotPersitentClientExample`.
    unfoldable pub asynch_example : M N Client (Unit {0})
    asynch_example = tcp_connect env h server_ip 5000 6000 >>= λ id s.
        let s' = set_connection_id id s in
        if id == tcp_invalid_connection_id
        then some (tt, puts (text_bytes "Tcp connect error") s')
        else asynch_send_request id s'

  -- The application's settings, and its callbacks but `TcpOnIncomingData`, over a driver.
  unfoldable pub asynch_quiet : Env N Client → Env N Client
  asynch_quiet driver = record driver {
    config = example_config;
    tcp_on_new_connection = asynch_on_new_connection;
    tcp_on_connect = asynch_on_connect;
    tcp_on_disconnect = asynch_on_disconnect;
  }

  -- The application. `TcpDisconnect` calls no callback but `TcpOnDisconnect`, so `TcpOnIncomingData`
  -- is given the environment without itself.
  unfoldable pub asynch_env : Env N Client → Env N Client
  asynch_env driver = record (asynch_quiet driver) {
    tcp_on_incoming_data = asynch_on_incoming_data (asynch_quiet driver);
  }

  module _ (driver : Env N Client) (depth : ℕ) where
    -- A round of the loop of `main`.
    unfoldable pub asynch_round : M N Client (Unit {0})
    asynch_round =
        let env = asynch_env driver in
        net_handle_network env depth >>= λ handled s.
        if s.app.globals == tcp_invalid_connection_id
        then asynch_example env (handlers env depth) s
        else some (tt, s)

    unfoldable pub asynch_rounds : ℕ → M N Client (Unit {0})
    asynch_rounds zero = pure tt
    asynch_rounds (suc rounds) = asynch_round >> asynch_rounds rounds

    -- `main` behind the start of the chip, for this many rounds.
    unfoldable pub asynch_main : ℕ → M N Client (Unit {0})
    asynch_main rounds =
        modify (set_connection_id tcp_invalid_connection_id)
        >> modify (net_init (asynch_env driver))
        >> asynch_rounds rounds
