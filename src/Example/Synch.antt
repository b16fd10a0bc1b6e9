-- ===== src/Example/Synch.antt =====
-- example/tcp_synch_client/main.c: a client that sends a request, and waits for the response.
use avr_net_enc28j.Base.{
  ℕ, zero, suc, ◌+◌, Bool, true, false, none, some, List, ◌==◌, if◌then◌else◌, Mem, offset,
}
use avr_net_enc28j.Net.{Net, Env, Handlers, M, ◌>>=◌, ◌>>◌, pure, modify, net_handle_result_drop}
use avr_net_enc28j.Tcp.Table.{tcp_invalid_connection_id}
use avr_net_enc28j.Tcp.Client.{tcp_connect, tcp_send_data, tcp_receive_data, tcp_disconnect}
use avr_net_enc28j.Network.{net_init, handlers, net_handle_network}
use avr_net_enc28j.Example.{
  Console, example_config, server_ip, test_message, text_bytes, putchar, puts,
}

-- The application has no globals.
abbrev pub Caller : Type 0
Caller = Console (Unit {0})

module _ {N : Type 0} where
  unfoldable pub synch_on_new_connection : Handlers N Caller → ℕ → M N Caller ℕ
  synch_on_new_connection h id = pure net_handle_result_drop

  -- `TcpOnConnect` and `TcpOnDisconnect`, which do nothing.
  unfoldable pub synch_on_change : Handlers N Caller → ℕ → M N Caller (Unit {0})
  synch_on_change h id = pure tt

  unfoldable pub synch_on_incoming_data : Handlers N Caller → ℕ → Mem → ℕ → M N Caller (Unit {0})
  synch_on_incoming_data h id bytes_in length = pure tt

  unfoldable pub synch_env : Env N Caller → Env N Caller
  synch_env driver = record driver {
    config = example_config;
    tcp_on_new_connection = synch_on_new_connection;
    tcp_on_connect = synch_on_change;
    tcp_on_incoming_data = synch_on_incoming_data;
    tcp_on_disconnect = synch_on_change;
  }

  -- The loop over the received bytes, from byte `i` with `left` bytes left. The Boolean says that the
  -- closing 0 was among them.
  unfoldable pub print_received : Mem → ℕ → ℕ → Net N Caller → Bool × Net N Caller
  print_received bytes_in zero i s = (false, s)
  print_received bytes_in (suc left) i s =
      let rest = print_received bytes_in left (i + 1) in
      if bytes_in i == 0 then (true, s) else rest (putchar (bytes_in i) s)

  module _ (env : Env N Caller) (h : Handlers N Caller) (id : ℕ) where
    -- `TcpDisconnect(clientConId, 1000)`, and a line for the error.
    unfoldable pub synch_fail : List ℕ → M N Caller (Unit {0})
    synch_fail line = tcp_disconnect env h id 1000 >>= λ done s. some (tt, puts line s)

    -- The end of the loop that receives.
    unfoldable pub synch_end : M N Caller (Unit {0})
    synch_end = tcp_disconnect env h id 5000 >>= λ done s. some (tt, putchar b'\n' s)

    -- The loop that receives, cut off after `fuel` rounds.
    unfoldable pub synch_receive : ℕ → M N Caller (Unit {0})
    synch_receive zero s = none
    synch_receive (suc fuel) s =
        let rest = synch_receive fuel in
        (tcp_receive_data env h id 60000 60001 >>= λ received. elim received [
          | none ↦ synch_fail (text_bytes "Receive response error")
          | some (position, length) ↦ λ s'.
              let (ended, s'') = print_received (offset s'.buffer position) length 0 s' in
              if ended then synch_end s'' else rest s''
        ])
          s

    unfoldable pub synch_send_request : ℕ → M N Caller (Unit {0})
    synch_send_request fuel = tcp_send_data env h id 5000 (λ _. test_message) 12 >>= λ sent s.
        if sent then synch_receive fuel s else synch_fail (text_bytes "Send request error") s

  -- `TcpSynchNotPersitentClientExample`.
  unfoldable pub synch_example : Env N Caller → Handlers N Caller → ℕ → M N Caller (Unit {0})
  synch_example env h fuel = tcp_connect env h server_ip 5000 6000 >>= λ id s.
      if id == tcp_invalid_connection_id
      then some (tt, puts (text_bytes "Tcp connect error") s)
      else synch_send_request env h id fuel s

  module _ (driver : Env N Caller) (depth fuel : ℕ) where
    -- A round of the loop of `main`; the delay of a second behind it changes nothing here.
    unfoldable pub synch_round : M N Caller (Unit {0})
    synch_round =
        let env = synch_env driver in
        net_handle_network env depth >> synch_example env (handlers env depth) fuel

    unfoldable pub synch_rounds : ℕ → M N Caller (Unit {0})
    synch_rounds zero = pure tt
    synch_rounds (suc rounds) = synch_round >> synch_rounds rounds

    -- `main` behind the start of the chip, for this many rounds.
    unfoldable pub synch_main : ℕ → M N Caller (Unit {0})
    synch_main rounds = modify (net_init (synch_env driver)) >> synch_rounds rounds
