-- ===== src/Network/Runs.antt =====
-- The states that the start (src/network.c), the main loop and the calls of the application lead to:
-- a packet belongs to at most one connection.
use avr_net_enc28j.Base.{
  ℕ, ◌≤◌, ◌<◌, ◌≡◌, refl, sym, ◌∙◌, Bool, true, false, Option, some, ltb, Mem, offset, arith, same,
  same_iff,
}
use avr_net_enc28j.Net.{no_connection, TcpConnection, Net, Env}
use avr_net_enc28j.Net.Keeps.{kept}
use avr_net_enc28j.Udp.{udp_send_data, udp_send_data_tmp_port, udp_receive_data}
use avr_net_enc28j.Udp.Keeps.{
  udp_send_data-Keeps, udp_send_data_tmp_port-Keeps, udp_receive_data-Keeps,
}
use avr_net_enc28j.Tcp.Table.{is_free, tcp_init, tcp_is_connection}
use avr_net_enc28j.Tcp.Table.Lookup.{Belongs}
use avr_net_enc28j.Tcp.Table.Unique.{IsUnique, SameEnds}
use avr_net_enc28j.Tcp.Table.Kept.{IsKept, IsUnique-IsKept}
use avr_net_enc28j.Tcp.Handle.Keeps.{CallbacksKeep}
use avr_net_enc28j.Tcp.Client.{tcp_send_data, tcp_receive_data, tcp_disconnect}
use avr_net_enc28j.Tcp.Client.Keeps.{
  tcp_send_data-Keeps, tcp_receive_data-Keeps, tcp_disconnect-Keeps,
}
use avr_net_enc28j.Network.{net_init, handlers, net_handle_network}
use avr_net_enc28j.Network.Keeps.{handlers-Keeps, net_handle_network-Keeps}

Belongs-live : (b : Mem) (k : TcpConnection) → Belongs b k → is_free k.state ≡ false
unfolding tcp_is_connection
Belongs-live b k e = ground arith

Belongs-SameEnds : (b : Mem) (k k' : TcpConnection) → Belongs b k → Belongs b k' → SameEnds k k'
unfolding tcp_is_connection
Belongs-SameEnds b k k' e e' =
    let ip : same k.ip (offset b 26) 4 ≡ true = ground arith in
    let ip' : same k'.ip (offset b 26) 4 ≡ true = ground arith in
    let mac : same k.mac (offset b 6) 6 ≡ true = ground arith in
    let mac' : same k'.mac (offset b 6) 6 ≡ true = ground arith in
    record {
      ports = ground arith;
      remote_ports = ground arith;
      ips = λ i l.
          (same_iff k.ip (offset b 26) 4).0 ip i l
          ∙ sym ((same_iff k'.ip (offset b 26) 4).0 ip' i l);
      macs = λ i l.
          (same_iff k.mac (offset b 6) 6).0 mac i l
          ∙ sym ((same_iff k'.mac (offset b 6) 6).0 mac' i l);
    }

module _ {N A : Type 0} (env : Env N A) where
  -- Each call handles the packets that arrive while it waits, down to some depth.
  pub data Reaches : Net N A → Type 0 where
    begin : (s : Net N A) → env.config.with_tcp ≡ true → Reaches (net_init env s)
    works : (s : Net N A) (app : A) → Reaches s → Reaches (record s { app = app })
    network :
        (depth : ℕ) (s s' : Net N A)
        → Reaches s
        → net_handle_network env depth s ≡ some (tt, s')
        → Reaches s'
    tcp_sends :
        (depth id timeout data_length : ℕ) (payload : Net N A → Mem) (sent : Bool) (s s' : Net N A)
        → Reaches s
        → tcp_send_data env (handlers env depth) id timeout payload data_length s ≡ some (sent, s')
        → Reaches s'
    tcp_receives :
        (depth id timeout fuel : ℕ) (received : Option (ℕ × ℕ)) (s s' : Net N A)
        → Reaches s
        → tcp_receive_data env (handlers env depth) id timeout fuel s ≡ some (received, s')
        → Reaches s'
    tcp_disconnects :
        (depth id timeout : ℕ) (done : Bool) (s s' : Net N A)
        → Reaches s
        → tcp_disconnect env (handlers env depth) id timeout s ≡ some (done, s')
        → Reaches s'
    udp_sends :
        (depth remote_port port data_length sent : ℕ) (ip payload : Mem) (s s' : Net N A)
        → Reaches s
        → udp_send_data env (handlers env depth) ip remote_port port payload data_length s
          ≡ some (sent, s')
        → Reaches s'
    udp_sends_from_tmp_port :
        (depth remote_port data_length sent : ℕ) (ip payload : Mem) (s s' : Net N A)
        → Reaches s
        → udp_send_data_tmp_port env (handlers env depth) ip remote_port payload data_length s
          ≡ some (sent, s')
        → Reaches s'
    udp_receives :
        (depth remote_port port timeout : ℕ) (ip : Mem) (received : Option ℕ) (s s' : Net N A)
        → Reaches s
        → udp_receive_data env (handlers env depth) ip remote_port port timeout s
          ≡ some (received, s')
        → Reaches s'

  net_init-IsUnique :
      env.config.with_tcp ≡ true → (s : Net N A) → IsUnique env.config (net_init env s).connections
  unfolding net_init tcp_init
  net_init-IsUnique tcp s i j li lj fi fj e =
      let li' : ltb i env.config.tcp_max_connections ≡ true = ground arith in
      let free : (net_init env s).connections i
          ≡ record (s.connections i) { state = no_connection } =
        rw (tcp, li') refl in
      absurd (cc)

  module _ (small : env.config.tcp_max_connections ≤ 255)
      (callbacks : CallbacksKeep (IsUnique env.config) env) where
    abbrev U : (ℕ → TcpConnection) → Type 0
    U = IsUnique env.config

    law : IsKept env.config (IsUnique env.config)
    law = IsUnique-IsKept env.config small

    Reaches-IsUnique : (s : Net N A) → Reaches s → IsUnique env.config s.connections
    Reaches-IsUnique _ (begin s tcp) = net_init-IsUnique tcp s
    Reaches-IsUnique _ (works s app r) = Reaches-IsUnique s r
    Reaches-IsUnique _ (network depth s s' r e) =
        kept U (net_handle_network env depth) e (net_handle_network-Keeps U env law callbacks depth)
          (Reaches-IsUnique s r)
    Reaches-IsUnique _ (tcp_sends depth id timeout n payload sent s s' r e) =
        kept U (tcp_send_data env (handlers env depth) id timeout payload n) e
          (tcp_send_data-Keeps U env law (handlers env depth)
            (handlers-Keeps U env law callbacks depth) id timeout payload n)
          (Reaches-IsUnique s r)
    Reaches-IsUnique _ (tcp_receives depth id timeout fuel received s s' r e) =
        kept U (tcp_receive_data env (handlers env depth) id timeout fuel) e
          (tcp_receive_data-Keeps U env law (handlers env depth)
            (handlers-Keeps U env law callbacks depth) id timeout fuel)
          (Reaches-IsUnique s r)
    Reaches-IsUnique _ (tcp_disconnects depth id timeout done s s' r e) =
        let keep = handlers-Keeps U env law callbacks depth in
        kept U (tcp_disconnect env (handlers env depth) id timeout) e
          (tcp_disconnect-Keeps U env law (handlers env depth) keep id timeout
            (callbacks.tcp_on_disconnect (handlers env depth) keep id))
          (Reaches-IsUnique s r)
    Reaches-IsUnique _ (udp_sends depth remote_port port n sent ip payload s s' r e) =
        kept U (udp_send_data env (handlers env depth) ip remote_port port payload n) e
          (udp_send_data-Keeps U env law callbacks (handlers env depth)
            (handlers-Keeps U env law callbacks depth) ip remote_port port payload n)
          (Reaches-IsUnique s r)
    Reaches-IsUnique _ (udp_sends_from_tmp_port depth remote_port n sent ip payload s s' r e) =
        kept U (udp_send_data_tmp_port env (handlers env depth) ip remote_port payload n) e
          (udp_send_data_tmp_port-Keeps U env law callbacks (handlers env depth)
            (handlers-Keeps U env law callbacks depth) ip remote_port payload n)
          (Reaches-IsUnique s r)
    Reaches-IsUnique _ (udp_receives depth remote_port port timeout ip received s s' r e) =
        kept U (udp_receive_data env (handlers env depth) ip remote_port port timeout) e
          (udp_receive_data-Keeps U env law callbacks (handlers env depth)
            (handlers-Keeps U env law callbacks depth) ip remote_port port timeout)
          (Reaches-IsUnique s r)

    -- In every state that the start, the main loop's step and the application's calls lead to, however
    -- deep packets are handled while others are waited for, a packet belongs to at most one of the
    -- connections. At most 255 connections are configured; the callbacks keep the connections' ends
    -- apart and leave a new connection in use; `TcpConnect` is not among the calls.
    pub connection_is_determined :
        (s : Net N A)
        → Reaches s
        → (b : Mem) (i j : ℕ) → i < env.config.tcp_max_connections
        → j < env.config.tcp_max_connections
        → Belongs b (s.connections i)
        → Belongs b (s.connections j)
        → i ≡ j
    connection_is_determined s r b i j li lj bi bj =
        Reaches-IsUnique s r i j li lj (Belongs-live b (s.connections i) bi)
          (Belongs-live b (s.connections j) bj)
          (Belongs-SameEnds b (s.connections i) (s.connections j) bi bj)
