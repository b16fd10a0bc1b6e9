-- ===== src/Tcp/Table.antt =====
-- The table of connections of src/tcp.c.
pub mod Unique
pub mod Narrow
pub mod Kept
pub mod Lookup
pub mod Sizes
use avr_net_enc28j.Base.{
  ℕ, zero, suc, ◌+◌, ◌%◌, Bool, true, false, not, ◌&&◌, Option, none, some, ltb, leb, ◌==◌,
  if◌then◌else◌, Mem, copy, same, offset,
}
use avr_net_enc28j.Util.{add32, chars_to_short, chars_to_long}
use avr_net_enc28j.Net.{Config, TcpState, no_connection, new, TcpConnection, Net, Env, M, update}
use avr_net_enc28j.Tcp.Segment.{
  tcp_flag_syn, tcp_get_option_position, tcp_option_max_segmet_size, segment_size_at,
}

abbrev pub tcp_invalid_connection_id : ℕ
tcp_invalid_connection_id = 0xff

abbrev pub is_free : TcpState → Bool
is_free no_connection = true
is_free _ = false

-- `TcpInit`.
unfoldable pub tcp_init : ℕ → (ℕ → TcpConnection) → ℕ → TcpConnection
tcp_init size connections i =
    if ltb i size then record (connections i) { state = no_connection } else connections i

-- `TcpGetConnection`, by id; `none` for the null pointer.
unfoldable pub tcp_get_connection : ℕ → (ℕ → TcpConnection) → ℕ → Option TcpConnection
tcp_get_connection size connections id =
    if leb size id
    then none
    else if is_free (connections id).state
    then none
    else some (connections id)

unfoldable pub tcp_is_connection : Mem → TcpConnection → ℕ → ℕ → Bool
tcp_is_connection buffer c port remote_port =
    not (is_free c.state)
    && c.port == port
    && c.remote_port == remote_port
    && same c.ip (offset buffer 26) 4
    && same c.mac (offset buffer 6) 6

-- The first index from `i` on, of `left` many, that passes the test.
unfoldable pub first_from : (ℕ → Bool) → ℕ → ℕ → ℕ
first_from test zero i = tcp_invalid_connection_id
first_from test (suc left) i = let rest = first_from test left (i + 1) in if test i then i else rest

-- The loop of `TcpGetEmptyConenctionId`.
unfoldable pub tcp_get_empty_conenction_id : ℕ → (ℕ → TcpConnection) → ℕ
tcp_get_empty_conenction_id size connections =
    first_from (λ i. is_free (connections i).state) size 0

-- The loop of `TcpGetConnectionId`.
unfoldable pub tcp_find_connection : ℕ → (ℕ → TcpConnection) → Mem → ℕ
tcp_find_connection size connections buffer =
    first_from
      (λ i.
        tcp_is_connection buffer (connections i) (chars_to_short (offset buffer 0x24))
          (chars_to_short (offset buffer 0x22)))
      size 0

-- The connection that a first packet opens, in the place of `old`.
unfoldable pub opened : Config → Mem → ℕ → TcpConnection → TcpConnection
opened c buffer option_position old = record {
  send_sequence = 2;
  expected_sequence = add32 (chars_to_long (offset buffer 0x26)) 1;
  port = chars_to_short (offset buffer 0x24);
  remote_port = chars_to_short (offset buffer 0x22);
  max_segmet_size = segment_size_at c buffer option_position;
  state = new;
  ip = copy old.ip 0 (offset buffer 26) 4;
  mac = copy old.mac 0 (offset buffer 6) 6;
}

-- `TcpGetConnectionId`, and the table that it leaves. `none` if the options do not end.
unfoldable pub tcp_get_connection_id :
    Config → Mem → (ℕ → TcpConnection) → Option (ℕ × (ℕ → TcpConnection))
tcp_get_connection_id c buffer connections =
    let size = c.tcp_max_connections in
    let known = tcp_find_connection size connections buffer in
    let free = tcp_get_empty_conenction_id size connections in
    if not (known == tcp_invalid_connection_id)
    then some (known, connections)
    else if not (buffer 0x2F == tcp_flag_syn)
    then some (tcp_invalid_connection_id, connections)
    else if free == tcp_invalid_connection_id
    then some (tcp_invalid_connection_id, connections)
    else elim (tcp_get_option_position buffer tcp_option_max_segmet_size) [
      | none ↦ none
      | some p ↦ some (free, update connections free (opened c buffer p (connections free)))
    ]
