-- ===== src/Tcp/Table/Unique.antt =====
-- No two connections of the table of src/tcp.c have the same ends.
use avr_net_enc28j.Base.{
  ℕ, ◌≤◌, ◌<◌, ◌≡◌, sym, ◌∙◌, true, false, some, arith, Mem, copy, same, offset, eq→same,
}
use native.Mathlib.Decide.{ℕ_discrete}
use avr_net_enc28j.Net.{Config, TcpConnection}
use avr_net_enc28j.Net.Update.{update_at, update_ne}
use avr_net_enc28j.Tcp.Table.{is_free, tcp_is_connection, tcp_get_connection_id, opened}
use avr_net_enc28j.Tcp.Table.Lookup.{
  Belongs, Decision, known, refused, fresh, tcp_get_connection_id_lem,
}

-- The same ports and addresses.
pub record SameEnds (k k' : TcpConnection) : Type 0 where
  pub ports : k.port ≡ k'.port
  pub remote_ports : k.remote_port ≡ k'.remote_port
  pub ips : (i : ℕ) → i < 4 → k.ip i ≡ k'.ip i
  pub macs : (i : ℕ) → i < 6 → k.mac i ≡ k'.mac i

SameEnds-sym : {k k' : TcpConnection} → SameEnds k k' → SameEnds k' k
SameEnds-sym e = record {
  ports = sym e.ports;
  remote_ports = sym e.remote_ports;
  ips = λ i h. sym (e.ips i h);
  macs = λ i h. sym (e.macs i h);
}

-- Of the connections in use, no two have the same ends.
abbrev pub IsUnique : Config → (ℕ → TcpConnection) → Type 0
IsUnique c connections =
    (i j : ℕ)
    → i < c.tcp_max_connections
    → j < c.tcp_max_connections
    → is_free (connections i).state ≡ false
    → is_free (connections j).state ≡ false
    → SameEnds (connections i) (connections j)
    → i ≡ j

opened-Belongs :
    (c : Config) (b : Mem) (p : ℕ) (old k : TcpConnection)
    → is_free k.state ≡ false
    → SameEnds (opened c b p old) k
    → Belongs b k
unfolding opened tcp_is_connection copy
opened-Belongs c b p old k live e =
    let ip_same : same k.ip (offset b 26) 4 ≡ true =
      eq→same k.ip (offset b 26) 4 (λ i h. ground (arith, e.ips i h)) in
    let mac_same : same k.mac (offset b 6) 6 ≡ true =
      eq→same k.mac (offset b 6) 6 (λ i h. ground (arith, e.macs i h)) in
    ground (arith, e.ports, e.remote_ports)

-- Handing out a connection for a packet keeps the ends of the connections in use apart, where the
-- function comes back and at most 255 connections are configured.
pub tcp_get_connection_id-IsUnique :
    (c : Config) (b : Mem) (connections : ℕ → TcpConnection) (id : ℕ) (after : ℕ → TcpConnection)
    → c.tcp_max_connections ≤ 255
    → tcp_get_connection_id c b connections ≡ some (id, after)
    → IsUnique c connections
    → IsUnique c after
tcp_get_connection_id-IsUnique c b connections id after small e u =
    keep (tcp_get_connection_id_lem c b connections id after small e)
  where
    keep : Decision c b connections id after → IsUnique c after
    keep (known lt own a) = rw a u
    keep (refused i a none_own full) = rw a u
    keep (fresh p lt first free none_own at a) = rw a λ i j li lj fi fj ends.
        elim (ℕ_discrete id i) [
          | yes ei ↦ elim (ℕ_discrete id j) [
            | yes ej ↦ sym ei ∙ ej
            | no nj ↦
                let here = update_at connections (opened c b p (connections id)) ei in
                let there = update_ne connections (opened c b p (connections id)) nj in
                absurd (
                  none_own j lj (
                    opened-Belongs c b p (connections id) (connections j) (rw there at fj)
                      (rw (here, there) at ends)))
          ]
          | no ni ↦ elim (ℕ_discrete id j) [
            | yes ej ↦
                let here = update_at connections (opened c b p (connections id)) ej in
                let there = update_ne connections (opened c b p (connections id)) ni in
                absurd (
                  none_own i li (
                    opened-Belongs c b p (connections id) (connections i) (rw there at fi)
                      (SameEnds-sym (rw (there, here) at ends))))
            | no nj ↦
                let here = update_ne connections (opened c b p (connections id)) ni in
                let there = update_ne connections (opened c b p (connections id)) nj in
                u i j li lj (rw here at fi) (rw there at fj) (rw (here, there) at ends)
          ]
        ]
