-- ===== src/Tcp/Table/Kept.antt =====
-- Predicates on the table of src/tcp.c that the library's writes keep.
use avr_net_enc28j.Base.{ℕ, ◌≤◌, ◌<◌, ◌≡◌, some, Mem}
use native.Mathlib.Decide.{ℕ_discrete}
use avr_net_enc28j.Net.{Config, TcpConnection, update}
use avr_net_enc28j.Net.Update.{update_at, update_ne}
use avr_net_enc28j.Tcp.Table.{tcp_get_connection_id, opened}
use avr_net_enc28j.Tcp.Table.Lookup.{Decision, known, refused, fresh, tcp_get_connection_id_lem}
use avr_net_enc28j.Tcp.Table.Sizes.{segment_size_at_bounds}
use avr_net_enc28j.Tcp.Table.Unique.{IsUnique, tcp_get_connection_id-IsUnique}
use avr_net_enc28j.Tcp.Table.Narrow.{Narrows, update-Narrows, update-IsUnique}

-- Writes of sequence numbers and states, and the opening of a connection.
pub record IsKept (c : Config) (P : (ℕ → TcpConnection) → Type 0) : Type 0 where
  pub write :
      (t : ℕ → TcpConnection) (id : ℕ) (k : TcpConnection)
      → Narrows (t id) k
      → P t
      → P (update t id k)
  pub open_connection :
      (b : Mem) (t : ℕ → TcpConnection) (id : ℕ) (after : ℕ → TcpConnection)
      → tcp_get_connection_id c b t ≡ some (id, after)
      → P t
      → P after

pub IsUnique-IsKept : (c : Config) → c.tcp_max_connections ≤ 255 → IsKept c (IsUnique c)
IsUnique-IsKept c small = record {
  write = update-IsUnique c;
  open_connection = λ b t id after e u. tcp_get_connection_id-IsUnique c b t id after small e u;
}

-- The segments of connection `id` hold a byte or more.
abbrev pub HasSize : ℕ → (ℕ → TcpConnection) → Type 0
HasSize id t = 1 ≤ (t id).max_segmet_size

Decision-HasSize :
    (c : Config) (b : Mem) (t : ℕ → TcpConnection) (id : ℕ) (after : ℕ → TcpConnection) (i : ℕ)
    → 54 < c.net_buffer_size
    → c.net_buffer_size < 65536
    → Decision c b t id after
    → HasSize i t
    → HasSize i after
unfolding opened
Decision-HasSize c b t id after i lo hi (known lt own a) p = rw a p
Decision-HasSize c b t id after i lo hi (refused j a none_own full) p = rw a p
Decision-HasSize c b t id after i lo hi (fresh q lt first free none_own at a) p =
    rw a (elim (ℕ_discrete id i) [
      | yes e ↦ rw (update_at t (opened c b q (t id)) e) (segment_size_at_bounds c b q lo hi).0
      | no ne ↦ rw (update_ne t (opened c b q (t id)) ne) p
    ])

pub HasSize-IsKept :
    (c : Config) (i : ℕ)
    → c.tcp_max_connections ≤ 255
    → 54 < c.net_buffer_size
    → c.net_buffer_size < 65536
    → IsKept c (HasSize i)
HasSize-IsKept c i small lo hi = record {
  write = λ t id k n p. rw (update-Narrows t id k n i).size p;
  open_connection = λ b t id after e p.
      Decision-HasSize c b t id after i lo hi (tcp_get_connection_id_lem c b t id after small e) p;
}
