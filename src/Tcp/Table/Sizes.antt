-- ===== src/Tcp/Table/Sizes.antt =====
-- The segment sizes of src/tcp.c: a connection's segments fit the buffer.
use avr_net_enc28j.Base.{ℕ, ◌+◌, ◌≤◌, ◌<◌, arith, Mem}
use avr_net_enc28j.Net.{Config}
use avr_net_enc28j.Tcp.Segment.{segment_size_at}

-- Whatever segment size the peer asks for, the connection's is from 1 to what the buffer holds
-- behind 54 bytes of headers, for a buffer of more than 54 and fewer than 65536 bytes.
pub segment_size_at_bounds :
    (c : Config) (b : Mem) (p : ℕ)
    → 54 < c.net_buffer_size
    → c.net_buffer_size < 65536
    → (1 ≤ segment_size_at c b p) × (54 + segment_size_at c b p ≤ c.net_buffer_size)
unfolding segment_size_at
segment_size_at_bounds c b p lo hi = (ground arith, ground arith)
