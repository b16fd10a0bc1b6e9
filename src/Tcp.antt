-- ===== src/Tcp.antt =====
-- src/tcp.c. `Segment` has the functions on a packet in the buffer, `Table` the connections,
-- `Send` the outgoing packets, `Wait` the waiting for packets and the closing of a connection,
-- `Handle` the incoming packets, and `Client` what an application calls.
pub mod Segment
pub mod Table
pub mod Send
pub mod Wait
pub mod Handle
pub mod Client
