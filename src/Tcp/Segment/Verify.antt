-- ===== src/Tcp/Segment/Verify.antt =====
-- `TcpVerifyChecksum` of src/tcp.c.
use avr_net_enc28j.Base.{◌≡◌, ◌↔◌, true, arith, fun_ext, Mem, IsBytes, put, offset}
use avr_net_enc28j.Util.{chars_to_short, chars_put_short}
use avr_net_enc28j.Tcp.Segment.{tcp_verify_checksum, tcp_checksum}

-- In a buffer of bytes, the test clears the checksum field and puts it back: the packet is as it
-- was.
pub tcp_verify_checksum_restores : (b : Mem) → IsBytes b → (tcp_verify_checksum b).1 ≡ b
unfolding tcp_verify_checksum chars_to_short chars_put_short put
tcp_verify_checksum_restores b h = fun_ext λ i. ground (arith, h 0x32, h 0x33)

-- It accepts exactly the packets whose field is the checksum of the packet with the field cleared.
pub tcp_verify_checksum_iff :
    (b : Mem)
    → ((tcp_verify_checksum b).0 ≡ true)
      ↔ (chars_to_short (offset b 0x32) ≡ tcp_checksum (put (put b 0x32 0) 0x33 0))
unfolding tcp_verify_checksum
tcp_verify_checksum_iff b = ground arith
