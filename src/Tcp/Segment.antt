-- ===== src/Tcp/Segment.antt =====
-- The functions of src/tcp.c on a TCP packet in the buffer: lengths, checksum and options.
pub mod Options
pub mod Verify
use Prim.Native.Nat.{bit_and}
use avr_net_enc28j.Base.{
  ℕ, zero, suc, ◌+◌, ◌*◌, ◌/◌, ◌%◌, Bool, true, false, not, ◌||◌, ◌&&◌, Option, none, some, ltb,
  leb, ◌==◌, if◌then◌else◌, Mem, put, offset,
}
use avr_net_enc28j.Util.{add16, sub16, chars_to_short, chars_put_short}
use avr_net_enc28j.Checksum.{software_checksum}
use avr_net_enc28j.Net.{Config}

abbrev pub tcp_flag_fin : ℕ
tcp_flag_fin = 0x01

abbrev pub tcp_flag_syn : ℕ
tcp_flag_syn = 0x02

abbrev pub tcp_flag_ack : ℕ
tcp_flag_ack = 0x10

abbrev pub tcp_header_len : ℕ
tcp_header_len = 20

abbrev pub tcp_option_max_segmet_size : ℕ
tcp_option_max_segmet_size = 2

-- `TCP_MAX_SEGMENT_SIZE`.
abbrev pub tcp_max_segment_size : Config → ℕ
tcp_max_segment_size c = sub16 c.net_buffer_size 54

-- `flags & mask`, as a test.
abbrev pub has_flag : ℕ → ℕ → Bool
has_flag flags mask = not (bit_and flags mask == 0)

unfoldable pub tcp_get_header_length : Mem → ℕ
tcp_get_header_length buffer = buffer 0x2E / 16 * 4 % 256

unfoldable pub tcp_get_data_position : Mem → ℕ
tcp_get_data_position buffer = 0x22 + tcp_get_header_length buffer

-- `dlength` is an `int` of 16 bits, so from 32768 on it stands for a negative number.
unfoldable pub tcp_get_data_length : Mem → ℕ
tcp_get_data_length buffer =
    let dlength =
      sub16 (sub16 (chars_to_short (offset buffer 0x10)) 20) (tcp_get_header_length buffer) in
    if dlength == 0 || leb 32768 dlength then 0 else dlength

unfoldable pub tcp_checksum : Mem → ℕ
tcp_checksum buffer =
    let length = tcp_get_header_length buffer + tcp_get_data_length buffer in
    software_checksum buffer 0x1A (add16 length 8) (add16 6 length)

-- The result, and the buffer, whose checksum field is cleared and put back.
unfoldable pub tcp_verify_checksum : Mem → Bool × Mem
tcp_verify_checksum buffer =
    let data_sum = chars_to_short (offset buffer 0x32) in
    let cleared = put (put buffer 0x32 0) 0x33 0 in
    let sum = tcp_checksum cleared in (data_sum == sum, chars_put_short cleared 0x32 data_sum)

-- The loop of `TcpGetOptionPosition`, at position `i`; `none` if it does not end within the fuel.
unfoldable pub option_position_from : Mem → ℕ → ℕ → ℕ → ℕ → Option ℕ
option_position_from buffer kind data_pos zero i = none
option_position_from buffer kind data_pos (suc fuel) i =
    let skip_one = option_position_from buffer kind data_pos fuel (add16 i 1) in
    let skip_option = option_position_from buffer kind data_pos fuel (add16 i (buffer (i + 1))) in
    if not (ltb i data_pos)
    then some 0
    else if buffer i == 0
    then some 0
    else if buffer i == kind
    then some i
    else if buffer i == 1
    then skip_one
    else skip_option

-- The header has at most 60 bytes, 40 of them options, and each round goes on by a byte or more.
abbrev pub option_fuel : ℕ
option_fuel = 41

unfoldable pub tcp_get_option_position : Mem → ℕ → Option ℕ
tcp_get_option_position buffer kind =
    option_position_from buffer kind (tcp_get_data_position buffer) option_fuel 0x36

-- The segment size that a peer asks for at this option position (0 for no option), cut off at the
-- library's own.
unfoldable pub segment_size_at : Config → Mem → ℕ → ℕ
segment_size_at c buffer option_position =
    let own = tcp_max_segment_size c in
    let asked = chars_to_short (offset buffer (option_position + 2)) in
    let size = if option_position == 0 then own else if asked == 0 then own else asked in
    if ltb own size then own else size
