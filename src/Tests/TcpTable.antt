-- ===== src/Tests/TcpTable.antt =====
-- The theorems on the connection table and the options of src/tcp.c at fixed packets.
use avr_net_enc28j.Base.{ℕ, ◌+◌, ◌≤◌, ◌<◌, ◌≡◌, refl, none, some, arith}
use avr_net_enc28j.Net.{update, TcpConnection}
use avr_net_enc28j.Tcp.Segment.{
  option_position_from, tcp_get_option_position, tcp_get_data_position, tcp_get_header_length,
  segment_size_at,
}
use avr_net_enc28j.Tcp.Segment.Options.{
  Hangs, tcp_get_option_position-Hangs, tcp_get_option_position_zero_length,
  tcp_get_option_position_found, IsOption,
}
use avr_net_enc28j.Tcp.Table.{
  first_from, tcp_is_connection, tcp_find_connection, tcp_get_empty_conenction_id,
  tcp_get_connection_id, opened,
}
use avr_net_enc28j.Tcp.Table.Lookup.{Decision, tcp_get_connection_id_lem}
use avr_net_enc28j.Tcp.Table.Sizes.{segment_size_at_bounds}
use avr_net_enc28j.Tcp.Table.Unique.{IsUnique}
use avr_net_enc28j.Tests.Fixtures.{
  our_config, unused, empty_table, syn_frame, options_frame, bad_syn_frame, bad_syn_frame-IsBytes,
}

-- The table when `syn_frame` has opened a connection in place 0.
abbrev after_syn : ℕ → TcpConnection
after_syn = update empty_table 0 (opened our_config syn_frame 0x36 unused)

syn_frame_opens : tcp_get_connection_id our_config syn_frame empty_table ≡ some (0, after_syn)
unfolding tcp_get_connection_id tcp_find_connection tcp_get_empty_conenction_id first_from
    tcp_is_connection tcp_get_option_position option_position_from tcp_get_data_position
    tcp_get_header_length
syn_frame_opens = refl

tcp_get_connection_id_lem_example : Decision our_config syn_frame empty_table 0 after_syn
tcp_get_connection_id_lem_example =
    tcp_get_connection_id_lem our_config syn_frame empty_table 0 after_syn (omega arith)
      syn_frame_opens

empty_table-IsUnique : IsUnique our_config empty_table
empty_table-IsUnique i j li lj fi fj ends = absurd (cc)

tcp_get_option_position-Hangs_example :
    Hangs bad_syn_frame 2 (tcp_get_data_position bad_syn_frame) 0x36
unfolding tcp_get_option_position option_position_from tcp_get_data_position tcp_get_header_length
tcp_get_option_position-Hangs_example =
    tcp_get_option_position-Hangs bad_syn_frame 2 bad_syn_frame-IsBytes refl

tcp_get_option_position_zero_length_example :
    option_position_from bad_syn_frame 2 (tcp_get_data_position bad_syn_frame) 1000 0x36 ≡ none
unfolding tcp_get_data_position tcp_get_header_length
tcp_get_option_position_zero_length_example =
    tcp_get_option_position_zero_length bad_syn_frame 2 1000 (omega arith) (omega arith)
      (omega arith) (omega arith) refl

tcp_get_option_position_found_example :
    IsOption options_frame 0x3A
    × (0x3A < tcp_get_data_position options_frame)
    × (options_frame 0x3A ≡ 2)
unfolding tcp_get_option_position option_position_from tcp_get_data_position tcp_get_header_length
tcp_get_option_position_found_example =
    tcp_get_option_position_found options_frame 2 0x3A refl (omega arith)

segment_size_at_bounds_example :
    (1 ≤ segment_size_at our_config syn_frame 0x36)
    × (54 + segment_size_at our_config syn_frame 0x36 ≤ 600)
segment_size_at_bounds_example =
    segment_size_at_bounds our_config syn_frame 0x36 (omega arith) (omega arith)
