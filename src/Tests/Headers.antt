-- ===== src/Tests/Headers.antt =====
-- The theorems on the readers and writers of src/util.c, the checksum and the headers of
-- src/ip.c at fixed values.
use avr_net_enc28j.Base.{
  ◌+◌, ◌-◌, ◌^◌, ◌%◌, ◌<◌, ◌≡◌, ◌↔◌, refl, true, [], ◌∷◌, some, arith, Mem, same, bytes, offset,
}
use avr_net_enc28j.Util.{chars_to_short, parse_long}
use avr_net_enc28j.Util.Decimal.{IsDigits, decimal, parse_long_iff}
use avr_net_enc28j.Checksum.{software_checksum}
use avr_net_enc28j.Checksum.Laws.{word_sum, residue, software_checksum-residue}
use avr_net_enc28j.Ip.{ip_generate_header, ip_packet_is_ip}
use avr_net_enc28j.Ip.Header.{ip_generate_header_accepted}
use avr_net_enc28j.Tests.Fixtures.{our_config, their_config, our_ip, their_ip, data_frame}

-- The digits 1024.
abbrev digits : Mem
digits = bytes (49 ∷ 48 ∷ 50 ∷ 52 ∷ [])

parse_long_iff_example :
    (parse_long digits 4 ≡ some 1024)
    ↔ ((0 < 4) × IsDigits digits 4 × (1024 ≡ decimal digits 4 % 2 ^ 32))
parse_long_iff_example = parse_long_iff digits 4 1024

software_checksum-residue_example :
    software_checksum digits 0 4 0 ≡ 65535 - residue (word_sum digits 0 4 + 0)
unfolding word_sum
software_checksum-residue_example = software_checksum-residue digits 0 4 0 (omega arith)

ip_generate_header_accepted_example :
    let packet = ip_generate_header our_config 7 data_frame 40 6 their_ip in
    (ip_packet_is_ip their_config packet ≡ true)
    × (packet 23 ≡ 6)
    × (chars_to_short (offset packet 16) ≡ 40)
    × (same (offset packet 26) our_ip 4 ≡ true)
unfolding same
ip_generate_header_accepted_example =
    ip_generate_header_accepted our_config 7 data_frame 40 6 their_ip their_config refl refl refl
      (omega arith) (omega arith)
