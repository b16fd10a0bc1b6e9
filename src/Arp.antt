-- ===== src/Arp.antt =====
-- src/arp.c: packets, and the cache of addresses.
pub mod Packets
pub mod Cache
pub mod Keeps
pub mod Eviction
use avr_net_enc28j.Base.{
  ℕ, zero, suc, ◌+◌, ◌-◌, ◌%◌, Bool, true, false, not, ◌||◌, ◌&&◌, Option, none, some, ltb, leb,
  ◌==◌, if◌then◌else◌, Mem, put, copy, same, offset,
}
use avr_net_enc28j.Util.{low, high}
use avr_net_enc28j.Net.{Config, ArpRow, Net, Env, Handlers, M, ◌>>=◌, ◌>>◌, modify, update}
use avr_net_enc28j.Ethernet.{eth_generate_header, eth_type_arp, send, eth_wait_packet}

abbrev pub arp_opcode_request : ℕ
arp_opcode_request = 1

abbrev pub arp_opcode_reply : ℕ
arp_opcode_reply = 2

abbrev pub arp_packet_len : ℕ
arp_packet_len = 28

-- Where an address pointer points: to memory of its own, or into the packet buffer, from which it
-- is read when it is used.
pub data Pointer : Type 0 where
  outside : Mem → Pointer
  inside : ℕ → Pointer

abbrev pub deref : Mem → Pointer → Mem
deref buffer (outside m) = m
deref buffer (inside at) = offset buffer at

-- `ArpInit`: the use counts of the rows below the cache's size are cleared.
unfoldable pub arp_init : ℕ → (ℕ → ArpRow) → ℕ → ArpRow
arp_init size cache i = if ltb i size then record (cache i) { use_count = 0 } else cache i

unfoldable pub arp_generate_packet : Config → Mem → Mem → Pointer → Mem
arp_generate_packet c buffer dest_mac dest_ip =
    let b = put (put buffer 0x0E 0x00) 0x0F 0x01 in
    let b = put (put b 0x10 0x08) 0x11 0x00 in
    let b = put (put b 0x12 6) 0x13 4 in
    let b = copy (copy b 0x20 dest_mac 6) 0x16 c.net_mac 6 in
    let b = copy b 0x26 (deref b dest_ip) 4 in copy b 0x1C c.net_ip 4

-- What `arp_send_request` puts into the buffer.
unfoldable pub arp_request : Config → Mem → Mem → Mem
arp_request c buffer dest_ip =
    let b = eth_generate_header c buffer eth_type_arp (λ i. 0xff) in
    let b = put (put b 0x14 0x00) 0x15 0x01 in arp_generate_packet c b (λ i. 0x00) (outside dest_ip)

-- What `ArpSendReply` puts into the buffer.
unfoldable pub arp_reply : Config → Mem → Mem → Mem
arp_reply c buffer dest_mac =
    let b = eth_generate_header c buffer eth_type_arp dest_mac in
    let b = put (put b 0x14 0x00) 0x15 0x02 in arp_generate_packet c b dest_mac (inside 0x1C)

unfoldable pub arp_packet_is_arp : Config → Mem → ℕ → Bool
arp_packet_is_arp c buffer opcode =
    if not (buffer 0x0C == 0x08) || not (buffer 0x0D == 0x06)
    then false
    else if not (buffer 0x14 == high opcode) || not (buffer 0x15 == low opcode)
    then false
    else same (offset buffer 0x26) c.net_ip 4

-- The use count of a row that is found: two more, up to 255.
abbrev pub used : ℕ → ℕ
used count = if leb 2 (255 - count) then count + 2 else 255

-- What the loop over the cache carries.
pub record Lookup : Type 0 where
  pub found : Option Mem
  pub min_use_cache_id : ℕ
  pub rows : ℕ → ArpRow

abbrev is_found : Option Mem → Bool
is_found none = false
is_found (some m) = true

-- One round of the loop of `ArpWhoIs`, at row `i`.
unfoldable pub arp_cache_step : Mem → ℕ → Lookup → Lookup
arp_cache_step dest_ip i l =
    let row = l.rows i in
    if not (is_found l.found) && not (row.use_count == 0) && same row.ip dest_ip 4
    then record l {
      found = some row.mac;
      rows = update l.rows i (record row { use_count = used row.use_count });
    }
    else let rows' = update l.rows i (record row { use_count = row.use_count - 1 }) in
      record l {
        rows = rows';
        min_use_cache_id =
            if ltb (rows' l.min_use_cache_id).use_count (rows' i).use_count
            then i
            else l.min_use_cache_id;
      }

-- The loop, from row `i` with `left` rows left.
unfoldable pub arp_cache_from : Mem → ℕ → ℕ → Lookup → Lookup
arp_cache_from dest_ip zero i l = l
arp_cache_from dest_ip (suc left) i l =
    arp_cache_from dest_ip left (i + 1) (arp_cache_step dest_ip i l)

unfoldable pub arp_lookup : ℕ → Mem → (ℕ → ArpRow) → Lookup
arp_lookup size dest_ip rows =
    arp_cache_from dest_ip size 0 (record { found = none; min_use_cache_id = 0; rows = rows })

-- The cache after a reply was stored into row `i`.
unfoldable pub arp_cache_store : ℕ → Mem → Mem → (ℕ → ArpRow) → ℕ → ArpRow
arp_cache_store i mac dest_ip rows =
    let row = rows i in
    update rows i (record {
      mac = copy row.mac 0 mac 6;
      ip = copy row.ip 0 dest_ip 4;
      use_count = if row.use_count == 0 then 2 else row.use_count;
    })

module _ {N A : Type 0} (env : Env N A) where
  open env use {config}

  unfoldable pub arp_send_request : Mem → Net N A → Net N A
  arp_send_request dest_ip s =
      send env (arp_request config s.buffer dest_ip) (14 + arp_packet_len) s

  unfoldable pub arp_send_reply : Mem → Net N A → Net N A
  arp_send_reply dest_mac s = send env (arp_reply config s.buffer dest_mac) (14 + arp_packet_len) s

  -- The part of `ArpWhoIs` behind the cache: ask, and wait up to 100 milliseconds. The replaced
  -- row is `i`. The result is the address written to `destMac`, `none` for a return of 0.
  unfoldable pub arp_ask : Handlers N A → Mem → ℕ → M N A (Option Mem)
  arp_ask h dest_ip i = do
    modify (arp_send_request dest_ip)
    dlength ← eth_wait_packet env h eth_type_arp 100
    λ s.
        (if dlength == 0
          then some (none, s)
          else if arp_packet_is_arp config s.buffer arp_opcode_reply
          then (let mac = offset s.buffer 6 in
              some (
                some mac,
                if config.net_arp_cache_size == 0
                    then s
                    else record s { arp_cache = arp_cache_store i mac dest_ip s.arp_cache },
              ))
          else (h.net_handle dlength >> λ s'. some (none, s')) s)

  unfoldable pub arp_who_is : Handlers N A → Mem → M N A (Option Mem)
  arp_who_is h dest_ip s =
      let l = arp_lookup config.net_arp_cache_size dest_ip s.arp_cache in
      let s' = record s { arp_cache = l.rows } in
      elim l.found [
        | some mac ↦ some (some mac, s')
        | none ↦ arp_ask h dest_ip l.min_use_cache_id s'
      ]
