-- ===== src/Tcp/Table/Lookup.antt =====
-- `TcpGetConnectionId` of src/tcp.c: which connection a packet belongs to, and that no two
-- connections of the table have the same ends.
use avr_net_enc28j.Base.{
  ℕ, zero, suc, ◌+◌, ◌≤◌, ◌<◌, ◌≡◌, ◌≢◌, ◌⊎◌, inl, inr, refl, Bool, true, false, some, arith, Mem,
  offset, ◌==◌, if◌then◌else◌, Bool-cases, Option-cases,
}
use native.Mathlib.Decide.{ℕ_discrete}
use avr_net_enc28j.Util.{chars_to_short}
use avr_net_enc28j.Net.{Config, TcpConnection, update}
use avr_net_enc28j.Tcp.Segment.{tcp_flag_syn, tcp_get_option_position, tcp_option_max_segmet_size}
use avr_net_enc28j.Tcp.Table.{
  is_free, first_from, tcp_is_connection, tcp_find_connection, tcp_get_empty_conenction_id,
  tcp_get_connection_id, opened,
}

-- The first index that passes the test, or the invalid id when none does.
first_from-cases :
    (test : ℕ → Bool) (left i : ℕ)
    → i + left ≤ 255
    → ((first_from test left i < i + left)
        × (i ≤ first_from test left i)
        × (test (first_from test left i) ≡ true))
      ⊎ ((first_from test left i ≡ 255) × ((j : ℕ) → i ≤ j → j < i + left → test j ≡ false))
unfolding first_from
first_from-cases test zero i h = inr (refl, λ j lo hi. absurd (omega arith))
first_from-cases test (suc left) i h = elim (Bool-cases (test i)) [
  | inl t ↦ inl (rw t (omega arith), rw t (omega arith), rw (t, if◌then◌else◌) t)
  | inr t ↦ elim (first_from-cases test left (i + 1) (omega arith)) [
    | inl (lt, le, ok) ↦ inl (rw t (omega arith), rw t (omega arith), rw (t, if◌then◌else◌) ok)
    | inr (e, all) ↦ inr (
      rw t e,
      λ j lo hi. elim (ℕ_discrete j i) [
        | yes here ↦ rw here t
        | no other ↦ all j (omega arith) (omega arith)
      ],
    )
  ]
]

-- The ends of the connection that a packet in the buffer belongs to.
abbrev pub Belongs : Mem → TcpConnection → Type 0
Belongs b c =
    tcp_is_connection b c (chars_to_short (offset b 0x24)) (chars_to_short (offset b 0x22)) ≡ true

module _ (c : Config) (b : Mem) (connections : ℕ → TcpConnection) where
  abbrev is_own : ℕ → Bool
  is_own i =
      tcp_is_connection b (connections i) (chars_to_short (offset b 0x24))
        (chars_to_short (offset b 0x22))

  abbrev is_empty : ℕ → Bool
  is_empty i = is_free (connections i).state

  -- What `TcpGetConnectionId` decides: the id `id`, and the table `after`.
  pub data Decision (id : ℕ) (after : ℕ → TcpConnection) : Type 0 where
    known :
        id < c.tcp_max_connections
        → Belongs b (connections id)
        → after ≡ connections
        → Decision id after
    refused :
        id ≡ 255
        → after ≡ connections
        → ((j : ℕ) → j < c.tcp_max_connections → ¬ Belongs b (connections j))
        → (b 0x2F ≢ tcp_flag_syn)
          ⊎ ((j : ℕ) → j < c.tcp_max_connections → is_free (connections j).state ≡ false)
        → Decision id after
    fresh :
        (p : ℕ)
        → id < c.tcp_max_connections
        → b 0x2F ≡ tcp_flag_syn
        → is_free (connections id).state ≡ true
        → ((j : ℕ) → j < c.tcp_max_connections → ¬ Belongs b (connections j))
        → tcp_get_option_position b tcp_option_max_segmet_size ≡ some p
        → after ≡ update connections id (opened c b p (connections id))
        → Decision id after

  module _ (id : ℕ) (after : ℕ → TcpConnection) (small : c.tcp_max_connections ≤ 255) where
    -- The packet belongs to none of the connections, and `e` is what is left of the function.
    unknown-Decision :
        tcp_find_connection c.tcp_max_connections connections b ≡ 255
        → ((j : ℕ) → j < c.tcp_max_connections → ¬ Belongs b (connections j))
        → tcp_get_connection_id c b connections ≡ some (id, after)
        → Decision id after
    unfolding tcp_get_connection_id tcp_get_empty_conenction_id
    unknown-Decision none_found all e = elim (Bool-cases (b 0x2F == tcp_flag_syn)) [
      | inr other ↦ refused (ground arith) (ground arith) all (inl (ground arith))
      | inl first ↦ elim (first_from-cases is_empty c.tcp_max_connections 0 (omega arith)) [
        | inr (full, taken) ↦
            refused (ground arith) (ground arith) all
              (inr (λ j lt. taken j (omega arith) (omega arith)))
        | inl (lt, le, ok) ↦
            elim (Option-cases (tcp_get_option_position b tcp_option_max_segmet_size)) [
              | inl hangs ↦ absurd (ground arith)
              | inr (p, at) ↦
                  let here : id ≡ tcp_get_empty_conenction_id c.tcp_max_connections connections =
                    ground arith in
                  let there : after ≡ (
                      let free = tcp_get_empty_conenction_id c.tcp_max_connections connections in
                      update connections free (opened c b p (connections free))) =
                    ground arith in
                  fresh p (rw here (omega arith)) (ground arith) (rw here ok) all at (rw here there)
            ]
      ]
    ]

    -- Where the function comes back, with at most 255 connections configured: a packet is given to
    -- the connection in use whose ends it carries. One that belongs to none opens a connection in
    -- a free place of the table, if it is a first packet and there is one; all others are refused
    -- with the invalid id, and the table stays as it is.
    pub tcp_get_connection_id_lem :
        tcp_get_connection_id c b connections ≡ some (id, after) → Decision id after
    unfolding tcp_find_connection tcp_get_connection_id
    tcp_get_connection_id_lem e =
        elim (first_from-cases is_own c.tcp_max_connections 0 (omega arith)) [
          | inl (lt, le, ok) ↦
              let here : id ≡ first_from is_own c.tcp_max_connections 0 = ground arith in
              known (rw here (omega arith)) (rw here ok) (ground arith)
          | inr (none_found, all) ↦
              unknown-Decision none_found
                (λ j lt own. absurd (cc (all j (omega arith) (omega arith)))) e
        ]
