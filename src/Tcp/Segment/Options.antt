-- ===== src/Tcp/Segment/Options.antt =====
-- `TcpGetOptionPosition` of src/tcp.c: what it finds, and when it comes back.
use avr_net_enc28j.Base.{
  ℕ, zero, suc, ◌+◌, ◌≤◌, ◌<◌, ◌≡◌, ◌≢◌, ◌⊎◌, inl, inr, refl, sym, ◌∙◌, not, none, some, arith, Mem,
  IsBytes, ltb, ◌==◌, if◌then◌else◌, Bool-cases,
}
use native.Mathlib.Nat.{le_refl, le_trans}
use native.Mathlib.Decide.{ℕ_discrete}
use avr_net_enc28j.Util.{add16}
use avr_net_enc28j.Tcp.Segment.{
  option_position_from, tcp_get_option_position, tcp_get_data_position, tcp_get_header_length,
  option_fuel,
}

module _ (b : Mem) where
  -- Where the option list has an option: at its start, one byte after a filler, and behind an
  -- option by as much as its length byte counts.
  pub data IsOption : ℕ → Type 0 where
    first : IsOption 0x36
    behind_filler : (i : ℕ) → IsOption i → b i ≡ 1 → IsOption (add16 i 1)
    behind_option : (i : ℕ) → IsOption i → b i ≢ 0 → b i ≢ 1 → IsOption (add16 i (b (i + 1)))

module _ (b : Mem) (kind data_pos : ℕ) where
  -- An option whose length byte is 0 stands at `j`: the loop comes back to `j` for ever.
  pub record IsStuck (j : ℕ) : Type 0 where
    pub inside : j < data_pos
    pub small : j < 65536
    pub not_end : b j ≢ 0
    pub not_kind : b j ≢ kind
    pub not_skip : b j ≢ 1
    pub no_length : b (j + 1) ≡ 0

  stuck_loops : (j fuel : ℕ) → IsStuck j → option_position_from b kind data_pos fuel j ≡ none
  unfolding option_position_from
  stuck_loops j zero h = refl
  stuck_loops j (suc fuel) h =
      let back : add16 j (b (j + 1)) ≡ j = omega arith in ground (arith, stuck_loops j fuel h, back)

  -- Where the loop goes on from `i`, if it does.
  abbrev next : ℕ → ℕ
  next i = if b i == 1 then add16 i 1 else add16 i (b (i + 1))

  -- A round ends the loop with an answer, or goes on at `next i`.
  round :
      (i : ℕ)
      → ((p : ℕ) × ((fuel : ℕ) → option_position_from b kind data_pos (suc fuel) i ≡ some p))
        ⊎ ((i < data_pos)
            × (b i ≢ 0)
            × (b i ≢ kind)
            × ((fuel : ℕ)
                → option_position_from b kind data_pos (suc fuel) i
                  ≡ option_position_from b kind data_pos fuel (next i)))
  unfolding option_position_from
  round i = elim (Bool-cases (not (ltb i data_pos))) [
    | inl e ↦ inl (0, λ fuel. rw e refl)
    | inr e ↦ elim (Bool-cases (b i == 0)) [
      | inl z ↦ inl (0, λ fuel. rw (e, z) refl)
      | inr z ↦ elim (Bool-cases (b i == kind)) [
        | inl k ↦ inl (i, λ fuel. rw (e, z, k) refl)
        | inr k ↦ inr (ground arith, ground arith, ground arith, λ fuel. ground arith)
      ]
    ]
  ]

  -- The loop does not come back from `i`, whatever the fuel, for it meets an option of length 0.
  pub record Hangs (i : ℕ) : Type 0 where
    pub stuck_at : ℕ
    pub from_start : i ≤ stuck_at
    pub is_stuck : IsStuck stuck_at
    pub never : (fuel : ℕ) → option_position_from b kind data_pos fuel i ≡ none

  next-Hangs :
      (i : ℕ)
      → i ≤ next i
      → ((fuel : ℕ)
          → option_position_from b kind data_pos (suc fuel) i
            ≡ option_position_from b kind data_pos fuel (next i))
      → Hangs (next i)
      → Hangs i
  next-Hangs i le goes_on r = record {
    stuck_at = r.stuck_at;
    from_start = le_trans le r.from_start;
    is_stuck = r.is_stuck;
    never = never;
  }
    where
      never : (fuel : ℕ) → option_position_from b kind data_pos fuel i ≡ none
      never zero = unfold option_position_from in refl
      never (suc fuel) = goes_on fuel ∙ r.never fuel

  none-Hangs :
      IsBytes b
      → data_pos < 65000
      → (fuel i : ℕ) → data_pos ≤ i + fuel
      → option_position_from b kind data_pos (suc fuel) i ≡ none
      → Hangs i
  none-Hangs bytes small zero i enough e = elim (round i) [
    | inl (p, back) ↦ absurd (cc (back 0))
    | inr (lt, nz, nk, goes_on) ↦ absurd (omega arith)
  ]
  none-Hangs bytes small (suc fuel) i enough e = elim (round i) [
    | inl (p, back) ↦ absurd (cc (back (suc fuel)))
    | inr (lt, nz, nk, goes_on) ↦ elim (ℕ_discrete (next i) i) [
      | yes same ↦
          let stuck : IsStuck i = ground (arith, bytes (i + 1)) in
          record {
            stuck_at = i;
            from_start = le_refl i;
            is_stuck = stuck;
            never = λ fuel. stuck_loops i fuel stuck;
          }
      | no other ↦
          let later : i < next i = ground (arith, bytes (i + 1)) in
          next-Hangs i (omega arith) goes_on
            (none-Hangs bytes small fuel (next i) (omega arith) (sym (goes_on (suc fuel)) ∙ e))
    ]
  ]

  next-IsOption : (i : ℕ) → IsOption b i → b i ≢ 0 → IsOption b (next i)
  next-IsOption i o nz = elim (Bool-cases (b i == 1)) [
    | inl e ↦ rw e (behind_filler i o (ground arith))
    | inr e ↦ rw e (behind_option i o nz (ground arith))
  ]

  -- What the loop returns, other than 0, is the position of an option of the kind asked for.
  some-IsOption :
      (fuel i p : ℕ)
      → IsOption b i
      → option_position_from b kind data_pos fuel i ≡ some p
      → p ≢ 0
      → IsOption b p × (p < data_pos) × (b p ≡ kind)
  unfolding option_position_from
  some-IsOption zero i p o e nz = cc
  some-IsOption (suc fuel) i p o e nz = elim (Bool-cases (not (ltb i data_pos))) [
    | inl t ↦ absurd (ground arith)
    | inr t ↦ elim (Bool-cases (b i == 0)) [
      | inl z ↦ absurd (ground arith)
      | inr z ↦ elim (Bool-cases (b i == kind)) [
        | inl k ↦
            let here : i ≡ p = ground arith in
            let found : IsOption b i × (i < data_pos) × (b i ≡ kind) =
              (o, ground arith, ground arith) in
            rw here at found
        | inr k ↦ some-IsOption fuel (next i) p (next-IsOption i o (ground arith)) (ground arith) nz
      ]
    ]
  ]

tcp_get_header_length-le : (b : Mem) → IsBytes b → tcp_get_header_length b ≤ 60
unfolding tcp_get_header_length
tcp_get_header_length-le b h = omega (arith, h 0x2E)

-- The header has at most 60 bytes, so the fuel of the model decides, in a buffer of bytes: where
-- the search for an option runs out of it, the loop of the source never ends. It hangs at an
-- option inside the header whose length byte is 0.
pub tcp_get_option_position-Hangs :
    (b : Mem) (kind : ℕ)
    → IsBytes b
    → tcp_get_option_position b kind ≡ none
    → Hangs b kind (tcp_get_data_position b) 0x36
unfolding tcp_get_option_position tcp_get_data_position
tcp_get_option_position-Hangs b kind h e =
    none-Hangs b kind (0x22 + tcp_get_header_length b) h
      (omega (arith, tcp_get_header_length-le b h)) 40 0x36
      (omega (arith, tcp_get_header_length-le b h)) e

-- A packet whose first option has length 0, and is not of the kind searched for, nor the end of
-- the list nor a filler, keeps the loop of the source from ever ending.
pub tcp_get_option_position_zero_length :
    (b : Mem) (kind fuel : ℕ)
    → 0x36 < tcp_get_data_position b
    → b 0x36 ≢ 0
    → b 0x36 ≢ 1
    → b 0x36 ≢ kind
    → b 0x37 ≡ 0
    → option_position_from b kind (tcp_get_data_position b) fuel 0x36 ≡ none
tcp_get_option_position_zero_length b kind fuel lt nz ns nk z =
    stuck_loops b kind (tcp_get_data_position b) 0x36 fuel (record {
      inside = lt;
      small = omega arith;
      not_end = nz;
      not_kind = nk;
      not_skip = ns;
      no_length = z;
    })

-- What `TcpGetOptionPosition` finds, where its result is not 0, is an option of the kind asked
-- for, inside the header: a position that the list of options reaches from its start at 0x36 by
-- stepping over the fillers and, by their length bytes, over the options before it.
pub tcp_get_option_position_found :
    (b : Mem) (kind p : ℕ)
    → tcp_get_option_position b kind ≡ some p
    → p ≢ 0
    → IsOption b p × (p < tcp_get_data_position b) × (b p ≡ kind)
unfolding tcp_get_option_position
tcp_get_option_position_found b kind p e nz =
    some-IsOption b kind (tcp_get_data_position b) option_fuel 0x36 p first e nz
