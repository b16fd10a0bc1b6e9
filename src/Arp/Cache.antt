-- ===== src/Arp/Cache.antt =====
-- The cache of addresses in `ArpWhoIs` of src/arp.c.
use avr_net_enc28j.Base.{
  ℕ, zero, suc, ◌+◌, ◌≡◌, ◌≢◌, ◌≤◌, ◌<◌, ◌⊎◌, inl, inr, refl, sym, ◌∙◌, ◌↔◌, true, not, ◌&&◌, some,
  none, arith, Mem, copy, same, ◌==◌, Bool-cases, Option-cases,
}
use avr_net_enc28j.Net.{ArpRow}
use avr_net_enc28j.Net.Update.{update_ne}
use native.Mathlib.Nat.{le_refl}
use native.Mathlib.Decide.{ℕ_discrete}
use mathlib.Core.Path.{subst}
use avr_net_enc28j.Arp.{
  is_found, Lookup, arp_cache_step, arp_cache_from, arp_lookup, arp_cache_store,
}

-- A row that answers for an address: in use, with this address.
abbrev pub Answers : Mem → ArpRow → Type 0
Answers ip row = (row.use_count ≢ 0) × (same row.ip ip 4 ≡ true)

-- The use counts have 8 bits.
abbrev pub IsCounted : (ℕ → ArpRow) → Type 0
IsCounted rows = (i : ℕ) → (rows i).use_count < 256

step-IsCounted :
    (ip : Mem) (i : ℕ) (l : Lookup) → IsCounted l.rows → IsCounted (arp_cache_step ip i l).rows
unfolding arp_cache_step
step-IsCounted ip i l h j = ground (arith, h i, h j)

from-IsCounted :
    (ip : Mem) (left i : ℕ) (l : Lookup)
    → IsCounted l.rows
    → IsCounted (arp_cache_from ip left i l).rows
unfolding arp_cache_from
from-IsCounted ip zero i l h = h
from-IsCounted ip (suc left) i l h = from-IsCounted ip left (i + 1) _ (step-IsCounted ip i l h)

-- A look into the cache keeps every use count within 8 bits.
pub arp_lookup-IsCounted :
    (size : ℕ) (ip : Mem) (rows : ℕ → ArpRow)
    → IsCounted rows
    → IsCounted (arp_lookup size ip rows).rows
unfolding arp_lookup
arp_lookup-IsCounted size ip rows h = from-IsCounted ip size 0 _ h

-- What the loop has found before row `i`.
record Found (ip : Mem) (size : ℕ) (rows : ℕ → ArpRow) (i : ℕ) (l : Lookup) : Type 0 where
  untouched : (j : ℕ) → i ≤ j → l.rows j ≡ rows j
  hit :
      (mac : Mem)
      → l.found ≡ some mac
      → (j : ℕ) × (j < size) × (mac ≡ (rows j).mac) × Answers ip (rows j)
  miss : l.found ≡ none → (j : ℕ) → j < i → ¬ Answers ip (rows j)

-- A round finds the address in its row, or finds nothing new.
step-cases :
    (ip : Mem) (i : ℕ) (l : Lookup)
    → ((l.found ≡ none)
        × Answers ip (l.rows i)
        × ((arp_cache_step ip i l).found ≡ some (l.rows i).mac))
      ⊎ (((arp_cache_step ip i l).found ≡ l.found) × (l.found ≡ none → ¬ Answers ip (l.rows i)))
unfolding arp_cache_step
step-cases ip i l =
    elim (Bool-cases
      (not (is_found l.found) && not ((l.rows i).use_count == 0) && same (l.rows i).ip ip 4)) [
        | inl t ↦ inl (ground arith, (ground arith, ground arith), ground arith)
        | inr t ↦ inr (ground arith, λ e a. ground arith)
      ]

step-rows :
    (ip : Mem) (i : ℕ) (l : Lookup) (j : ℕ) → i < j → (arp_cache_step ip i l).rows j ≡ l.rows j
unfolding arp_cache_step
step-rows ip i l j h = ground arith

step-Found :
    (ip : Mem) (size : ℕ) (rows : ℕ → ArpRow) (i : ℕ) (l : Lookup)
    → i < size
    → Found ip size rows i l
    → Found ip size rows (i + 1) (arp_cache_step ip i l)
step-Found ip size rows i l lt f =
    let row : l.rows i ≡ rows i = f.untouched i (le_refl i) in
    elim (step-cases ip i l) [
      | inl (fresh, a, now) ↦ record {
        untouched = λ j h. step-rows ip i l j (omega arith) ∙ f.untouched j (omega arith);
        hit = λ mac e. (i, lt, ground arith, rw row at a);
        miss = λ e. absurd (cc);
      }
      | inr (kept, not_here) ↦ record {
        untouched = λ j h. step-rows ip i l j (omega arith) ∙ f.untouched j (omega arith);
        hit = λ mac e. f.hit mac (sym kept ∙ e);
        miss = λ e j h a. elim (ℕ_discrete j i) [
          | yes same_row ↦ not_here (sym kept ∙ e) (rw row (rw same_row at a))
          | no other ↦ f.miss (sym kept ∙ e) j (omega arith) a
        ];
      }
    ]

from-Found :
    (ip : Mem) (size : ℕ) (rows : ℕ → ArpRow) (left i : ℕ) (l : Lookup)
    → i + left ≡ size
    → Found ip size rows i l
    → Found ip size rows size (arp_cache_from ip left i l)
unfolding arp_cache_from
from-Found ip size rows zero i l e f = subst (λ k. Found ip size rows k l) (omega arith) f
from-Found ip size rows (suc left) i l e f =
    from-Found ip size rows left (i + 1) _ (omega arith)
      (step-Found ip size rows i l (omega arith) f)

arp_lookup-Found :
    (size : ℕ) (ip : Mem) (rows : ℕ → ArpRow) → Found ip size rows size (arp_lookup size ip rows)
unfolding arp_lookup
arp_lookup-Found size ip rows = from-Found ip size rows size 0 _ (omega arith) (record {
  untouched = λ j h. refl;
  hit = λ mac e. absurd (cc);
  miss = λ e j h. absurd (omega arith);
})

-- The cache answers with the hardware address of a row that is in use for the address asked for.
pub arp_lookup_found :
    (size : ℕ) (ip : Mem) (rows : ℕ → ArpRow) (mac : Mem)
    → (arp_lookup size ip rows).found ≡ some mac
    → (j : ℕ) × (j < size) × (mac ≡ (rows j).mac) × Answers ip (rows j)
arp_lookup_found size ip rows = (arp_lookup-Found size ip rows).hit

-- The cache has no answer exactly when no row below its size is in use for the address.
pub arp_lookup_unknown_iff :
    (size : ℕ) (ip : Mem) (rows : ℕ → ArpRow)
    → ((arp_lookup size ip rows).found ≡ none) ↔ ((j : ℕ) → j < size → ¬ Answers ip (rows j))
arp_lookup_unknown_iff size ip rows =
    let f = arp_lookup-Found size ip rows in
    (
      f.miss,
      λ h. elim (Option-cases (arp_lookup size ip rows).found) [
        | inl e ↦ e
        | inr (mac, e) ↦ let (j, lt, m, a) = f.hit mac e in absurd (h j lt a)
      ],
    )

stored_row :
    (i : ℕ) (mac ip : Mem) (rows : ℕ → ArpRow)
    → Answers ip (arp_cache_store i mac ip rows i)
      × (same (arp_cache_store i mac ip rows i).mac mac 6 ≡ true)
unfolding arp_cache_store copy same
stored_row i mac ip rows = ((ground arith, ground arith), ground arith)

stored_elsewhere :
    (i : ℕ) (mac ip : Mem) (rows : ℕ → ArpRow) (j : ℕ)
    → i ≢ j
    → arp_cache_store i mac ip rows j ≡ rows j
unfolding arp_cache_store
stored_elsewhere i mac ip rows j ne = update_ne rows _ ne

-- In the cache in which a reply has just been stored, a lookup of the reply's address finds the six
-- bytes of its hardware address: for a row below the cache's size, and an address that no row answered
-- for before.
pub arp_cache_store_found :
    (size i : ℕ) (mac ip : Mem) (rows : ℕ → ArpRow)
    → i < size
    → ((j : ℕ) → j < size → ¬ Answers ip (rows j))
    → (answer : Mem) × ((arp_lookup size ip (arp_cache_store i mac ip rows)).found ≡ some answer)
      × (same answer mac 6 ≡ true)
arp_cache_store_found size i mac ip rows lt unknown =
    let rows' = arp_cache_store i mac ip rows in
    elim (Option-cases (arp_lookup size ip rows').found) [
      | inl e ↦
          absurd ((arp_lookup_unknown_iff size ip rows').0 e i lt (stored_row i mac ip rows).0)
      | inr (answer, e) ↦
          let (j, lj, m, a) = arp_lookup_found size ip rows' answer e in
          elim (ℕ_discrete i j) [
            | yes here ↦ (answer, e, rw (m, sym here) (stored_row i mac ip rows).1)
            | no other ↦ absurd (unknown j lj (rw (stored_elsewhere i mac ip rows j other) at a))
          ]
    ]
