-- ===== src/Arp/Eviction.antt =====
-- Which row of the cache `ArpWhoIs` of src/arp.c gives up.
use avr_net_enc28j.Base.{
  ℕ, zero, suc, ◌+◌, ◌-◌, ◌≡◌, ◌≤◌, ◌<◌, ◌⊎◌, inl, inr, refl, none, arith, Mem, ◌==◌, if◌then◌else◌,
  ltb, Bool-cases,
}
use avr_net_enc28j.Net.{ArpRow}
use mathlib.Core.Path.{subst}
use avr_net_enc28j.Arp.{Lookup, arp_cache_step, arp_cache_from, arp_lookup}

abbrev count_at : (ℕ → ArpRow) → ℕ → ℕ
count_at rows i = (rows i).use_count

-- The row that the loop has chosen for replacement before row `i`.
record Chosen (i : ℕ) (l : Lookup) : Type 0 where
  within : (l.min_use_cache_id ≡ 0) ⊎ (l.min_use_cache_id < i)
  most : (j : ℕ) → j < i → count_at l.rows j ≤ count_at l.rows l.min_use_cache_id

step-none : (ip : Mem) (i : ℕ) (l : Lookup) → (arp_cache_step ip i l).found ≡ none → l.found ≡ none
unfolding arp_cache_step
step-none ip i l e = ground arith

from-none :
    (ip : Mem) (left i : ℕ) (l : Lookup)
    → (arp_cache_from ip left i l).found ≡ none
    → l.found ≡ none
unfolding arp_cache_from
from-none ip zero i l e = e
from-none ip (suc left) i l e = step-none ip i l (from-none ip left (i + 1) _ e)

-- A round that finds nothing counts its row down and keeps the others.
step-counts :
    (ip : Mem) (i : ℕ) (l : Lookup)
    → (arp_cache_step ip i l).found ≡ none
    → (j : ℕ)
    → count_at (arp_cache_step ip i l).rows j
      ≡ (if i == j then count_at l.rows j - 1 else count_at l.rows j)
unfolding arp_cache_step
step-counts ip i l e j = ground arith

step-choice :
    (ip : Mem) (i : ℕ) (l : Lookup)
    → (arp_cache_step ip i l).found ≡ none
    → let l' = arp_cache_step ip i l in
      l'.min_use_cache_id ≡ (
        if ltb (count_at l'.rows l.min_use_cache_id) (count_at l'.rows i)
        then i
        else l.min_use_cache_id)
unfolding arp_cache_step
step-choice ip i l e = ground arith

step-Chosen :
    (ip : Mem) (i : ℕ) (l : Lookup)
    → (arp_cache_step ip i l).found ≡ none
    → Chosen i l
    → Chosen (i + 1) (arp_cache_step ip i l)
step-Chosen ip i l e c = record {
  within = ground (arith, choice);
  most = λ j h. elim (Bool-cases (ltb (count_at l'.rows m) (count_at l'.rows i))) [
    | inl t ↦
        let here : l'.min_use_cache_id ≡ i = ground (arith, choice) in
        rw here (ground (arith, counts j, counts m, counts i, c.most j))
    | inr t ↦
        let kept : l'.min_use_cache_id ≡ m = ground (arith, choice) in
        rw kept (ground (arith, counts j, counts m, counts i, c.most j))
  ];
}
  where
    l' : Lookup
    l' = arp_cache_step ip i l

    m : ℕ
    m = l.min_use_cache_id

    choice : l'.min_use_cache_id ≡ (if ltb (count_at l'.rows m) (count_at l'.rows i) then i else m)
    choice = step-choice ip i l e

    counts :
        (j : ℕ) → count_at l'.rows j ≡ (if i == j then count_at l.rows j - 1 else count_at l.rows j)
    counts = step-counts ip i l e

from-Chosen :
    (ip : Mem) (left i n : ℕ) (l : Lookup)
    → i + left ≡ n
    → (arp_cache_from ip left i l).found ≡ none
    → Chosen i l
    → Chosen n (arp_cache_from ip left i l)
unfolding arp_cache_from
from-Chosen ip zero i n l e f c = subst (λ k. Chosen k l) (omega arith) c
from-Chosen ip (suc left) i n l e f c =
    from-Chosen ip left (i + 1) n _ (omega arith) f
      (step-Chosen ip i l (from-none ip left (i + 1) _ f) c)

-- When the address is not in the cache, the row that `ArpWhoIs` will overwrite, `minUseCacheId`,
-- lies in the cache, and is a row with the greatest use count of all: the address that was used
-- most is the one that is forgotten. The cache is not empty.
pub arp_lookup_evicts_most_used :
    (size : ℕ) (ip : Mem) (rows : ℕ → ArpRow)
    → 0 < size
    → (arp_lookup size ip rows).found ≡ none
    → let l = arp_lookup size ip rows in
      (l.min_use_cache_id < size)
      × ((j : ℕ) → j < size → (l.rows j).use_count ≤ (l.rows l.min_use_cache_id).use_count)
unfolding arp_lookup
arp_lookup_evicts_most_used size ip rows p e =
    let c =
      from-Chosen ip size 0 size (record { found = none; min_use_cache_id = 0; rows = rows })
        (omega arith) e (record { within = inl refl; most = λ j h. absurd (omega arith) }) in
    (ground (arith, c.within), c.most)
