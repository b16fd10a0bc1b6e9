-- ===== src/Base/Memory.antt =====
-- Byte arrays. A `Mem` is what C sees from a pointer: `m i` is `p[i]`. Reads and writes are not
-- cut off at the size of the array, so that a write past its end is visible in the model.
use Prim.Native.Nat.{ℕ, zero, suc, ◌+◌, ◌-◌, ◌%◌, ◌≤◌, ◌<◌}
use mathlib.Core.Path.{◌≡◌, refl, ap}
use mathlib.Core.Logic.{◌↔◌}
use mathlib.Core.Bool.{Bool, true, ◌&&◌}
use mathlib.Core.List.{List, [], ◌∷◌}
use native.Mathlib.Omega.{arith}
use native.Mathlib.Decide.{ℕ_discrete}
use avr_net_enc28j.Base.Compare.{ltb, leb, ◌==◌, if◌then◌else◌}

abbrev pub Mem : Type 0
Mem = ℕ → ℕ

-- `m[i] = v`, with the cast to `unsigned char`.
unfoldable pub put : Mem → ℕ → ℕ → Mem
put m i v j = if i == j then v % 256 else m j

-- `memcpy(d + at, s, n)`.
unfoldable pub copy : Mem → ℕ → Mem → ℕ → Mem
copy d at s n j = if leb at j && ltb j (at + n) then s (j - at) else d j

-- `m + k`.
abbrev pub offset : Mem → ℕ → Mem
offset m k i = m (k + i)

-- `memcmp(a, b, n) == 0`.
unfoldable pub same : Mem → Mem → ℕ → Bool
same a b zero = true
same a b (suc n) = (a n == b n) && same a b n

-- The array that starts with the bytes of a list; 0 behind them.
abbrev pub bytes : List ℕ → Mem
bytes [] i = 0
bytes (x ∷ xs) zero = x
bytes (x ∷ xs) (suc i) = bytes xs i

abbrev pub IsBytes : Mem → Type 0
IsBytes m = (i : ℕ) → m i < 256

pub put-IsBytes : (m : Mem) (i v : ℕ) → IsBytes m → IsBytes (put m i v)
unfolding put
put-IsBytes m i v h j = ground (arith, h j)

pub copy-IsBytes :
    (d : Mem) (at : ℕ) (s : Mem) (n : ℕ) → IsBytes d → IsBytes s → IsBytes (copy d at s n)
unfolding copy
copy-IsBytes d at s n hd hs j = ground (arith, hd j, hs (j - at))

pub put_ne : (m : Mem) (i v j : ℕ) → ¬ (i ≡ j) → put m i v j ≡ m j
unfolding put
put_ne m i v j h = ground arith

pub put_self : (m : Mem) (i v : ℕ) → put m i v i ≡ v % 256
unfolding put
put_self m i v = ground arith

pub copy_inside : (d : Mem) (at : ℕ) (s : Mem) (n j : ℕ) → j < n → copy d at s n (at + j) ≡ s j
unfolding copy
copy_inside d at s n j h = let e : at + j - at ≡ j = omega arith in ground (arith, ap s e)

pub copy_outside :
    (d : Mem) (at : ℕ) (s : Mem) (n j : ℕ) → ¬ ((at ≤ j) × (j < at + n)) → copy d at s n j ≡ d j
unfolding copy
copy_outside d at s n j h = ground arith

same→eq : (a b : Mem) (n : ℕ) → same a b n ≡ true → (i : ℕ) → i < n → a i ≡ b i
unfolding same
same→eq a b zero h i l = absurd (omega arith)
same→eq a b (suc n) h i l = elim (ℕ_discrete i n) [
  | yes e ↦ rw e (ground arith)
  | no ne ↦ same→eq a b n (ground arith) i (omega arith)
]

pub eq→same : (a b : Mem) (n : ℕ) → ((i : ℕ) → i < n → a i ≡ b i) → same a b n ≡ true
unfolding same
eq→same a b zero h = refl
eq→same a b (suc n) h = ground (arith, h n (omega arith), eq→same a b n (λ i l. h i (omega arith)))

-- Equal areas hold the same bytes, and only they do.
pub same_iff : (a b : Mem) (n : ℕ) → (same a b n ≡ true) ↔ ((i : ℕ) → i < n → a i ≡ b i)
same_iff a b n = (same→eq a b n, eq→same a b n)
