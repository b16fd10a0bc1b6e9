-- ===== src/Http/Rows.antt =====
-- Texts in memory, and the decimal numbers that src/http.c prints and that `ParseLong` reads.
use avr_net_enc28j.Base.{
  ℕ, zero, suc, ◌+◌, ◌/◌, ◌%◌, ◌^◌, ◌≤◌, ◌<◌, ◌≡◌, refl, ◌∙◌, ap, true, false, some, inl, inr,
  arith, List, [], ◌∷◌, ◌++◌, Mem, offset, ltb, ◌==◌, Bool-cases,
}
use avr_net_enc28j.Util.{parse_long}
use avr_net_enc28j.Util.Decimal.{IsDigits, decimal, parse_long-decimal}
use avr_net_enc28j.Http.Value.{text_length}
use avr_net_enc28j.Http.Text.{digits, unsigned_text}

-- The text stands in the memory from `i` on.
unfoldable pub Holds : List ℕ → Mem → ℕ → Type 0
Holds [] m i = Unit {0}
Holds (x ∷ xs) m i = (m i ≡ x) × Holds xs m (i + 1)

pub text_length-++ : (xs ys : List ℕ) → text_length (xs ++ ys) ≡ text_length xs + text_length ys
text_length-++ [] ys = omega arith
text_length-++ (x ∷ xs) ys = omega (arith, text_length-++ xs ys)

pub Holds-++ :
    (xs ys : List ℕ) (m : Mem) (i : ℕ)
    → Holds (xs ++ ys) m i
    → Holds xs m i × Holds ys m (i + text_length xs)
unfolding Holds
Holds-++ [] ys m i h = (let e : i + 0 ≡ i = omega arith in (tt, rw e h))
Holds-++ (x ∷ xs) ys m i (h, k) =
    let (first, second) = Holds-++ xs ys m (i + 1) k in
    let e : i + suc (text_length xs) ≡ i + 1 + text_length xs = omega arith in
    ((h, first), rw e second)

-- A number of one digit or more, in memory.
pub record Written (n : ℕ) (m : Mem) (length : ℕ) : Type 0 where
  pub some_length : 0 < length
  pub are_digits : IsDigits m length
  pub value : decimal m length ≡ n

Written-first : (n : ℕ) (m : Mem) → n < 10 → m 0 ≡ b'0' + n → Written n m 1
unfolding decimal
Written-first n m small h = record {
  some_length = omega arith;
  are_digits = λ i l. let e : i ≡ 0 = omega arith in rw (e, h) (ground arith);
  value = omega (arith, h);
}

Written-next :
    (n k : ℕ) (m : Mem) → Written (n / 10) m k → m k ≡ b'0' + n % 10 → Written n m (suc k)
unfolding decimal
Written-next n k m before h = record {
  some_length = omega arith;
  are_digits = λ i l. elim (Bool-cases (i == k)) [
    | inl e ↦ let same : i ≡ k = ground arith in rw (same, h) (ground arith)
    | inr e ↦ before.are_digits i (ground arith)
  ];
  value = omega (arith, h, before.value);
}

pub digits_length : (fuel n : ℕ) → text_length (digits fuel n) ≤ fuel
unfolding digits
digits_length zero n = omega arith
digits_length (suc fuel) n = elim (Bool-cases (ltb n 10)) [
  | inl e ↦ rw e (omega arith)
  | inr e ↦
      rw (e, text_length-++ (digits fuel (n / 10)) ((b'0' + n % 10) ∷ []))
        (omega (arith, digits_length fuel (n / 10)))
]

-- A number below a power of ten has no more digits than its exponent.
pub digits_few : (fuel k n : ℕ) → n < 10 ^ suc k → text_length (digits fuel n) ≤ suc k
unfolding digits
digits_few zero k n h = omega arith
digits_few (suc fuel) zero n h =
    let small : ltb n 10 ≡ true = ground arith in rw small (omega arith)
digits_few (suc fuel) (suc k) n h = elim (Bool-cases (ltb n 10)) [
  | inl e ↦ rw e (omega arith)
  | inr e ↦
      rw (e, text_length-++ (digits fuel (n / 10)) ((b'0' + n % 10) ∷ []))
        (omega (arith, digits_few fuel k (n / 10) (omega arith)))
]

digits-short : (fuel n : ℕ) → n < 10 → digits (suc fuel) n ≡ (b'0' + n) ∷ []
unfolding digits
digits-short fuel n h = let e : ltb n 10 ≡ true = ground arith in rw e refl

digits-long :
    (fuel n : ℕ) → 10 ≤ n → digits (suc fuel) n ≡ digits fuel (n / 10) ++ ((b'0' + n % 10) ∷ [])
unfolding digits
digits-long fuel n h = let e : ltb n 10 ≡ false = ground arith in rw e refl

short-Written :
    (fuel n : ℕ) (m : Mem) (i : ℕ)
    → n < 10
    → Holds (digits (suc fuel) n) m i
    → Written n (offset m i) (text_length (digits (suc fuel) n))
unfolding Holds
short-Written fuel n m i small h =
    let (at, rest) = rw (digits-short fuel n small) at h in
    rw (digits-short fuel n small) (Written-first n (offset m i) small (ap m (omega arith) ∙ at))

pub digits-Written :
    (fuel n : ℕ) (m : Mem) (i : ℕ)
    → n < 10 ^ suc fuel
    → Holds (digits (suc fuel) n) m i
    → Written n (offset m i) (text_length (digits (suc fuel) n))
unfolding Holds
digits-Written zero n m i fits h = short-Written zero n m i (omega arith) h
digits-Written (suc fuel) n m i fits h = elim (Bool-cases (ltb n 10)) [
  | inl small ↦ short-Written (suc fuel) n m i (ground arith) h
  | inr e ↦
      let large : 10 ≤ n = ground arith in
      let before = digits (suc fuel) (n / 10) in
      let last = (b'0' + n % 10) ∷ [] in
      let (first, (at, rest)) =
        Holds-++ before last m i (rw (digits-long (suc fuel) n large) at h) in
      let inner = digits-Written fuel (n / 10) m i (omega arith) first in
      rw (digits-long (suc fuel) n large, text_length-++ before last)
        (let one : text_length before + 1 ≡ suc (text_length before) = omega arith in
          rw one (Written-next n (text_length before) (offset m i) inner at))
]

-- `ParseLong` reads back the number, of 16 bits, that `%u` printed, wherever it stands.
pub parse_long-unsigned_text :
    (n : ℕ) (m : Mem) (i : ℕ)
    → n < 65536
    → Holds (unsigned_text n) m i
    → parse_long (offset m i) (text_length (unsigned_text n)) ≡ some n
parse_long-unsigned_text n m i small h =
    let w = digits-Written 4 n m i (omega arith) h in
    parse_long-decimal (offset m i) _ w.some_length w.are_digits ∙ ap some (omega (arith, w.value))
