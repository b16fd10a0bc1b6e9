-- ===== src/Util/Decimal.antt =====
-- `ParseLong` of src/util.c against the value of a decimal numeral.
use avr_net_enc28j.Base.{
  ℕ, zero, suc, ◌+◌, ◌-◌, ◌*◌, ◌/◌, ◌%◌, ◌^◌, ◌<◌, ◌≡◌, ◌↔◌, sym, ◌∙◌, ap, some, arith, Mem, true,
  Bool-cases, inl, inr,
}
use native.Mathlib.Nat.{div-add-mod', add-mul-mod_self_right}
use native.Mathlib.Decide.{ℕ_discrete}
use avr_net_enc28j.Util.{add32, is_digit, parse_long_from, parse_long}

abbrev pub IsDigits : Mem → ℕ → Type 0
IsDigits ch n = (i : ℕ) → i < n → is_digit (ch i) ≡ true

-- The number that the first `n` digits write, most significant first.
unfoldable pub decimal : Mem → ℕ → ℕ
decimal ch zero = 0
decimal ch (suc n) = decimal ch n * 10 + (ch n - b'0')

mod-mul : (a b : ℕ) → a % 2 ^ 32 * b % 2 ^ 32 ≡ a * b % 2 ^ 32
mod-mul a b = sym (
    ap (λ (t : ℕ). t % 2 ^ 32) (omega (arith, ap (λ (t : ℕ). t * b) (div-add-mod' a (2 ^ 32))))
    ∙ add-mul-mod_self_right (a % 2 ^ 32 * b) (a / 2 ^ 32 * b) (2 ^ 32))

-- One round of the loop keeps `number + decimalIndex * (what is left)` modulo 2 ^ 32.
round_keeps :
    (d idx num rest : ℕ)
    → (add32 num (d * idx) + idx * 10 % 2 ^ 32 * rest) % 2 ^ 32
      ≡ (num + idx * (rest * 10 + d)) % 2 ^ 32
round_keeps d idx num rest = omega (arith, mod-mul (idx * 10) rest)

parse_long_from-decimal :
    (ch : Mem) (i idx num : ℕ)
    → IsDigits ch (suc i)
    → parse_long_from ch i idx num ≡ some ((num + idx * decimal ch (suc i)) % 2 ^ 32)
unfolding parse_long_from decimal
parse_long_from-decimal ch zero idx num h = rw (h 0 (omega arith)) (ap some (omega arith))
parse_long_from-decimal ch (suc i) idx num h =
    let d = ch (suc i) - b'0' in
    rw (h (suc i) (omega arith)) (
      parse_long_from-decimal ch i (idx * 10 % 2 ^ 32) (add32 num (d * idx))
        (λ j l. h j (omega arith))
      ∙ ap some (round_keeps d idx num (decimal ch (suc i))))

-- `ParseLong` of one or more digits gives the number that they write, modulo 2 ^ 32.
pub parse_long-decimal :
    (ch : Mem) (n : ℕ) → 0 < n → IsDigits ch n → parse_long ch n ≡ some (decimal ch n % 2 ^ 32)
unfolding parse_long
parse_long-decimal ch zero p h = absurd (omega arith)
parse_long-decimal ch (suc n) p h =
    parse_long_from-decimal ch n 1 0 h ∙ ap (λ (t : ℕ). some (t % 2 ^ 32)) (omega arith)

parse_long_from-IsDigits :
    (ch : Mem) (i idx num : ℕ) {r : ℕ} → parse_long_from ch i idx num ≡ some r → IsDigits ch (suc i)
unfolding parse_long_from
parse_long_from-IsDigits ch zero idx num e j l =
    let j0 : j ≡ 0 = omega arith in rw j0 (ground arith)
parse_long_from-IsDigits ch (suc i) idx num e j l = elim (Bool-cases (is_digit (ch (suc i)))) [
  | inl good ↦ elim (ℕ_discrete j (suc i)) [
    | yes same ↦ rw same good
    | no ne ↦ parse_long_from-IsDigits ch i _ _ (rw good at e) j (omega arith)
  ]
  | inr bad ↦ cc
]

-- `ParseLong` accepts exactly the non-empty strings of decimal digits, and gives the number that
-- they write modulo 2 ^ 32.
pub parse_long_iff :
    (ch : Mem) (n r : ℕ)
    → (parse_long ch n ≡ some r) ↔ ((0 < n) × IsDigits ch n × (r ≡ decimal ch n % 2 ^ 32))
unfolding parse_long
parse_long_iff ch zero r = (λ e. cc, λ h. absurd (omega arith))
parse_long_iff ch (suc n) r = (
  λ e.
      let ds = parse_long_from-IsDigits ch n 1 0 e in
      (omega arith, ds, ground (arith, parse_long-decimal ch (suc n) (omega arith) ds)),
  λ h. parse_long-decimal ch (suc n) h.0 h.1 ∙ ap some (sym h.2),
)
