-- ===== src/Enc28j60/Receive.antt =====
-- `enc28j60_packet_receive` of src/enc28j60.c writes inside the buffer, whatever the chip says.
use avr_net_enc28j.Base.{
  ℕ, zero, suc, ◌+◌, ◌-◌, ◌≤◌, ◌<◌, ◌≡◌, refl, ◌∙◌, Bool, true, false, inl, inr, arith, Mem,
  IsBytes, put, put-IsBytes, put_ne, ◌==◌, if◌then◌else◌, Bool-cases,
}
use Prim.Native.Nat.{bit_and}
use avr_net_enc28j.Net.{Received}
use avr_net_enc28j.Enc28j60.{
  Spi, Driver, receive_bytes, kept_length, take_packet, enc28j60_packet_receive, enc28j60_read,
}
use avr_net_enc28j.Enc28j60.Registers.{epktcnt}

-- `b'` comes from `b` by writes of bytes below `bound`.
pub record WrittenBelow (bound : ℕ) (b b' : Mem) : Type 0 where
  pub kept : (j : ℕ) → bound ≤ j → b' j ≡ b j
  pub bytes : IsBytes b → IsBytes b'

kept_length-le :
    (max_length field : ℕ)
    → 1 ≤ max_length
    → max_length < 65536
    → kept_length max_length field ≤ max_length - 1
unfolding kept_length
kept_length-le max_length field lo hi = ground arith

module _ {C : Type 0} (spi : Spi C) where
  receive_bytes-WrittenBelow :
      (bound left i : ℕ) (b : Mem) (c : C)
      → i + left ≤ bound
      → WrittenBelow bound b (receive_bytes spi left i b c).0
  unfolding receive_bytes
  receive_bytes-WrittenBelow bound zero i b c fits = record { kept = λ j h. refl; bytes = λ h. h }
  receive_bytes-WrittenBelow bound (suc left) i b c fits =
      let c' = spi.exchange 0x00 c in
      let rest =
        receive_bytes-WrittenBelow bound left (i + 1) (put b i (spi.spdr c')) c' (omega arith) in
      record {
        kept = λ j h. rest.kept j h ∙ put_ne b i (spi.spdr c') j (λ e. absurd (omega arith));
        bytes = λ h. rest.bytes (put-IsBytes b i (spi.spdr c') h);
      }

  take_packet_lem :
      (bound : ℕ) (b : Mem) (length status : ℕ) (d : Driver C)
      → length ≤ bound
      → let r = take_packet spi b length status d in
        (r.length ≤ bound) × WrittenBelow bound b r.buffer
  unfolding take_packet
  take_packet_lem bound b length status d fits = elim (Bool-cases (bit_and status 0x80 == 0)) [
    | inl e ↦ rw e (omega arith, record { kept = λ j h. refl; bytes = λ h. h })
    | inr e ↦ rw e (omega arith, receive_bytes-WrittenBelow bound length 0 b _ (omega arith))
  ]

  abbrev IsWithin : ℕ → Mem → Received (Driver C) → Type 0
  IsWithin bound b r = (r.length ≤ bound) × WrittenBelow bound b r.buffer

  if-IsWithin :
      (bound : ℕ) (b : Mem) (test : Bool) (x y : Received (Driver C))
      → IsWithin bound b x
      → IsWithin bound b y
      → IsWithin bound b (if test then x else y)
  if-IsWithin bound b true x y hx hy = hx
  if-IsWithin bound b false x y hx hy = hy

  -- The length that is handed over lies below the size of the buffer, and only that many bytes are
  -- written, whatever the chip answers: a length field that is too great, or below the four bytes of
  -- the CRC, does no harm. The size is from 1 to 65535.
  pub enc28j60_packet_receive_bounds :
      (b : Mem) (max_length : ℕ) (d : Driver C)
      → 1 ≤ max_length
      → max_length < 65536
      → let r = enc28j60_packet_receive spi b max_length d in
        (r.length ≤ max_length - 1) × WrittenBelow (max_length - 1) b r.buffer
  unfolding enc28j60_packet_receive
  enc28j60_packet_receive_bounds b max_length d lo hi =
      if-IsWithin (max_length - 1) b ((enc28j60_read spi epktcnt d).0 == 0) _ _
        (omega arith, record { kept = λ j h. refl; bytes = λ h. h })
        (take_packet_lem (max_length - 1) b _ _ _ (kept_length-le max_length _ lo hi))
