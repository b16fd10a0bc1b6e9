-- ===== src/Http/State/Body.antt =====
-- `HttpMessagePutData` of src/http.c.
use avr_net_enc28j.Base.{
  ℕ, ◌+◌, ◌-◌, ◌%◌, ◌≤◌, ◌<◌, ◌≡◌, ◌≢◌, refl, inl, inr, arith, Mem, offset, ◌==◌, Bool-cases,
  copy_inside, copy_outside,
}
use avr_net_enc28j.Util.{sub16}
use avr_net_enc28j.Http.State.{HttpMessage, http_message_put_data}

-- The bytes of a packet behind its header are put behind the body so far, which is kept, however
-- many they are: there is no test against the size of the array. The length of the body is counted
-- modulo 256. The packet is not empty, and the header lies inside it.
pub http_message_put_data_appends :
    (payload : Mem) (length position : ℕ) (m : HttpMessage)
    → length ≢ 0
    → length < 65536
    → position ≤ length
    → let m' = http_message_put_data payload length position m in
      ((i : ℕ) → i < length - position → m'.body (m.data_length + i) ≡ payload (position + i))
      × ((j : ℕ) → j < m.data_length → m'.body j ≡ m.body j)
      × (m'.data_length ≡ (m.data_length + (length - position)) % 256)
unfolding http_message_put_data
http_message_put_data_appends payload length position m some_bytes small inside =
    elim (Bool-cases (length == 0)) [
      | inl e ↦ absurd (ground arith)
      | inr e ↦
          let left : sub16 length position ≡ length - position = omega arith in
          rw (e, left)
            (
              λ i h.
                  copy_inside m.body m.data_length (offset payload position) (length - position) i
                    h,
              λ j h.
                  copy_outside m.body m.data_length (offset payload position) (length - position) j
                    (λ h'. absurd (omega arith)),
              refl,
            )
    ]
