-- ===== src/Http/Send/Status.antt =====
-- The status row of `HttpSendResponseHeader` of src/http.c.
use avr_net_enc28j.Base.{
  ℕ, zero, suc, ◌+◌, ◌%◌, ◌≤◌, ◌<◌, ◌≡◌, refl, sym, ◌∙◌, ap, Bool, true, false, not, inl, inr, ◌⊎◌,
  Bool-cases, ◌/◌, ◌&&◌, arith, List, [], ◌∷◌, ◌++◌, Mem, put, put_ne, put_self, copy, bytes, ltb,
  ◌==◌,
}
use avr_net_enc28j.Http.State.{HttpConfig}
use avr_net_enc28j.Http.Value.{text_length}
use avr_net_enc28j.Http.Text.{
  digits, unsigned_text, snprintf, strlen, status_row, content_length_row, header_row_break,
}
use avr_net_enc28j.Http.Rows.{Holds, text_length-++, digits_few}
use avr_net_enc28j.Http.Request.Run.{every}
use avr_net_enc28j.Http.Request.Texts.{every-++, Holds-agree, Holds-copy, Holds-itself}
use avr_net_enc28j.Http.Send.{
  HttpStatus, status_message, status_row_bound, content_length_row_bound,
}

-- A byte of a C string.
abbrev pub is_char : ℕ → Bool
is_char x = not (x == 0) && ltb x 256

strlen-end :
    (xs : List ℕ) (m : Mem) (fuel i : ℕ)
    → every is_char xs ≡ true
    → Holds xs m i
    → m (i + text_length xs) ≡ 0
    → text_length xs < fuel
    → strlen m fuel i ≡ i + text_length xs
unfolding strlen every Holds
strlen-end xs m zero i chars held end fits = absurd (omega arith)
strlen-end [] m (suc fuel) i chars held end fits =
    let e : i + 0 ≡ i = omega arith in
    let here : (m i == 0) ≡ true = ground (arith, ap m e) in rw (here, e) refl
strlen-end (x ∷ xs) m (suc fuel) i chars (h, k) end fits =
    let e : i + suc (text_length xs) ≡ i + 1 + text_length xs = omega arith in
    let going : (m i == 0) ≡ false = rw h (ground arith) in
    rw (going, e) (strlen-end xs m fuel (i + 1) (ground arith) k (ap m (sym e) ∙ end) (omega arith))

-- A text that is shorter than the array is printed whole, and `strlen` gives its length.
pub snprintf_whole :
    (d : Mem) (size : ℕ) (text : List ℕ)
    → every is_char text ≡ true
    → text_length text < size
    → Holds text (snprintf d size text) 0
      × (strlen (snprintf d size text) size 0 ≡ text_length text)
unfolding snprintf
snprintf_whole d size text chars fits =
    let n = text_length text in
    let copied = copy d 0 (bytes text) n in
    let kept : ltb n size ≡ true = ground arith in
    let some_size : (size == 0) ≡ false = ground arith in
    let held =
      Holds-agree text copied (put copied n 0) 0
        (λ j lo hi. put_ne copied n 0 j (λ e. absurd (omega arith)))
        (Holds-copy text d (bytes text) 0 (Holds-itself text)) in
    let none_before : 0 + n ≡ n = omega arith in
    let end : put copied n 0 (0 + n) ≡ 0 = ap (put copied n 0) none_before ∙ put_self copied n 0 in
    let length : strlen (put copied n 0) size 0 ≡ n =
      strlen-end text (put copied n 0) size 0 chars held end fits ∙ none_before in
    rw (kept, some_size) (held, length)

digits_are_chars : (fuel n : ℕ) → every is_char (digits fuel n) ≡ true
unfolding digits every
digits_are_chars zero n = refl
digits_are_chars (suc fuel) n = elim (Bool-cases (ltb n 10)) [
  | inl e ↦ rw e (ground arith)
  | inr e ↦ rw e (
      every-++ is_char (digits fuel (n / 10)) ((b'0' + n % 10) ∷ [])
        (digits_are_chars fuel (n / 10)) (ground arith))
]

-- A status row that passes the test of its length is sent whole, for a code of up to four digits.
pub status_row-sent :
    (c : HttpConfig) (d : Mem) (status : HttpStatus)
    → status.code < 10000
    → every is_char (status_message status) ≡ true
    → text_length (status_message status) < 65000
    → status_row_bound status ≤ c.max_url_length
    → let row = status_row status.code (status_message status) in
      let sent = snprintf d c.max_url_length row in
      Holds row sent 0 × (strlen sent c.max_url_length 0 ≡ text_length row)
unfolding status_row every
status_row-sent c d status small chars short fits =
    let message = status_message status in
    let number = unsigned_text status.code in
    let behind = b' ' ∷ (message ++ header_row_break) in
    let chars_behind : every is_char behind ≡ true =
      every-++ is_char message header_row_break chars refl in
    snprintf_whole d c.max_url_length (status_row status.code message)
      (every-++ is_char number behind (digits_are_chars 5 status.code) chars_behind)
      (omega (
        arith,
        digits_few 5 3 status.code (omega arith),
        text_length-++ number behind,
        text_length-++ message header_row_break,
      ))

-- The row that says the length of the body, in an array that passes the test of its size, is sent
-- whole if the length has up to four digits, or if the array has a byte more than is tested for.
pub content_length_row-sent :
    (d : Mem) (size n : ℕ)
    → n < 65536
    → content_length_row_bound ≤ size
    → (n < 10000) ⊎ (content_length_row_bound < size)
    → let sent = snprintf d size (content_length_row n) in
      Holds (content_length_row n) sent 0
      × (strlen sent size 0 ≡ text_length (content_length_row n))
unfolding content_length_row every
content_length_row-sent d size n small fits which =
    let number = unsigned_text n in
    let chars =
      every-++ is_char (number ++ header_row_break) header_row_break
        (every-++ is_char number header_row_break (digits_are_chars 5 n) refl) refl in
    snprintf_whole d size (content_length_row n) chars (elim which [
      | inl few ↦ omega (
        arith,
        digits_few 5 3 n (omega arith),
        text_length-++ (number ++ header_row_break) header_row_break,
        text_length-++ number header_row_break,
      )
      | inr room ↦ omega (
        arith,
        digits_few 5 4 n (omega arith),
        text_length-++ (number ++ header_row_break) header_row_break,
        text_length-++ number header_row_break,
      )
    ])
