-- ===== src/Http/Announced.antt =====
-- The header row `Content-Length` of src/http.c: what `HttpSendRequest` and `HttpSendResponseHeader`
-- print is what `HttpParseHeaderValue` and `ParseLong` read.
use avr_net_enc28j.Base.{
  ℕ, zero, suc, ◌+◌, ◌≤◌, ◌<◌, ◌≡◌, refl, sym, ◌∙◌, ap, fun_ext, true, false, some, arith, List, [],
  ◌∷◌, ◌++◌, Mem, offset, leb, ◌==◌,
}
use avr_net_enc28j.Util.{sub16}
use avr_net_enc28j.Http.State.{HttpConfig, HttpMessage, is_line_end}
use avr_net_enc28j.Http.Value.{
  text_length, starts_with, strstr_from, row_length, http_parse_header_value,
}
use avr_net_enc28j.Http.Response.{announced_length, content_length_text}
use avr_net_enc28j.Http.Text.{unsigned_text, length_row, header_row_break}
use avr_net_enc28j.Http.Rows.{
  Holds, Holds-++, text_length-++, digits_length, digits-Written, parse_long-unsigned_text,
}

pub starts_with-Holds :
    (xs : List ℕ) (m : Mem) (i : ℕ) → Holds xs m i → starts_with xs (offset m i) ≡ true
unfolding starts_with Holds
starts_with-Holds [] m i h = refl
starts_with-Holds (x ∷ xs) m i (h, k) =
    let here : m (i + 0) ≡ x = ap m (omega arith) ∙ h in
    let behind : offset (offset m i) 1 ≡ offset m (i + 1) = fun_ext (λ j. ap m (omega arith)) in
    rw (here, behind, starts_with-Holds xs m (i + 1) k) (ground arith)

row_length-end :
    (m : Mem) (left i k : ℕ)
    → ((j : ℕ) → i ≤ j → j < i + k → is_line_end (m j) ≡ false)
    → is_line_end (m (i + k)) ≡ true
    → k < left
    → row_length m left i ≡ i + k
unfolding row_length
row_length-end m zero i k inside end fits = absurd (omega arith)
row_length-end m (suc left) i zero inside end fits =
    let e : i + 0 ≡ i = omega arith in
    let here : is_line_end (m i) ≡ true = rw (sym e) end in rw (here, e) refl
row_length-end m (suc left) i (suc k) inside end fits =
    let e : i + suc k ≡ i + 1 + k = omega arith in
    rw (inside i (omega arith) (omega arith), e)
      (row_length-end m left (i + 1) k (λ j l h. inside j (omega arith) (omega arith)) (rw e at end)
        (omega arith))

strstr-here :
    (needle : List ℕ) (m : Mem) (fuel i : ℕ)
    → 0 < fuel
    → starts_with needle (offset m i) ≡ true
    → strstr_from needle m fuel i ≡ some i
unfolding strstr_from
strstr-here needle m zero i some_fuel found = absurd (omega arith)
strstr-here needle m (suc fuel) i some_fuel found = rw found refl

value_found :
    (c : HttpConfig) (m : HttpMessage) (k : ℕ)
    → starts_with (content_length_text c) (offset m.headers 0) ≡ true
    → m.headers 14 ≡ b':'
    → m.headers 15 ≡ b' '
    → m.headers_lenght ≡ 18 + k
    → k ≤ 5
    → row_length (offset m.headers 16) (2 + k) 0 ≡ k
    → http_parse_header_value m (content_length_text c) ≡ some (16, k)
unfolding http_parse_header_value
value_found c m k found colon space length small row =
    let behind : sub16 m.headers_lenght 14 ≡ 4 + k = omega (arith, length) in
    let enough : leb 2 (4 + k) ≡ true = ground arith in
    let some_length : (4 + k == 0) ≡ false = ground arith in
    let left : sub16 (4 + k) 2 ≡ 2 + k = omega arith in
    rw
      (
        strstr-here (content_length_text c) m.headers (m.headers_lenght + 1) 0 (omega arith) found,
        http_parse_header_value,
        behind,
        enough,
        some_length,
        colon,
        space,
        left,
        row,
      )
      refl

-- The row that says the length `n` of the body, alone in the header, is found and read as `n`.
pub announced_length_row :
    (c : HttpConfig) (m : HttpMessage) (n : ℕ)
    → n < 65536
    → n ≤ c.max_data_length
    → m.headers_lenght ≡ text_length (length_row n)
    → Holds (length_row n) m.headers 0
    → announced_length c m ≡ n
unfolding announced_length Holds
announced_length_row c m n small fits length h =
    let (name, (colon, (space, rest))) =
      Holds-++ (content_length_text c) ((b':' ∷ b' ' ∷ []) ++ (unsigned_text n ++ header_row_break))
        m.headers 0 h in
    let (number, (cr, (lf, end))) = Holds-++ (unsigned_text n) header_row_break m.headers 16 rest in
    let k = text_length (unsigned_text n) in
    let found = starts_with-Holds (content_length_text c) m.headers 0 name in
    let w = digits-Written 4 n m.headers 16 (omega arith) number in
    let few : k ≤ 5 = digits_length 5 n in
    let row : row_length (offset m.headers 16) (2 + k) 0 ≡ k =
      row_length-end (offset m.headers 16) (2 + k) 0 k
        (λ j l less. ground (arith, w.are_digits j (omega arith)))
        (let e : 16 + (0 + k) ≡ 16 + k = omega arith in rw (e, cr) refl) (omega arith)
      ∙ omega arith in
    let total : m.headers_lenght ≡ 18 + k =
      omega (arith, length, text_length-++ (unsigned_text n) header_row_break) in
    rw
      (
        value_found c m k found colon space total (omega arith) row,
        announced_length,
        parse_long-unsigned_text n m.headers 16 small number,
      )
      (ground arith)
