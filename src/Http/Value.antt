-- ===== src/Http/Value.antt =====
-- `HttpParseHeaderValue` of src/http.c.
use avr_net_enc28j.Base.{
  ℕ, zero, suc, ◌+◌, Bool, true, not, ◌&&◌, Option, none, some, leb, ◌==◌, if◌then◌else◌, Mem, List,
  [], ◌∷◌, offset,
}
use avr_net_enc28j.Util.{sub16}
use avr_net_enc28j.Http.State.{HttpMessage, is_line_end}

-- The text stands at the start of `m`.
unfoldable pub starts_with : List ℕ → Mem → Bool
starts_with [] m = true
starts_with (x ∷ xs) m = m 0 == x && starts_with xs (offset m 1)

-- `strstr` from position `i` on, in a string whose closing 0 is less than `fuel` bytes away: the
-- position of the first occurrence, `none` for the null pointer.
unfoldable pub strstr_from : List ℕ → Mem → ℕ → ℕ → Option ℕ
strstr_from needle m zero i = none
strstr_from needle m (suc fuel) i =
    let rest = strstr_from needle m fuel (i + 1) in
    if starts_with needle (offset m i) then some i else if m i == 0 then none else rest

abbrev pub text_length : List ℕ → ℕ
text_length [] = 0
text_length (x ∷ xs) = suc (text_length xs)

-- The length up to the first line end, from index `i` on, of `left` many.
unfoldable pub row_length : Mem → ℕ → ℕ → ℕ
row_length value zero i = i
row_length value (suc left) i =
    let rest = row_length value left (i + 1) in if is_line_end (value i) then i else rest

-- The position of the value in the headers, and its length; `none` for the null pointer.
unfoldable pub http_parse_header_value : HttpMessage → List ℕ → Option (ℕ × ℕ)
http_parse_header_value m header = elim (strstr_from header m.headers (m.headers_lenght + 1) 0) [
  | none ↦ none
  | some at ↦
      let value = at + text_length header in
      let length = sub16 m.headers_lenght value in
      let spaced = leb 2 length && m.headers (value + 1) == b' ' in
      let value' = if spaced then value + 2 else value + 1 in
      let length' = if spaced then sub16 length 2 else sub16 length 1 in
      if length == 0
      then none
      else if not (m.headers value == b':')
      then none
      else some (value', row_length (offset m.headers value') length' 0)
]
