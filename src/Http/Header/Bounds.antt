-- ===== src/Http/Header/Bounds.antt =====
-- `HttpParseHeader` of src/http.c writes inside the array of the rows.
use avr_net_enc28j.Base.{
  ℕ, ◌≤◌, ◌<◌, ◌≡◌, refl, Bool, true, false, ◌||◌, arith, put, ◌==◌, if◌then◌else◌,
}
use avr_net_enc28j.Http.State.{
  HttpConfig, HttpMessage, http_headers_put_char, state_linux_end_header, state_mac_end_header,
  state_win_end_header, state_win_end_header2, state_header,
}
use avr_net_enc28j.Http.Header.{
  Parsed, end_header, put_in, parse_row, parse_win_end, parse_linux_end, http_parse_header,
}

-- `m'` comes from `m` by writes inside the array of the rows, which has a byte more than their
-- greatest length.
pub record RowsKept (c : HttpConfig) (m m' : HttpMessage) : Type 0 where
  pub length : m'.headers_lenght ≤ c.max_header_rows_length
  pub behind : (j : ℕ) → c.max_header_rows_length < j → m'.headers j ≡ m.headers j

module _ (c : HttpConfig) (ch : ℕ) (m : HttpMessage) (small : c.max_header_rows_length < 65535)
    (fits : m.headers_lenght ≤ c.max_header_rows_length) where
  same-RowsKept : RowsKept c m m
  same-RowsKept = record { length = fits; behind = λ j h. refl }

  if-RowsKept :
      (b : Bool) (x y : Parsed)
      → RowsKept c m x.message
      → RowsKept c m y.message
      → RowsKept c m (if b then x else y).message
  if-RowsKept true x y hx hy = hx
  if-RowsKept false x y hx hy = hy

  put_in-RowsKept : (state : ℕ) → RowsKept c m (put_in c ch m state).message
  unfolding http_headers_put_char put
  put_in-RowsKept state = record { length = ground arith; behind = λ j h. ground arith }

  end_header-RowsKept : RowsKept c m (end_header m).message
  unfolding end_header put
  end_header-RowsKept = record { length = fits; behind = λ j h. ground arith }

  parse_row-RowsKept : (state : ℕ) → RowsKept c m (parse_row c ch m state).message
  unfolding parse_row
  parse_row-RowsKept state =
      let next =
        if ch == b'\n'
        then state_linux_end_header
        else if ch == b'\r'
        then state_mac_end_header
        else state_header in
      if-RowsKept (state == state_header) _ _ (put_in-RowsKept next) same-RowsKept

  parse_win_end-RowsKept : (state : ℕ) → RowsKept c m (parse_win_end c ch m state).message
  unfolding parse_win_end
  parse_win_end-RowsKept state =
      if-RowsKept (state == state_win_end_header) _ _
        (if-RowsKept (ch == b'\r') _ _ same-RowsKept (parse_row-RowsKept state_header))
        (parse_row-RowsKept state)

  parse_linux_end-RowsKept : (state : ℕ) → RowsKept c m (parse_linux_end c ch m state).message
  unfolding parse_linux_end
  parse_linux_end-RowsKept state =
      if-RowsKept (state == state_linux_end_header || state == state_win_end_header2) _ _
        (if-RowsKept (ch == b'\n') _ _ end_header-RowsKept (parse_win_end-RowsKept state_header))
        (parse_win_end-RowsKept state)

  -- A byte of a header is written inside the array of the rows, or dropped.
  pub http_parse_header-RowsKept :
      (state : ℕ) → RowsKept c m (http_parse_header c ch m state).message
  unfolding http_parse_header
  http_parse_header-RowsKept state =
      if-RowsKept (state == state_mac_end_header) _ _
        (if-RowsKept (ch == b'\n') _ _ (put_in-RowsKept state_win_end_header) (
          if-RowsKept (ch == b'\r') _ _ end_header-RowsKept
            (parse_linux_end-RowsKept state_header)))
        (parse_linux_end-RowsKept state)

-- A header that has begun stays begun.
pub header_state :
    (c : HttpConfig) (ch : ℕ) (m : HttpMessage) (state : ℕ)
    → state_linux_end_header ≤ state
    → state_linux_end_header ≤ (http_parse_header c ch m state).state
unfolding http_parse_header parse_linux_end parse_win_end parse_row end_header
header_state c ch m state h = ground arith
