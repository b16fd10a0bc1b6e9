-- ===== src/Http/Response/Bounds.antt =====
-- `HttpParseResponseHeader` of src/http.c writes inside its arrays.
use avr_net_enc28j.Base.{
  ℕ, ◌≤◌, ◌<◌, ◌≡◌, refl, Bool, true, false, ◌&&◌, inl, inr, arith, put, leb, ◌==◌, if◌then◌else◌,
  Bool-cases, Option-cases,
}
use avr_net_enc28j.Util.{parse_long}
use avr_net_enc28j.Http.State.{
  HttpConfig, Http, response_waiting, response_code, response_message, state_version,
  state_linux_end_header, state_header,
}
use avr_net_enc28j.Http.Header.Bounds.{http_parse_header-RowsKept, header_state}
use avr_net_enc28j.Http.Response.{
  Outcome, parse_response_version, parse_code, parse_message, parse_response_rows,
  parse_response_part, http_parse_response_header,
}

-- While the rows are read their length fits the array; before, the length counts other things.
abbrev pub rows_limit : HttpConfig → ℕ → ℕ
rows_limit c state = if leb state_linux_end_header state then c.max_header_rows_length else 65535

-- `g'` comes from `g` by writes inside the arrays of the status message and of the rows, each of
-- which has a byte more than the greatest length, and the length of the rows fits.
pub record ResponseStays (c : HttpConfig) (g g' : Http) : Type 0 where
  pub rows : g'.message.headers_lenght ≤ rows_limit c g'.response_state
  pub status : (j : ℕ) → c.max_status_message_length < j → g'.status_message j ≡ g.status_message j
  pub headers : (j : ℕ) → c.max_header_rows_length < j → g'.message.headers j ≡ g.message.headers j

module _ (c : HttpConfig) (ch : ℕ) (rows_small : c.max_header_rows_length < 65535)
    (status_small : c.max_status_message_length < 65535) where
  parse_response_version-ResponseStays :
      (g : Http)
      → g.message.headers_lenght ≤ rows_limit c g.response_state
      → (g.response_state == state_version) ≡ true
      → ResponseStays c g (parse_response_version c ch g).1
  unfolding parse_response_version
  parse_response_version-ResponseStays g h e = record {
    rows = ground (arith, h);
    status = λ j l. ground arith;
    headers = λ j l. ground arith;
  }

  parse_code-ResponseStays :
      (g : Http)
      → g.message.headers_lenght ≤ rows_limit c g.response_state
      → (g.response_state == response_code) ≡ true
      → ResponseStays c g (parse_code c ch g).1
  unfolding parse_code put
  parse_code-ResponseStays g h e = elim (Option-cases (parse_long g.status_message g.code)) [
    | inl t ↦ rw t (record {
      rows = ground (arith, h);
      status = λ j l. ground arith;
      headers = λ j l. ground arith;
    })
    | inr (n, t) ↦ rw t (record {
      rows = ground (arith, h);
      status = λ j l. ground arith;
      headers = λ j l. ground arith;
    })
  ]

  parse_message-ResponseStays :
      (g : Http)
      → g.message.headers_lenght ≤ rows_limit c g.response_state
      → (g.response_state == response_message) ≡ true
      → ResponseStays c g (parse_message c ch g).1
  unfolding parse_message put
  parse_message-ResponseStays g h e = record {
    rows = ground (arith, h);
    status = λ j l. ground arith;
    headers = λ j l. ground arith;
  }

  parse_response_rows-ResponseStays :
      (g : Http)
      → g.message.headers_lenght ≤ rows_limit c g.response_state
      → (leb state_linux_end_header g.response_state && leb g.response_state state_header) ≡ true
      → ResponseStays c g (parse_response_rows c ch g).1
  unfolding parse_response_rows
  parse_response_rows-ResponseStays g h e =
      let kept =
        http_parse_header-RowsKept c ch g.message rows_small (ground arith) g.response_state in
      let later = header_state c ch g.message g.response_state (ground arith) in
      record { rows = ground (arith, kept.length); status = λ j l. refl; headers = kept.behind }

  if-ResponseStays :
      (g : Http) (b : Bool) (x y : Outcome)
      → (b ≡ true → ResponseStays c g x.1)
      → (b ≡ false → ResponseStays c g y.1)
      → ResponseStays c g (if b then x else y).1
  if-ResponseStays g true x y hx hy = hx refl
  if-ResponseStays g false x y hx hy = hy refl

  parse_response_part-ResponseStays :
      (g : Http)
      → g.message.headers_lenght ≤ rows_limit c g.response_state
      → ResponseStays c g (parse_response_part c ch g).1
  unfolding parse_response_part
  parse_response_part-ResponseStays g h =
      if-ResponseStays g (g.response_state == state_version) _ _
        (parse_response_version-ResponseStays g h)
        λ a.
          if-ResponseStays g (g.response_state == response_code) _ _ (parse_code-ResponseStays g h)
            λ b.
              if-ResponseStays g (g.response_state == response_message) _ _
                (parse_message-ResponseStays g h)
                λ d.
                  if-ResponseStays g
                    (leb state_linux_end_header g.response_state
                      && leb g.response_state state_header)
                    _ _ (parse_response_rows-ResponseStays g h)
                    (λ e. record { rows = h; status = λ j l. refl; headers = λ j l. refl })

  -- Whatever byte of a response arrives, the parser writes inside the arrays of the status message
  -- and of the header rows, and the length of the rows still fits. The settings are below 65535.
  pub http_parse_response_header-ResponseStays :
      (g : Http)
      → g.message.headers_lenght ≤ rows_limit c g.response_state
      → ResponseStays c g (http_parse_response_header c ch g).1
  unfolding http_parse_response_header
  http_parse_response_header-ResponseStays g h =
      elim (Bool-cases (g.response_state == response_waiting)) [
        | inr e ↦ rw e (parse_response_part-ResponseStays g h)
        | inl e ↦
            let started : Http = record g { response_state = state_version } in
            let r = parse_response_part-ResponseStays started (ground (arith, h)) in
            rw e (record { rows = r.rows; status = r.status; headers = r.headers })
      ]
