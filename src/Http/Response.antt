-- ===== src/Http/Response.antt =====
-- `HttpParseResponseHeader`, `HttpFailedResponse` and `HttpParseResponse` of src/http.c.
pub mod Bounds
use avr_net_enc28j.Base.{
  ℕ, zero, suc, ◌+◌, ◌%◌, Bool, true, false, not, ◌&&◌, none, some, ltb, leb, ◌==◌, if◌then◌else◌,
  Mem, put, copy, offset, List, [], ◌∷◌, bytes,
}
use avr_net_enc28j.Util.{add16, parse_long}
use avr_net_enc28j.Http.State.{
  HttpConfig, Http, HttpMessage, http_message_put_data, response_waiting, response_code,
  response_message, state_version, state_linux_end_header, state_mac_end_header, state_header,
  state_end_header, state_end_message, is_line_end,
}
use avr_net_enc28j.Http.Header.{http_parse_header}
use avr_net_enc28j.Http.Value.{http_parse_header_value, text_length}

-- The result, and the globals.
abbrev pub Outcome : Type 0
Outcome = Bool × Http

module _ (c : HttpConfig) where
  module _ (ch : ℕ) where
    unfoldable pub parse_response_version : Http → Outcome
    parse_response_version g =
        (true, if ch == b' ' then record g { response_state = response_code; code = 0 } else g)

    -- The digits of the code are gathered in the status message, and `code` counts them.
    unfoldable pub parse_code : Http → Outcome
    parse_code g =
        if leb c.max_status_message_length g.code
        then (false, g)
        else if ch == b' '
        then elim (parse_long g.status_message g.code) [
          | none ↦ (false, g)
          | some code ↦ if ltb 65535 code then (false, g) else (
            true,
            record g {
              code = code % 65536;
              response_state = response_message;
              message = record (g.message) { headers_lenght = 0 };
            },
          )
        ]
        else (
          true,
          record g { status_message = put g.status_message g.code ch; code = add16 g.code 1 },
        )

    unfoldable pub parse_message : Http → Outcome
    parse_message g =
        let length = g.message.headers_lenght in
        if leb c.max_status_message_length length
        then (false, g)
        else if is_line_end ch
        then (
          true,
          record g {
            status_message = put g.status_message length 0;
            response_state = if ch == b'\n' then state_linux_end_header else state_mac_end_header;
            message = record (g.message) { headers_lenght = 0 };
          },
        )
        else (
          true,
          record g {
            status_message = put g.status_message length ch;
            message = record (g.message) { headers_lenght = add16 length 1 };
          },
        )

    unfoldable pub parse_response_rows : Http → Outcome
    parse_response_rows g =
        let p = http_parse_header c ch g.message g.response_state in
        (p.success, record g { message = p.message; response_state = p.state })

    unfoldable pub parse_response_part : Http → Outcome
    parse_response_part g =
        if g.response_state == state_version
        then parse_response_version g
        else if g.response_state == response_code
        then parse_code g
        else if g.response_state == response_message
        then parse_message g
        else if leb state_linux_end_header g.response_state && leb g.response_state state_header
        then parse_response_rows g
        else (false, g)

    unfoldable pub http_parse_response_header : Http → Outcome
    http_parse_response_header g = parse_response_part (
        if g.response_state == response_waiting
        then record g { response_state = state_version }
        else g)

  -- `HttpFailedResponse`, which copies the message and its closing 0.
  unfoldable pub http_failed_response : List ℕ → Http → Http
  http_failed_response text g = record g {
    code = 0;
    status_message = copy g.status_message 0 (bytes text) (suc (text_length text));
    message = record (g.message) { headers_lenght = 0; data_length = 0 };
  }

  -- The loop over the header in `HttpParseResponse`, from position `i` with `left` bytes left: the
  -- result of the loop, and the position behind it.
  unfoldable pub response_header_from : Mem → ℕ → ℕ → Http → Bool × ℕ × Http
  response_header_from payload zero i g = (true, i, g)
  response_header_from payload (suc left) i g =
      let (done, g') = http_parse_response_header (payload i) g in
      let rest = response_header_from payload left (i + 1) g' in
      if not done
      then (false, i, g')
      else if g'.response_state == state_end_header
      then (true, i + 1, g')
      else rest

  abbrev pub content_length_text : List ℕ
  content_length_text =
      b'C' ∷ b'o' ∷ b'n' ∷ b't' ∷ b'e' ∷ b'n' ∷ b't' ∷ b'-' ∷ b'L' ∷ b'e' ∷ b'n' ∷ b'g' ∷ b't'
      ∷ b'h' ∷ []

  -- The length of the body that the header announces; 0 if it does not, or too long a one.
  unfoldable pub announced_length : HttpMessage → ℕ
  announced_length m = elim (http_parse_header_value m content_length_text) [
    | none ↦ 0
    | some (value, length) ↦ elim (parse_long (offset m.headers value) length) [
      | none ↦ 0
      | some n ↦ if ltb c.max_data_length n then 0 else n
    ]
  ]

  -- `read response body`.
  unfoldable pub read_response_body : Mem → ℕ → ℕ → Http → Http
  read_response_body payload length position g =
      let announced = announced_length g.message in
      let m = http_message_put_data payload length position g.message in
      if announced == 0 then record g { response_state = state_end_message } else record g {
        message = m;
        response_state = if m.data_length == announced then state_end_message else g.response_state;
      }

  -- `HttpParseResponse`.
  unfoldable pub http_parse_response : Mem → ℕ → Http → Outcome
  http_parse_response payload length g =
      let in_header = ltb g.response_state state_end_header in
      let (done, position, g') =
        if in_header then response_header_from payload length 0 g else (true, 0, g) in
      if not done
      then (false, g')
      else if in_header && not (g'.response_state == state_end_header)
      then (true, g')
      else if ltb g'.response_state state_end_message
      then (true, read_response_body payload length position g')
      else (true, g')
