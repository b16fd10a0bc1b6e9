-- ===== src/Http/Request.antt =====
-- `HttpParseRequestHeader` of src/http.c.
pub mod Bounds
pub mod Run
pub mod Texts
pub mod Whole
use avr_net_enc28j.Base.{
  ℕ, ◌+◌, ◌%◌, ◌&&◌, ◌||◌, Option, none, some, ltb, leb, ◌==◌, if◌then◌else◌, put,
}
use avr_net_enc28j.Http.State.{
  HttpConfig, Http, max_method_length, request_start_request, request_method, request_url,
  state_version, state_linux_end_header, state_mac_end_header, state_header, is_line_end,
}
use avr_net_enc28j.Http.Header.{http_parse_header}

-- The answers to a faulty request, by their codes.
pub data Fault : Type 0 where
  header_syntax_error header_part_too_long uri_too_long : Fault

abbrev pub status_code : Fault → ℕ
status_code header_syntax_error = 400
status_code header_part_too_long = 431
status_code uri_too_long = 414

-- `none` is a return of 1; with a fault the caller sends the answer by `HttpSendResponseHeader`,
-- and the return is 0.
abbrev pub Outcome : Type 0
Outcome = Option Fault × Http

module _ (c : HttpConfig) (ch : ℕ) where
  unfoldable pub parse_method : Http → Outcome
  parse_method g =
      if ch == b' '
      then (
        none,
        record g {
          request_state = request_url;
          method = put g.method g.url_length 0;
          url_length = 0;
        },
      )
      else if ltb ch b'A' || ltb b'Z' ch
      then (some header_syntax_error, g)
      else if leb max_method_length g.url_length
      then (some header_part_too_long, g)
      else (
        none,
        record g { method = put g.method g.url_length ch; url_length = (g.url_length + 1) % 256 },
      )

  unfoldable pub parse_url : Http → Outcome
  parse_url g =
      if ch == b' '
      then (none, record g { request_state = state_version })
      else if leb c.max_url_length g.url_length
      then (some uri_too_long, g)
      else (
        none,
        record g { url = put g.url g.url_length ch; url_length = (g.url_length + 1) % 256 },
      )

  unfoldable pub parse_request_version : Http → Outcome
  parse_request_version g =
      if is_line_end ch
      then (
        none,
        record g {
          message = record (g.message) { headers_lenght = 0 };
          request_state = if ch == b'\n' then state_linux_end_header else state_mac_end_header;
        },
      )
      else (none, g)

  unfoldable pub parse_request_rows : Http → Outcome
  parse_request_rows g =
      let p = http_parse_header c ch g.message g.request_state in
      let g' = record g { message = p.message; request_state = p.state } in
      if p.success then (none, g') else (some header_part_too_long, g')

  -- The parts behind the start of a request, by the state.
  unfoldable pub parse_request_part : Http → Outcome
  parse_request_part g =
      if g.request_state == request_method
      then parse_method g
      else if g.request_state == request_url
      then parse_url g
      else if g.request_state == state_version
      then parse_request_version g
      else if leb state_linux_end_header g.request_state && leb g.request_state state_header
      then parse_request_rows g
      else (some header_syntax_error, g)

  unfoldable pub http_parse_request_header : Http → Outcome
  http_parse_request_header g = parse_request_part (
      if g.request_state == request_start_request
      then record g { request_state = request_method; url_length = 0 }
      else g)
