-- ===== src/Http/Header.antt =====
-- `HttpParseHeader` of src/http.c: the rows of a header, and its end, which is an empty row after
-- "\n", "\r" or "\r\n".
pub mod Bounds
use avr_net_enc28j.Base.{ℕ, Bool, true, false, ◌||◌, ◌==◌, if◌then◌else◌, put}
use avr_net_enc28j.Http.State.{
  HttpConfig, HttpMessage, http_headers_put_char, state_linux_end_header, state_mac_end_header,
  state_win_end_header, state_win_end_header2, state_header, state_end_header,
}

-- The result, the new state and the message.
pub record Parsed : Type 0 where
  pub success : Bool
  pub state : ℕ
  pub message : HttpMessage

-- The end of the header: the string of its rows is closed, and the body is empty so far.
unfoldable pub end_header : HttpMessage → Parsed
end_header m = record {
  success = true;
  state = state_end_header;
  message = record m { data_length = 0; headers = put m.headers m.headers_lenght 0 };
}

module _ (c : HttpConfig) (ch : ℕ) (m : HttpMessage) where
  -- `return HttpHeadersPutChar(ch)`, in this state.
  abbrev pub put_in : ℕ → Parsed
  put_in state =
      let (done, m') = http_headers_put_char c ch m in
      record { success = done; state = state; message = m' }

  -- `parse header rows`.
  unfoldable pub parse_row : ℕ → Parsed
  parse_row state =
      if state == state_header
      then put_in (
          if ch == b'\n'
          then state_linux_end_header
          else if ch == b'\r'
          then state_mac_end_header
          else state_header)
      else record { success = false; state = state; message = m }

  -- Behind "\r\n".
  unfoldable pub parse_win_end : ℕ → Parsed
  parse_win_end state =
      if state == state_win_end_header
      then (if ch == b'\r'
          then record { success = true; state = state_win_end_header2; message = m }
          else parse_row state_header)
      else parse_row state

  -- Behind "\n", or behind "\r\n\r".
  unfoldable pub parse_linux_end : ℕ → Parsed
  parse_linux_end state =
      if state == state_linux_end_header || state == state_win_end_header2
      then (if ch == b'\n' then end_header m else parse_win_end state_header)
      else parse_win_end state

  unfoldable pub http_parse_header : ℕ → Parsed
  http_parse_header state =
      if state == state_mac_end_header
      then (if ch == b'\n'
          then put_in state_win_end_header
          else if ch == b'\r'
          then end_header m
          else parse_linux_end state_header)
      else parse_linux_end state
