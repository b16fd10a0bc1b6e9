-- ===== src/Http/State.antt =====
-- The globals and the settings of src/http.c, and the writers of the message.
pub mod Body
use avr_net_enc28j.Base.{
  ℕ, ◌+◌, ◌%◌, Bool, true, false, ◌&&◌, ◌||◌, leb, ◌==◌, if◌then◌else◌, Mem, put, copy, offset,
}
use avr_net_enc28j.Util.{sub16, add16}

pub record HttpConfig : Type 0 where
  pub max_header_rows_length : ℕ
  pub max_url_length : ℕ
  pub max_data_length : ℕ
  pub max_status_message_length : ℕ

abbrev pub max_method_length : ℕ
max_method_length = 10

-- The states of the two parsers, by their numbers, since the source compares them by order.
abbrev pub request_no_request : ℕ
request_no_request = 0

abbrev pub request_start_request : ℕ
request_start_request = 1

abbrev pub request_method : ℕ
request_method = 2

abbrev pub request_url : ℕ
request_url = 3

abbrev pub response_waiting : ℕ
response_waiting = 0

abbrev pub response_code : ℕ
response_code = 1

abbrev pub response_message : ℕ
response_message = 2

abbrev pub state_version : ℕ
state_version = 4

abbrev pub state_linux_end_header : ℕ
state_linux_end_header = 5

abbrev pub state_mac_end_header : ℕ
state_mac_end_header = 6

abbrev pub state_win_end_header : ℕ
state_win_end_header = 7

abbrev pub state_win_end_header2 : ℕ
state_win_end_header2 = 8

abbrev pub state_header : ℕ
state_header = 9

abbrev pub state_end_header : ℕ
state_end_header = 10

abbrev pub state_end_message : ℕ
state_end_message = 11

abbrev pub request_handling : ℕ
request_handling = 12

-- `HttpMessage`; the array `data` is `body` here.
pub record HttpMessage : Type 0 where
  pub headers_lenght : ℕ
  pub headers : Mem
  pub body : Mem
  pub data_length : ℕ

-- The globals. `incomingRequest` and `incomingResponse` share the message.
pub record Http : Type 0 where
  pub request_connection_id : ℕ
  pub response_connection_id : ℕ
  pub request_state : ℕ
  pub response_state : ℕ
  pub message : HttpMessage
  pub method : Mem
  pub url : Mem
  pub url_length : ℕ
  pub code : ℕ
  pub status_message : Mem

abbrev pub is_line_end : ℕ → Bool
is_line_end ch = ch == b'\n' || ch == b'\r'

-- `HttpHeadersPutChar`.
unfoldable pub http_headers_put_char : HttpConfig → ℕ → HttpMessage → Bool × HttpMessage
http_headers_put_char c ch m =
    if is_line_end ch && m.headers_lenght == 0
    then (true, m)
    else if leb c.max_header_rows_length m.headers_lenght
    then (false, m)
    else (
      true,
      record m {
        headers = put m.headers m.headers_lenght ch;
        headers_lenght = add16 m.headers_lenght 1;
      },
    )

-- `HttpMessagePutData`. The length of the data is an `unsigned char`.
unfoldable pub http_message_put_data : Mem → ℕ → ℕ → HttpMessage → HttpMessage
http_message_put_data payload length position m =
    if length == 0
    then m
    else (let left = sub16 length position in
        record m {
          body = copy m.body m.data_length (offset payload position) left;
          data_length = (m.data_length + left) % 256;
        })

-- `HttpInit`.
unfoldable pub http_init : Http → Http
http_init g = record g {
  request_state = request_no_request;
  request_connection_id = 0xff;
  response_connection_id = 0xff;
}
