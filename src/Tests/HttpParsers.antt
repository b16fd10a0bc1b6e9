-- ===== src/Tests/HttpParsers.antt =====
-- The theorems on the parsers of src/http.c at fixed states.
use avr_net_enc28j.Base.{[], ◌∷◌, arith, Mem, bytes}
use avr_net_enc28j.Http.State.{HttpConfig, HttpMessage, Http, request_method, response_message}
use avr_net_enc28j.Http.Request.{http_parse_request_header}
use avr_net_enc28j.Http.Request.Bounds.{Stays, http_parse_request_header-Stays}
use avr_net_enc28j.Http.Response.{http_parse_response_header}
use avr_net_enc28j.Http.Response.Bounds.{ResponseStays, http_parse_response_header-ResponseStays}

abbrev settings : HttpConfig
settings = record {
  max_header_rows_length = 200;
  max_url_length = 50;
  max_data_length = 100;
  max_status_message_length = 30;
}

abbrev text : Mem
text = bytes (b'G' ∷ b'E' ∷ b'T' ∷ b' ' ∷ b'/' ∷ [])

abbrev message : HttpMessage
message = record { headers_lenght = 20; headers = text; body = text; data_length = 5 }

-- In the method of a request, and in the status message of a response.
abbrev parsing : Http
parsing = record {
  request_connection_id = 0;
  response_connection_id = 1;
  request_state = request_method;
  response_state = response_message;
  message = message;
  method = text;
  url = text;
  url_length = 9;
  code = 200;
  status_message = text;
}

http_parse_request_header-Stays_example :
    Stays settings parsing (http_parse_request_header settings b'A' parsing).1
http_parse_request_header-Stays_example =
    http_parse_request_header-Stays settings b'A' (omega arith) (omega arith) parsing
      (record { rows = omega arith; text = omega arith })

http_parse_response_header-ResponseStays_example :
    ResponseStays settings parsing (http_parse_response_header settings b'A' parsing).1
http_parse_response_header-ResponseStays_example =
    http_parse_response_header-ResponseStays settings b'A' (omega arith) (omega arith) parsing
      (omega arith)
