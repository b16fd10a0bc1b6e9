-- ===== src/Tests/HttpServer.antt =====
-- A web server with one connection, and the theorems on requests at fixed requests.
use avr_net_enc28j.Base.{
  ℕ, ◌+◌, ◌<◌, ◌≤◌, ◌≡◌, ◌≢◌, refl, false, true, some, arith, List, [], ◌∷◌, ◌++◌, bytes,
}
use avr_net_enc28j.Net.{Net, Env, Handlers, pure, ◌>>◌}
use avr_net_enc28j.Http.State.{
  http_init, HttpConfig, Http, request_start_request, request_handling, state_end_header,
}
use avr_net_enc28j.Http.Value.{text_length}
use avr_net_enc28j.Http.Text.{get_text, digits, is_text, content_length_row}
use avr_net_enc28j.Http.Response.{announced_length}
use avr_net_enc28j.Http.Rows.{Holds}
use avr_net_enc28j.Http.Request.Run.{every}
use avr_net_enc28j.Http.Request.Texts.{Holds-itself}
use avr_net_enc28j.Http.Request.Whole.{request_line}
use avr_net_enc28j.Http.Send.{HttpApp, set_http}
use avr_net_enc28j.Http.Serve.{
  Server, http_tcp_on_incoming_data, request_header_from, close_unanswered,
}
use avr_net_enc28j.Http.Serve.Requests.{request_header_from_request}
use avr_net_enc28j.Http.Serve.Handled.{post_text, post_is_handled}
use avr_net_enc28j.Http.Serve.{http_tcp_on_new_connection}
use avr_net_enc28j.Http.Serve.Single.{Reaches, begin, opened, read_byte, http_serves_one}
use avr_net_enc28j.Http.Request.{http_parse_request_header, parse_request_part, parse_method}
use avr_net_enc28j.Http.Fetch.{request_row}
use avr_net_enc28j.Http.Fetch.Row.{request_row_lem}
use avr_net_enc28j.Tests.Fixtures.{our_config, their_mac, table}

abbrev limits : HttpConfig
limits = record {
  max_header_rows_length = 50;
  max_url_length = 50;
  max_data_length = 50;
  max_status_message_length = 30;
}

abbrev server : Server ℕ ℕ
server = record {
  http_config = limits;
  http_server_port = 80;
  http_tcp_included = false;
  http_on_incoming_request = λ h. pure tt;
}

abbrev web_env : Env ℕ (HttpApp ℕ)
web_env = record {
  config = our_config;
  packet_receive = λ m size n. record { length = 0; buffer = m; nic = n };
  packet_send = λ m length n. n + 1;
  tcp_on_new_connection = λ h id. pure 1;
  tcp_on_connect = λ h id. pure tt;
  tcp_on_incoming_data = λ h id m length. pure tt;
  tcp_on_disconnect = λ h id. pure tt;
  udp_on_incoming_datagram = λ h d m length. pure 0;
}

abbrev web_handlers : Handlers ℕ (HttpApp ℕ)
web_handlers = record { net_handle = λ length. pure tt; tcp_handle = λ length. pure tt }

-- Connection 0 has just been accepted as that of a request.
abbrev accepted : Http
accepted = record {
  request_connection_id = 0;
  response_connection_id = 255;
  request_state = request_start_request;
  response_state = 0;
  message = record { headers_lenght = 0; headers = λ i. 0; body = λ i. 0; data_length = 0 };
  method = λ i. 0;
  url = λ i. 0;
  url_length = 0;
  code = 0;
  status_message = λ i. 0;
}

abbrev waiting : Net ℕ (HttpApp ℕ)
waiting = record {
  nic = 0;
  buffer = λ i. 0;
  ip_identfier = 1;
  connect_port_rotaiting = 49152;
  arp_cache = λ i. record { mac = their_mac; ip = their_mac; use_count = 0 };
  connections = table;
  app = record { http = accepted; connection = some 0; user = 0 };
}

abbrev url : List ℕ
url = b'/' ∷ b'a' ∷ []

abbrev post : List ℕ
post = request_line post_text url ++ content_length_row 3

request_header_from_request_example :
    (g : Http) × (request_header_from web_env server web_handlers
        (bytes post)
        (text_length post + 3)
        0
        waiting
      ≡ some (some (text_length post), set_http (λ old. g) waiting))
    × (g.request_state ≡ state_end_header)
    × (is_text post_text g.method ≡ true)
    × Holds url g.url 0
    × (g.url_length ≡ 2)
    × (g.message.data_length ≡ 0)
    × (announced_length limits g.message ≡ 3)
unfolding every digits
request_header_from_request_example =
    request_header_from_request web_env server web_handlers post_text url 3 (bytes post) 3 waiting
      refl (omega arith) refl (omega arith) (omega arith) (omega arith) (omega arith) (omega arith)
      refl (Holds-itself post)

post_is_handled_example :
    (g : Http) × (http_tcp_on_incoming_data web_env server web_handlers 0
        (bytes post)
        (text_length post + 3)
        waiting
      ≡ (server.http_on_incoming_request web_handlers
            >> close_unanswered web_env server web_handlers 0)
          (set_http (λ old. g) waiting))
    × (g.request_state ≡ request_handling)
    × (is_text post_text g.method ≡ true)
    × Holds url g.url 0
    × (g.url_length ≡ 2)
    × (g.message.data_length ≡ 3)
    × ((j : ℕ) → j < 3 → g.message.body j ≡ bytes post (text_length post + j))
unfolding every digits request_line content_length_row
post_is_handled_example =
    post_is_handled web_env server web_handlers 0 url 3 (bytes post) waiting refl (omega arith)
      (omega arith) (omega arith) (omega arith) (omega arith) (omega arith) (omega arith) refl refl
      refl (Holds-itself post)

request_row_lem_example :
    let row = request_row get_text (bytes url) 2 (λ i. 0) in
    (row.1 ≡ text_length (request_line get_text url))
    × (row.1 ≤ 30)
    × Holds (request_line get_text url) row.0 0
    × ((j : ℕ) → row.1 ≤ j → row.0 j ≡ 0)
request_row_lem_example =
    request_row_lem limits get_text url (bytes url) (λ i. 0) (Holds-itself url) (omega arith)
      (omega arith)

-- Connection 0 is accepted after the start, and the first byte of its request is read.
abbrev started : Net ℕ (HttpApp ℕ)
started = set_http http_init waiting

abbrev open_0 : Net ℕ (HttpApp ℕ)
open_0 = record started {
  app = record (started.app) {
    connection = some 0;
    http = record (started.app.http) {
      request_connection_id = 0;
      request_state = request_start_request;
    };
  };
}

abbrev reading : Net ℕ (HttpApp ℕ)
reading = set_http (λ g. (http_parse_request_header limits b'G' g).1) open_0

reading-Reaches : Reaches web_env server reading
unfolding http_tcp_on_new_connection http_init
reading-Reaches =
    read_byte b'G' open_0
      (opened web_handlers 0 0 started open_0 (begin waiting) (omega arith) refl)
      (λ e. omega (arith, e))

http_serves_one_example :
    (reading.app.http.request_state ≢ 0)
    × (http_tcp_on_new_connection web_env server web_handlers 1 reading ≡ some (1, reading))
unfolding http_parse_request_header parse_request_part parse_method
http_serves_one_example =
    http_serves_one web_env server refl reading web_handlers 1 reading-Reaches
      (λ e. omega (arith, e)) refl
