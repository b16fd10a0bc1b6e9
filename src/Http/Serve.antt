-- ===== src/Http/Serve.antt =====
-- The server of src/http.c: the callbacks that it gives to the TCP library. `env` holds the
-- application's own callbacks, which the settings may leave out (`HTTP_TCP_INCLUDED`).
pub mod Requests
pub mod Handled
pub mod Bodyless
pub mod Single
use avr_net_enc28j.Base.{
  ℕ, zero, suc, ◌+◌, Bool, true, false, not, ◌&&◌, ◌||◌, Option, none, some, List, Mem, ltb, ◌==◌,
  if◌then◌else◌, offset,
}
use avr_net_enc28j.Util.{parse_long}
use avr_net_enc28j.Net.{
  Net, Env, Handlers, M, ◌>>=◌, ◌>>◌, pure, modify, gets, net_handle_result_drop,
}
use avr_net_enc28j.Tcp.Table.{tcp_invalid_connection_id}
use avr_net_enc28j.Tcp.Client.{tcp_disconnect}
use avr_net_enc28j.Http.State.{
  HttpConfig, Http, http_message_put_data, request_no_request, request_start_request,
  request_handling, state_end_header, state_end_message,
}
use avr_net_enc28j.Http.Request.{
  Fault, header_syntax_error, header_part_too_long, uri_too_long, status_code,
  http_parse_request_header,
}
use avr_net_enc28j.Http.Response.{http_parse_response, content_length_text}
use avr_net_enc28j.Http.Value.{http_parse_header_value}
use avr_net_enc28j.Http.Text.{
  is_text, get_text, head_text, options_text, header_syntax_error_text, header_part_too_long_text,
  uri_too_long_text, length_required_text, payload_too_large_text, invalid_state_text,
}
use avr_net_enc28j.Http.Send.{HttpApp, HttpStatus, set_http, on_http, http_send_response_header}

-- The settings of the server, and the application's handler of requests, `HttpOnIncomingRequest`.
pub record Server (N U : Type 0) : Type 0 where
  pub http_config : HttpConfig
  pub http_server_port : ℕ
  pub http_tcp_included : Bool
  pub http_on_incoming_request : Handlers N (HttpApp U) → M N (HttpApp U) (Unit {0})

abbrev pub net_handle_result_ok : ℕ
net_handle_result_ok = 0

abbrev pub fault_text : Fault → List ℕ
fault_text header_syntax_error = header_syntax_error_text
fault_text header_part_too_long = header_part_too_long_text
fault_text uri_too_long = uri_too_long_text

module _ {N U : Type 0} (env : Env N (HttpApp U)) (server : Server N U) where
  open server use {http_config, http_server_port, http_tcp_included, http_on_incoming_request}

  -- The place of a new connection is in use, so that `TcpGetConnection` returns it.
  unfoldable pub http_tcp_on_new_connection : Handlers N (HttpApp U) → ℕ → M N (HttpApp U) ℕ
  http_tcp_on_new_connection h id s =
      if not ((s.connections id).port == http_server_port)
      then (if http_tcp_included
          then env.tcp_on_new_connection h id s
          else some (net_handle_result_drop, s))
      else if not (s.app.http.request_state == request_no_request)
      then some (net_handle_result_drop, s)
      else some (
        net_handle_result_ok,
        record s {
          app = record (s.app) {
            connection = some id;
            http = record (s.app.http) {
              request_connection_id = id;
              request_state = request_start_request;
            };
          };
        },
      )

  unfoldable pub http_tcp_on_connect : Handlers N (HttpApp U) → ℕ → M N (HttpApp U) (Unit {0})
  http_tcp_on_connect h id s =
      if http_tcp_included
      then (if id == s.app.http.request_connection_id || id == s.app.http.response_connection_id
          then some (tt, s)
          else env.tcp_on_connect h id s)
      else some (tt, s)

  unfoldable pub http_tcp_on_disconnect : Handlers N (HttpApp U) → ℕ → M N (HttpApp U) (Unit {0})
  http_tcp_on_disconnect h id s =
      if id == s.app.http.response_connection_id
      then some (tt, s)
      else if not (id == s.app.http.request_connection_id)
      then (if http_tcp_included then env.tcp_on_disconnect h id s else some (tt, s))
      else if s.app.http.request_state == request_no_request
      then some (tt, s)
      else some (
        tt,
        set_http
            (λ g. record g {
              request_connection_id = tcp_invalid_connection_id;
              request_state = request_no_request;
            })
            s,
      )

  -- The callbacks but for data, which the functions below need of the TCP library.
  unfoldable pub http_callbacks : Env N (HttpApp U)
  http_callbacks = record env {
    tcp_on_new_connection = http_tcp_on_new_connection;
    tcp_on_connect = http_tcp_on_connect;
    tcp_on_disconnect = http_tcp_on_disconnect;
  }

  module _ (h : Handlers N (HttpApp U)) where
    -- `HttpStatus status = {code, message}; HttpSendResponseHeader(connectionId, &status, 0, 0, 0)`.
    unfoldable pub answer : ℕ → ℕ → List ℕ → M N (HttpApp U) (Unit {0})
    answer id code message =
        http_send_response_header http_callbacks http_config h id
          (record { code = code; message = some message }) (λ s i. 0) 0 0
        >>= λ sent. pure tt

    -- The loop over the header, from position `i` with `left` bytes left: the position behind the
    -- header, or behind the data; `none` is a return in the loop.
    unfoldable pub request_header_from : Mem → ℕ → ℕ → M N (HttpApp U) (Option ℕ)
    request_header_from payload zero i s = some (some i, s)
    request_header_from payload (suc left) i s =
        let (fault, g) = http_parse_request_header http_config (payload i) s.app.http in
        let s' = set_http (λ old. g) s in
        let rest = request_header_from payload left (i + 1) in
        elim fault [
          | some f ↦
              (answer s.app.http.request_connection_id (status_code f) (fault_text f) >> pure none)
                s'
          | none ↦ if g.request_state == state_end_header then some (some (i + 1), s') else rest s'
        ]

    -- `read request body`; `false` is a return.
    unfoldable pub read_request_body : ℕ → Mem → ℕ → ℕ → M N (HttpApp U) Bool
    read_request_body id payload length position s =
        let g = s.app.http in
        if is_text head_text g.method || is_text get_text g.method || is_text options_text g.method
        then some (true, set_http (λ g. record g { request_state = state_end_message }) s)
        else elim (http_parse_header_value g.message (content_length_text http_config)) [
          | none ↦ (answer id 411 length_required_text >> pure false) s
          | some (value, value_length) ↦
              elim (parse_long (offset g.message.headers value) value_length) [
                | none ↦ (answer id 400 header_syntax_error_text >> pure false) s
                | some announced ↦
                    if ltb http_config.max_data_length announced
                    then (answer id 413 payload_too_large_text >> pure false) s
                    else (let m = http_message_put_data payload length position g.message in
                        let done = m.data_length == announced in
                        some (
                          done,
                          set_http
                              (λ g. record g {
                                message = m;
                                request_state = if done then state_end_message else g.request_state;
                              })
                              s,
                        ))
              ]
        ]

    -- The connection of a request that the application left without an answer is closed.
    unfoldable pub close_unanswered : ℕ → M N (HttpApp U) (Unit {0})
    close_unanswered id s =
        if s.app.http.request_state == request_handling
        then (tcp_disconnect http_callbacks h id 5000 >>= λ done. pure tt) s
        else some (tt, s)

    -- `handle request and send response`.
    unfoldable pub handle_request : ℕ → M N (HttpApp U) (Unit {0})
    handle_request id s =
        if s.app.http.request_state == state_end_message
        then (on_http (λ g. record g { request_state = request_handling })
              >> http_on_incoming_request h
              >> close_unanswered id)
            s
        else answer id 400 invalid_state_text s

    -- The part of `HttpTcpOnIncomingData` behind the header, at this position of the data.
    unfoldable pub read_request : ℕ → Mem → ℕ → ℕ → M N (HttpApp U) (Unit {0})
    read_request id payload length position s =
        if ltb s.app.http.request_state state_end_message
        then (read_request_body id payload length position >>= λ done.
              if done then handle_request id else pure tt)
            s
        else handle_request id s

    unfoldable pub http_tcp_on_incoming_data : ℕ → Mem → ℕ → M N (HttpApp U) (Unit {0})
    http_tcp_on_incoming_data id payload length s =
        let g = s.app.http in
        if id == g.response_connection_id
        then (let (done, g') = http_parse_response http_config payload length g in
            let s' = set_http (λ old. g') s in
            if done
            then some (tt, s')
            else (tcp_disconnect http_callbacks h id 5000 >>= λ closed. pure tt) s')
        else if not (id == g.request_connection_id)
        then (if http_tcp_included
            then env.tcp_on_incoming_data h id payload length s
            else some (tt, s))
        else if g.request_state == request_no_request
        then (tcp_disconnect http_callbacks h id 5000 >>= λ closed. pure tt) s
        else if ltb g.request_state state_end_header
        then (request_header_from payload length 0 >>= λ position. elim position [
          | none ↦ pure tt
          | some i ↦ λ s'.
              if s'.app.http.request_state == state_end_header
              then read_request id payload length i s'
              else some (tt, s')
        ])
            s
        else read_request id payload length 0 s

  -- The environment of a TCP library with this HTTP library on top.
  unfoldable pub http_env : Env N (HttpApp U)
  http_env = record http_callbacks { tcp_on_incoming_data = http_tcp_on_incoming_data }
