-- ===== src/Http/Send.antt =====
-- `HttpSendResponseHeader` and `HttpSendResponse` of src/http.c. The row that is sent is built in the
-- array of the URL, and its address is given to `TcpSendData`.
pub mod Status
use avr_net_enc28j.Base.{
  ℕ, ◌+◌, ◌*◌, ◌%◌, Bool, true, false, not, Option, none, some, List, Mem, ltb, ◌==◌, if◌then◌else◌,
}
use avr_net_enc28j.Net.{Net, Env, Handlers, M, ◌>>=◌, ◌>>◌, pure, modify, gets}
use avr_net_enc28j.Tcp.Client.{tcp_send_data, tcp_disconnect}
use avr_net_enc28j.Http.State.{
  HttpConfig, Http, request_no_request, request_start_request, request_handling,
}
use avr_net_enc28j.Http.Value.{text_length}
use avr_net_enc28j.Http.Text.{
  snprintf, strlen, status_row, content_length_row, default_message, header_row_break,
}

-- The globals of the HTTP library and the memory `U` of the application. `connection` is the
-- index of the connection that `incomingRequest.connection` points to.
pub record HttpApp (U : Type 0) : Type 0 where
  pub http : Http
  pub connection : Option ℕ
  pub user : U

-- `HttpStatus`; `none` is a null pointer for the message.
pub record HttpStatus : Type 0 where
  pub code : ℕ
  pub message : Option (List ℕ)

abbrev pub status_message : HttpStatus → List ℕ
status_message status = elim (status.message) [ none ↦ default_message | some text ↦ text ]

-- The bound on the length of the status row, in an `unsigned short`.
abbrev pub status_row_bound : HttpStatus → ℕ
status_row_bound status =
    (8 + 2 + 5 + text_length (status_message status) + text_length header_row_break) % 65536

abbrev pub content_length_row_bound : ℕ
content_length_row_bound = 16 + 5 + 2 * text_length header_row_break

module _ {N U : Type 0} where
  -- A change of the globals.
  abbrev pub set_http : (Http → Http) → Net N (HttpApp U) → Net N (HttpApp U)
  set_http f s = record s { app = record (s.app) { http = f (s.app.http) } }

  abbrev pub on_http : (Http → Http) → M N (HttpApp U) (Unit {0})
  on_http f = modify (set_http f)

module _ {N U : Type 0} (env : Env N (HttpApp U)) (c : HttpConfig)
    (h : Handlers N (HttpApp U)) where
  module _ (id : ℕ) where
    -- `TcpDisconnect(connectionId, 5000)`, and a return of 0.
    unfoldable pub give_up : M N (HttpApp U) Bool
    give_up = tcp_disconnect env h id 5000 >>= λ done. pure false

    -- `TcpSendData` of what the pointer points to; where it fails, the connection is given up.
    unfoldable pub send_or_give_up :
        (Net N (HttpApp U) → Mem) → ℕ → M N (HttpApp U) Bool → M N (HttpApp U) Bool
    send_or_give_up payload length next =
        tcp_send_data env h id 60000 payload length >>= λ sent. if sent then next else give_up

    -- A row by `snprintf` into the array of the URL, and its sending.
    unfoldable pub send_row : List ℕ → M N (HttpApp U) Bool → M N (HttpApp U) Bool
    send_row row next =
        on_http (λ g. record g { url = snprintf g.url c.max_url_length row })
        >> gets (λ s. strlen s.app.http.url c.max_url_length 0)
        >>= λ length. send_or_give_up (λ s. s.app.http.url) length next

    -- The end of `HttpSendResponseHeader`.
    unfoldable pub send_last_row : ℕ → M N (HttpApp U) Bool
    send_last_row data_length = send_row (content_length_row data_length) (
        if data_length == 0
        then (tcp_disconnect env h id 5000 >>= λ done. pure true)
        else pure true)

    unfoldable pub http_send_response_header :
        HttpStatus → (Net N (HttpApp U) → Mem) → ℕ → ℕ → M N (HttpApp U) Bool
    http_send_response_header status headers headers_length data_length s =
        if s.app.http.request_state == request_no_request
        then some (false, s)
        else (on_http (λ g. record g { request_state = request_start_request })
              >> (if ltb c.max_url_length (status_row_bound status)
                  then give_up
                  else if ltb c.max_url_length content_length_row_bound
                  then give_up
                  else send_row (status_row status.code (status_message status)) (
                      if headers_length == 0
                      then send_last_row data_length
                      else send_or_give_up headers headers_length (send_last_row data_length))))
            s

  unfoldable pub http_send_response :
      HttpStatus
      → (Net N (HttpApp U) → Mem)
      → ℕ
      → (Net N (HttpApp U) → Mem)
      → ℕ
      → M N (HttpApp U) Bool
  http_send_response status headers headers_length payload data_length s =
      let id = s.app.http.request_connection_id in
      if not (s.app.http.request_state == request_handling)
      then some (false, s)
      else (http_send_response_header id status headers headers_length data_length >>= λ sent.
            if not sent
            then pure false
            else if data_length == 0
            then pure true
            else send_or_give_up id payload data_length
                (tcp_disconnect env h id 5000 >>= λ done. pure true))
          s
