-- ===== src/Http/Fetch.antt =====
-- The client of src/http.c, `HttpSendRequest`. The response that it returns a pointer to is the
-- global one. The request is built in the array of the status message.
pub mod Row
use avr_net_enc28j.Base.{
  ℕ, zero, suc, ◌+◌, ◌*◌, ◌%◌, Bool, not, Option, none, some, List, [], ◌∷◌, ◌++◌, Mem, bytes, ltb,
  ◌==◌, if◌then◌else◌, offset,
}
use avr_net_enc28j.Util.{chars_cat}
use avr_net_enc28j.Net.{Net, Env, Handlers, M, ◌>>=◌, ◌>>◌, pure, modify, gets}
use avr_net_enc28j.Tcp.Table.{tcp_invalid_connection_id}
use avr_net_enc28j.Tcp.Client.{tcp_connect, tcp_send_data, tcp_receive_data, tcp_disconnect}
use avr_net_enc28j.Http.State.{HttpConfig, Http, response_waiting, state_end_message}
use avr_net_enc28j.Http.Value.{text_length}
use avr_net_enc28j.Http.Response.{http_failed_response, http_parse_response}
use avr_net_enc28j.Http.Text.{
  snprintf, strlen, content_length_row, header_row_break, version_text, connect_failed_text,
  request_failed_text, response_failed_text,
}
use avr_net_enc28j.Http.Send.{HttpApp, on_http, set_http, content_length_row_bound}

-- What `HttpSendRequest` is asked for. The pointers are read when they are used.
pub record Request (N U : Type 0) : Type 0 where
  pub ip : Mem
  pub port : ℕ
  pub connection_timeout : ℕ
  pub request_timeout : ℕ
  pub method : List ℕ
  pub url : Mem
  pub url_length : ℕ
  pub headers : Net N (HttpApp U) → Mem
  pub headers_length : ℕ
  pub body : Net N (HttpApp U) → Mem
  pub body_length : ℕ

-- The first row of a request, by `CharsCat`, and its length.
unfoldable pub request_row : List ℕ → Mem → ℕ → Mem → Mem × ℕ
request_row method url url_length buffer =
    let (buffer, length) = chars_cat buffer 0 (bytes method) (text_length method) in
    let (buffer, length) = chars_cat buffer length (bytes (b' ' ∷ [])) 1 in
    let (buffer, length) = chars_cat buffer length url url_length in
    let (buffer, length) = chars_cat buffer length (bytes (b' ' ∷ [])) 1 in
    chars_cat buffer length (bytes (version_text ++ header_row_break))
      (8 + text_length header_row_break)

-- The bound on the length of the first row, in an `unsigned short`.
abbrev pub request_row_bound : List ℕ → ℕ → ℕ
request_row_bound method url_length =
    (8 + 2 + text_length method + url_length + text_length header_row_break) % 65536

module _ {N U : Type 0} (env : Env N (HttpApp U)) (c : HttpConfig)
    (h : Handlers N (HttpApp U)) where
  -- `TcpDisconnect(incomingResponseConnectionId, 5000)`, which is then invalid.
  unfoldable pub end_connection : M N (HttpApp U) (Unit {0})
  end_connection s =
      (tcp_disconnect env h s.app.http.response_connection_id 5000 >>= λ done.
      on_http (λ g. record g { response_connection_id = tcp_invalid_connection_id }))
        s

  -- The response that came in, or else a failed one with this message.
  unfoldable pub result_or : List ℕ → M N (HttpApp U) (Unit {0})
  result_or message =
      on_http
        (λ g. if g.response_state == state_end_message then g else http_failed_response c message g)

  -- `TcpSendData`, and the return where it fails.
  unfoldable pub send_or_fail :
      (Net N (HttpApp U) → Mem) → ℕ → M N (HttpApp U) (Unit {0}) → M N (HttpApp U) (Unit {0})
  send_or_fail payload length next s =
      (tcp_send_data env h s.app.http.response_connection_id 60000 payload length >>= λ sent.
      if sent then next else end_connection >> result_or request_failed_text)
        s

  -- The loop that reads the response; `patience` is the fuel of each `TcpReceiveData`.
  unfoldable pub read_response_from : ℕ → ℕ → ℕ → M N (HttpApp U) (Unit {0})
  read_response_from patience zero timeout s = none
  read_response_from patience (suc fuel) timeout s =
      let g = s.app.http in
      let timeout' = if not (g.response_state == response_waiting) then 60000 else timeout in
      let rest = read_response_from patience fuel timeout' in
      if g.response_state == state_end_message
      then some (tt, s)
      else (tcp_receive_data env h g.response_connection_id timeout' patience >>= λ received.
            elim received [
              | none ↦ pure tt
              | some (position, length) ↦ λ s'.
                  let (done, g') =
                    http_parse_response c (offset s'.buffer position) length s'.app.http in
                  let s'' = set_http (λ old. g') s' in if done then rest s'' else some (tt, s'')
            ])
          s

  -- `HttpSendRequest` behind its first row.
  unfoldable pub send_rest : ℕ → ℕ → Request N U → M N (HttpApp U) (Unit {0})
  send_rest patience fuel r =
      let read =
        read_response_from patience fuel r.request_timeout
        >> end_connection
        >> result_or response_failed_text in
      let last =
        on_http (λ g. record g {
          status_message =
              snprintf g.status_message c.max_status_message_length
                (content_length_row r.body_length);
        })
        >> gets (λ s. strlen s.app.http.status_message c.max_status_message_length 0)
        >>= λ length.
            send_or_fail (λ s. s.app.http.status_message) length
              (if r.body_length == 0 then read else send_or_fail r.body r.body_length read) in
      if r.headers_length == 0 then last else send_or_fail r.headers r.headers_length last

  -- `HttpSendRequest` on a connection.
  unfoldable pub send_request : ℕ → ℕ → Request N U → M N (HttpApp U) (Unit {0})
  send_request patience fuel r =
      let failed = end_connection >> on_http (http_failed_response c request_failed_text) in
      if ltb c.max_status_message_length (request_row_bound r.method r.url_length)
      then failed
      else if ltb c.max_status_message_length content_length_row_bound
      then failed
      else on_http (λ g. record g {
        status_message = (request_row r.method r.url r.url_length g.status_message).0;
      })
        >> send_or_fail (λ s. s.app.http.status_message)
            (request_row r.method r.url r.url_length (λ i. 0)).1 (send_rest patience fuel r)

  unfoldable pub http_send_request : ℕ → ℕ → Request N U → M N (HttpApp U) (Unit {0})
  http_send_request patience fuel r =
      on_http (λ g. record g { response_state = response_waiting })
      >> tcp_connect env h r.ip r.port r.connection_timeout
      >>= λ id.
          on_http (λ g. record g { response_connection_id = id })
          >> (if id == tcp_invalid_connection_id
              then on_http (http_failed_response c connect_failed_text)
              else send_request patience fuel r)
