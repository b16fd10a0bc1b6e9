-- ===== src/Http/Serve/Bodyless.antt =====
-- A request without a body, in one packet, through `HttpTcpOnIncomingData` of src/http.c.
use avr_net_enc28j.Base.{
  ℕ, ◌+◌, ◌≤◌, ◌<◌, ◌≡◌, refl, ◌∙◌, true, false, ◌||◌, arith, List, ◌++◌, Mem, ltb, ◌==◌,
}
use avr_net_enc28j.Net.{Net, Env, Handlers, ◌>>=◌, ◌>>◌}
use avr_net_enc28j.Http.State.{Http, request_start_request, request_handling, state_end_header}
use avr_net_enc28j.Http.Value.{text_length}
use avr_net_enc28j.Http.Text.{
  unsigned_text, is_text, get_text, head_text, options_text, content_length_row,
}
use avr_net_enc28j.Http.Rows.{Holds}
use avr_net_enc28j.Http.Request.Run.{every, is_url_byte}
use avr_net_enc28j.Http.Request.Whole.{request_line}
use avr_net_enc28j.Http.Send.{HttpApp, set_http}
use avr_net_enc28j.Http.Serve.{
  Server, http_tcp_on_incoming_data, read_request, read_request_body, handle_request,
  close_unanswered,
}
use avr_net_enc28j.Http.Serve.Requests.{request_header_from_request}
use avr_net_enc28j.Http.Serve.Handled.{data_with_header}

module _ {N U : Type 0} (env : Env N (HttpApp U)) (server : Server N U)
    (h : Handlers N (HttpApp U)) where
  -- A request without a body.
  bodyless_request :
      (id : ℕ) (payload : Mem) (length i : ℕ) (s : Net N (HttpApp U)) (g : Http)
      → g.request_state ≡ state_end_header
      → is_text get_text g.method ≡ true
      → read_request env server h id payload length i (set_http (λ old. g) s)
        ≡ (server.http_on_incoming_request h >> close_unanswered env server h id)
            (set_http (λ old. record g { request_state = request_handling }) s)
  unfolding read_request read_request_body handle_request
  bodyless_request id payload length i s g end get =
      let bodyless : (is_text head_text g.method
            || is_text get_text g.method
            || is_text options_text g.method)
          ≡ true =
        ground (arith, get) in
      let before_end : ltb g.request_state 11 ≡ true = rw end refl in
      rw (before_end, ◌>>=◌, bodyless) refl

  -- A request for a resource, alone in its packet, is handed to the application, in the state that
  -- allows an answer, with its method and its URL; the connection is closed if no answer was sent.
  pub get_is_handled :
      (id : ℕ) (url : List ℕ) (n : ℕ) (payload : Mem) (s : Net N (HttpApp U))
      → let c = server.http_config in
        let request = request_line get_text url ++ content_length_row n in
        every is_url_byte url ≡ true
        → text_length url ≤ c.max_url_length
        → text_length url ≤ 255
        → n < 65536
        → n ≤ c.max_data_length
        → 18 + text_length (unsigned_text n) ≤ c.max_header_rows_length
        → (id == s.app.http.response_connection_id) ≡ false
        → id ≡ s.app.http.request_connection_id
        → s.app.http.request_state ≡ request_start_request
        → Holds request payload 0
        → (g : Http) × (http_tcp_on_incoming_data env server h id payload (text_length request) s
            ≡ (server.http_on_incoming_request h >> close_unanswered env server h id)
                (set_http (λ old. g) s))
          × (g.request_state ≡ request_handling)
          × (is_text get_text g.method ≡ true)
          × Holds url g.url 0
          × (g.url_length ≡ text_length url)
  unfolding every
  get_is_handled id url n payload s good fits small number body room other ours start held =
      let request = request_line get_text url ++ content_length_row n in
      let (g, read, end, get, path, path_length, no_body, announced) =
        request_header_from_request env server h get_text url n payload 0 s refl (omega arith) good
          fits small number body room start held in
      let all : text_length request + 0 ≡ text_length request = omega arith in
      (
        record g { request_state = request_handling },
        data_with_header env server h id payload (text_length request) (text_length request) s g
              other ours start (rw all at read) end
            ∙ bodyless_request id payload (text_length request) (text_length request) s g end get,
        refl,
        get,
        path,
        path_length,
      )
