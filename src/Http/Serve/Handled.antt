-- ===== src/Http/Serve/Handled.antt =====
-- A whole request in one packet, through `HttpTcpOnIncomingData` of src/http.c to the application.
use avr_net_enc28j.Base.{
  ℕ, ◌+◌, ◌%◌, ◌≤◌, ◌<◌, ◌≡◌, refl, ◌∙◌, ap, true, false, ◌||◌, some, inl, inr, Option-cases, arith,
  List, [], ◌∷◌, ◌++◌, Mem, ltb, ◌==◌, if◌then◌else◌, offset, copy, copy_inside,
}
use avr_net_enc28j.Util.{sub16, parse_long}
use avr_net_enc28j.Net.{Net, Env, Handlers, ◌>>=◌, ◌>>◌}
use avr_net_enc28j.Http.State.{
  HttpConfig, Http, HttpMessage, http_message_put_data, request_start_request, request_handling,
  state_end_header,
}
use avr_net_enc28j.Http.Value.{text_length, starts_with, http_parse_header_value}
use avr_net_enc28j.Http.Text.{
  unsigned_text, is_text, get_text, head_text, options_text, content_length_row,
}
use avr_net_enc28j.Http.Response.{announced_length, content_length_text}
use avr_net_enc28j.Http.Rows.{Holds}
use avr_net_enc28j.Http.Request.Run.{every, is_url_byte}
use avr_net_enc28j.Http.Request.Whole.{request_line}
use avr_net_enc28j.Http.Send.{HttpApp, set_http}
use avr_net_enc28j.Http.Serve.{
  Server, http_tcp_on_incoming_data, request_header_from, read_request, read_request_body,
  handle_request, close_unanswered,
}
use avr_net_enc28j.Http.Serve.Requests.{request_header_from_request}

abbrev pub post_text : List ℕ
post_text = b'P' ∷ b'O' ∷ b'S' ∷ b'T' ∷ []

post_has_body :
    (m : Mem)
    → is_text post_text m ≡ true
    → (is_text head_text m || is_text get_text m || is_text options_text m) ≡ false
unfolding is_text starts_with
post_has_body m post = ground arith

announced_some :
    (c : HttpConfig) (m : HttpMessage) (n : ℕ)
    → announced_length c m ≡ n
    → 0 < n
    → (p : ℕ × ℕ) × (http_parse_header_value m (content_length_text c) ≡ some p)
      × (parse_long (offset m.headers p.0) p.1 ≡ some n)
unfolding announced_length
announced_some c m n e some_body =
    elim (Option-cases (http_parse_header_value m (content_length_text c))) [
      | inl missing ↦
          let zero_length : announced_length c m ≡ 0 = rw (announced_length, missing) refl in
          absurd (omega arith)
      | inr (p, found) ↦ elim (Option-cases (parse_long (offset m.headers p.0) p.1)) [
        | inl wrong ↦
            let zero_length : announced_length c m ≡ 0 = rw (announced_length, found, wrong) refl in
            absurd (omega arith)
        | inr (k, parsed) ↦
            let shape : announced_length c m ≡ (if ltb c.max_data_length k then 0 else k) =
              rw (announced_length, found, parsed) refl in
            let same : k ≡ n = ground (arith, shape) in (p, found, parsed ∙ ap some same)
      ]
    ]

module _ {N U : Type 0} (env : Env N (HttpApp U)) (server : Server N U)
    (h : Handlers N (HttpApp U)) where
  -- Where the loop over the header ends at its end.
  pub data_with_header :
      (id : ℕ) (payload : Mem) (length i : ℕ) (s : Net N (HttpApp U)) (g : Http)
      → (id == s.app.http.response_connection_id) ≡ false
      → id ≡ s.app.http.request_connection_id
      → s.app.http.request_state ≡ request_start_request
      → request_header_from env server h payload length 0 s ≡ some (some i, set_http (λ old. g) s)
      → g.request_state ≡ state_end_header
      → http_tcp_on_incoming_data env server h id payload length s
        ≡ read_request env server h id payload length i (set_http (λ old. g) s)
  unfolding http_tcp_on_incoming_data
  data_with_header id payload length i s g other ours start read end =
      let same : (id == s.app.http.request_connection_id) ≡ true = ground arith in
      let some_request : (s.app.http.request_state == 0) ≡ false = rw start refl in
      let in_header : ltb s.app.http.request_state 10 ≡ true = rw start refl in
      let at_end : (g.request_state == 10) ≡ true = rw end refl in
      rw (other, same, some_request, in_header, ◌>>=◌, read, at_end) refl

  -- A request with its body, which arrives in the same packet.
  body_request :
      (id : ℕ) (payload : Mem) (i n : ℕ) (s : Net N (HttpApp U)) (g : Http)
      → g.request_state ≡ state_end_header
      → is_text post_text g.method ≡ true
      → g.message.data_length ≡ 0
      → announced_length server.http_config g.message ≡ n
      → 0 < n
      → n < 256
      → n ≤ server.http_config.max_data_length
      → i + n < 65536
      → let m = http_message_put_data payload (i + n) i g.message in
        (read_request env server h id payload (i + n) i (set_http (λ old. g) s)
          ≡ (server.http_on_incoming_request h >> close_unanswered env server h id)
              (set_http (λ old. record g { message = m; request_state = request_handling }) s))
        × (m.data_length ≡ n)
        × ((j : ℕ) → j < n → m.body j ≡ payload (i + j))
  unfolding read_request read_request_body handle_request http_message_put_data
  body_request id payload i n s g end post no_body announced some_body small fits whole =
      let m = http_message_put_data payload (i + n) i g.message in
      let ((value, length), found, parsed) =
        announced_some server.http_config g.message n announced some_body in
      let before_end : ltb g.request_state 11 ≡ true = rw end refl in
      let some_length : (i + n == 0) ≡ false = ground arith in
      let left : sub16 (i + n) i ≡ n = omega arith in
      let total : (g.message.data_length + n) % 256 ≡ n = omega (arith, no_body) in
      let same : (n == n) ≡ true = ground arith in
      let allowed : ltb server.http_config.max_data_length n ≡ false = ground arith in
      (
        rw
            (
              before_end,
              ◌>>=◌,
              post_has_body g.method post,
              found,
              parsed,
              allowed,
              some_length,
              left,
              total,
              same,
            )
            refl,
        rw (some_length, left, total) refl,
        λ j l.
            let there : j ≡ 0 + j = omega arith in
            rw (some_length, left, no_body)
              (ap (copy g.message.body 0 (offset payload i) n) there
                ∙ copy_inside g.message.body 0 (offset payload i) n j l),
      )

  -- An HTTP/1.0 POST request as this library's client writes it, whose only header row is
  -- `Content-Length`, with a body of 1 to 255 bytes, in one packet on the connection whose request is
  -- awaited, is handed to the application with its method, its URL and its body, in the state that
  -- allows an answer, and the connection is closed if no answer was sent. The URL has at most 255 bytes,
  -- none a space, and the URL, the body and the row that says its length are within the limits of the
  -- settings; the packet has fewer than 65536 bytes.
  pub post_is_handled :
      (id : ℕ) (url : List ℕ) (n : ℕ) (payload : Mem) (s : Net N (HttpApp U))
      → let c = server.http_config in
        let request = request_line post_text url ++ content_length_row n in
        every is_url_byte url ≡ true
        → text_length url ≤ c.max_url_length
        → text_length url ≤ 255
        → 0 < n
        → n < 256
        → n ≤ c.max_data_length
        → 18 + text_length (unsigned_text n) ≤ c.max_header_rows_length
        → text_length request + n < 65536
        → (id == s.app.http.response_connection_id) ≡ false
        → id ≡ s.app.http.request_connection_id
        → s.app.http.request_state ≡ request_start_request
        → Holds request payload 0
        → (g : Http) × (http_tcp_on_incoming_data env server h id payload
              (text_length request + n)
              s
            ≡ (server.http_on_incoming_request h >> close_unanswered env server h id)
                (set_http (λ old. g) s))
          × (g.request_state ≡ request_handling)
          × (is_text post_text g.method ≡ true)
          × Holds url g.url 0
          × (g.url_length ≡ text_length url)
          × (g.message.data_length ≡ n)
          × ((j : ℕ) → j < n → g.message.body j ≡ payload (text_length request + j))
  unfolding every
  post_is_handled id url n payload s good fits small some_body number body room whole other ours
        start held =
      let request = request_line post_text url ++ content_length_row n in
      let (g, read, end, post, path, path_length, no_body, announced) =
        request_header_from_request env server h post_text url n payload n s refl (omega arith) good
          fits small (omega arith) body room start held in
      let (handled, body_length, body_held) =
        body_request id payload (text_length request) n s g end post no_body announced some_body
          number body whole in
      (
        record g {
          message =
              http_message_put_data payload (text_length request + n) (text_length request)
                g.message;
          request_state = request_handling;
        },
        data_with_header id payload (text_length request + n) (text_length request) s g other ours
              start read end
            ∙ handled,
        refl,
        post,
        path,
        path_length,
        body_length,
        body_held,
      )
