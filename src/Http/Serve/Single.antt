-- ===== src/Http/Serve/Single.antt =====
-- The callbacks of src/http.c serve one request at a time.
use avr_net_enc28j.Base.{
  ℕ, ◌<◌, ◌≡◌, ◌≢◌, ◌↔◌, refl, sym, ◌∙◌, Bool, true, false, not, ◌&&◌, Option, none, some, inl, inr,
  arith, leb, ◌==◌, if◌then◌else◌, Bool-cases,
}
use avr_net_enc28j.Net.{Net, Env, Handlers, net_handle_result_drop}
use avr_net_enc28j.Tcp.Table.{tcp_invalid_connection_id}
use avr_net_enc28j.Http.State.{
  HttpConfig, Http, http_init, request_no_request, request_start_request, request_method,
  request_url, state_version, state_linux_end_header, state_header,
}
use avr_net_enc28j.Http.Header.{http_parse_header}
use avr_net_enc28j.Http.Header.Bounds.{header_state}
use avr_net_enc28j.Http.Request.{
  Outcome, parse_method, parse_url, parse_request_version, parse_request_rows, parse_request_part,
  http_parse_request_header,
}
use avr_net_enc28j.Http.Send.{HttpApp, set_http}
use avr_net_enc28j.Http.Serve.{Server, http_tcp_on_new_connection, http_tcp_on_disconnect}

-- The request goes on, for the same connection.
record GoesOn (g g' : Http) : Type 0 where
  pub same : g'.request_connection_id ≡ g.request_connection_id
  pub busy : g'.request_state ≢ 0

module _ (c : HttpConfig) (ch : ℕ) where
  if-GoesOn :
      (g : Http) (b : Bool) (x y : Outcome)
      → (b ≡ true → GoesOn g x.1)
      → (b ≡ false → GoesOn g y.1)
      → GoesOn g (if b then x else y).1
  if-GoesOn g true x y hx hy = hx refl
  if-GoesOn g false x y hx hy = hy refl

  parse_method-GoesOn : (g : Http) → g.request_state ≢ 0 → GoesOn g (parse_method c ch g).1
  unfolding parse_method
  parse_method-GoesOn g busy = record { same = ground arith; busy = λ e. ground arith }

  parse_url-GoesOn : (g : Http) → g.request_state ≢ 0 → GoesOn g (parse_url c ch g).1
  unfolding parse_url
  parse_url-GoesOn g busy = record { same = ground arith; busy = λ e. ground arith }

  parse_request_version-GoesOn :
      (g : Http) → g.request_state ≢ 0 → GoesOn g (parse_request_version c ch g).1
  unfolding parse_request_version
  parse_request_version-GoesOn g busy = record { same = ground arith; busy = λ e. ground arith }

  parse_request_rows-GoesOn :
      (g : Http)
      → (leb state_linux_end_header g.request_state && leb g.request_state state_header) ≡ true
      → GoesOn g (parse_request_rows c ch g).1
  unfolding parse_request_rows
  parse_request_rows-GoesOn g e =
      let later = header_state c ch g.message g.request_state (ground arith) in
      let p = http_parse_header c ch g.message g.request_state in
      let on : GoesOn g (record g { message = p.message; request_state = p.state }) = record {
        same = refl;
        busy = λ z. omega (arith, later);
      } in
      if-GoesOn g p.success _ _ (λ t. on) (λ t. on)

  parse_request_part-GoesOn :
      (g : Http) → g.request_state ≢ 0 → GoesOn g (parse_request_part c ch g).1
  unfolding parse_request_part
  parse_request_part-GoesOn g busy =
      if-GoesOn g (g.request_state == request_method) _ _ (λ a. parse_method-GoesOn g busy)
        λ a.
          if-GoesOn g (g.request_state == request_url) _ _ (λ b. parse_url-GoesOn g busy)
            λ b.
              if-GoesOn g (g.request_state == state_version) _ _
                (λ d. parse_request_version-GoesOn g busy)
                λ d.
                  if-GoesOn g
                    (leb state_linux_end_header g.request_state && leb g.request_state state_header)
                    _ _ (parse_request_rows-GoesOn g) (λ e. record { same = refl; busy = busy })

  http_parse_request_header-GoesOn :
      (g : Http) → g.request_state ≢ 0 → GoesOn g (http_parse_request_header c ch g).1
  unfolding http_parse_request_header
  http_parse_request_header-GoesOn g busy =
      elim (Bool-cases (g.request_state == request_start_request)) [
        | inr e ↦ rw e (parse_request_part-GoesOn g busy)
        | inl e ↦
            let started : Http = record g { request_state = request_method; url_length = 0 } in
            let r = parse_request_part-GoesOn started (λ z. omega (arith, z)) in
            rw e (record { same = r.same; busy = r.busy })
      ]

-- A connection has a request under way exactly if there is one under way.
abbrev pub IsSingle : Http → Type 0
IsSingle g =
    (g.request_connection_id ≡ tcp_invalid_connection_id) ↔ (g.request_state ≡ request_no_request)

module _ {N U : Type 0} (env : Env N (HttpApp U)) (server : Server N U) where
  -- The states that the start, new and closed connections, and the bytes of headers lead to.
  pub data Reaches : Net N (HttpApp U) → Type 0 where
    begin : (s : Net N (HttpApp U)) → Reaches (set_http http_init s)
    opened :
        (h : Handlers N (HttpApp U)) (id result : ℕ) (s s' : Net N (HttpApp U))
        → Reaches s
        → id < tcp_invalid_connection_id
        → http_tcp_on_new_connection env server h id s ≡ some (result, s')
        → Reaches s'
    closed :
        (h : Handlers N (HttpApp U)) (id : ℕ) (s s' : Net N (HttpApp U))
        → Reaches s
        → http_tcp_on_disconnect env server h id s ≡ some (tt, s')
        → Reaches s'
    read_byte :
        (ch : ℕ) (s : Net N (HttpApp U))
        → Reaches s
        → s.app.http.request_state ≢ request_no_request
        → Reaches (set_http (λ g. (http_parse_request_header server.http_config ch g).1) s)

  -- The state that a call leads to, if it comes back.
  LeadsTo : {R : Type 0} → (Net N (HttpApp U) → Type 0) → Option (R × Net N (HttpApp U)) → Type 0
  LeadsTo P none = Unit {0}
  LeadsTo P (some (r, s)) = P s

  abbrev Single : Net N (HttpApp U) → Type 0
  Single s = IsSingle s.app.http

  if-LeadsTo :
      {R : Type 0} (b : Bool) (x y : Option (R × Net N (HttpApp U)))
      → (b ≡ true → LeadsTo Single x)
      → (b ≡ false → LeadsTo Single y)
      → LeadsTo Single (if b then x else y)
  if-LeadsTo true x y hx hy = hx refl
  if-LeadsTo false x y hx hy = hy refl

  module _ (alone : server.http_tcp_included ≡ false) where
    new_connection-LeadsTo :
        (h : Handlers N (HttpApp U)) (id : ℕ) (s : Net N (HttpApp U))
        → Single s
        → id < tcp_invalid_connection_id
        → LeadsTo Single (http_tcp_on_new_connection env server h id s)
    unfolding http_tcp_on_new_connection LeadsTo
    new_connection-LeadsTo h id s single small =
        if-LeadsTo (not ((s.connections id).port == server.http_server_port)) _ _
          (λ e. rw alone single)
          λ e.
            if-LeadsTo (not (s.app.http.request_state == request_no_request)) _ _ (λ f. single)
              λ f. (λ z. absurd (omega (arith, z)), λ z. absurd (omega (arith, z)))

    disconnect-LeadsTo :
        (h : Handlers N (HttpApp U)) (id : ℕ) (s : Net N (HttpApp U))
        → Single s
        → LeadsTo Single (http_tcp_on_disconnect env server h id s)
    unfolding http_tcp_on_disconnect LeadsTo
    disconnect-LeadsTo h id s single =
        if-LeadsTo (id == s.app.http.response_connection_id) _ _ (λ e. single)
          λ e.
            if-LeadsTo (not (id == s.app.http.request_connection_id)) _ _ (λ f. rw alone single)
              λ f.
                if-LeadsTo (s.app.http.request_state == request_no_request) _ _ (λ g. single)
                  λ g. (λ z. refl, λ z. refl)

    Reaches-IsSingle : (s : Net N (HttpApp U)) → Reaches s → IsSingle s.app.http
    unfolding http_init LeadsTo
    Reaches-IsSingle _ (begin s) = (λ e. refl, λ e. refl)
    Reaches-IsSingle _ (opened h id result s s' r small e) =
        let all = new_connection-LeadsTo h id s (Reaches-IsSingle s r) small in rw e at all
    Reaches-IsSingle _ (closed h id s s' r e) =
        let all = disconnect-LeadsTo h id s (Reaches-IsSingle s r) in rw e at all
    Reaches-IsSingle _ (read_byte ch s r busy) =
        let on = http_parse_request_header-GoesOn server.http_config ch s.app.http busy in
        let single = Reaches-IsSingle s r in
        (λ e. absurd (busy (single.0 (sym on.same ∙ e))), λ e. absurd (on.busy e))

    -- One request is served at a time: in every state that the start, new and closed connections and
    -- the bytes of headers lead to, where a connection holds a request, one is under way, and any other
    -- connection to the server's port is dropped, with no change. The application has no callbacks of
    -- its own for TCP.
    pub http_serves_one :
        (s : Net N (HttpApp U)) (h : Handlers N (HttpApp U)) (id : ℕ)
        → Reaches s
        → s.app.http.request_connection_id ≢ tcp_invalid_connection_id
        → (s.connections id).port ≡ server.http_server_port
        → (s.app.http.request_state ≢ request_no_request)
          × (http_tcp_on_new_connection env server h id s ≡ some (net_handle_result_drop, s))
    unfolding http_tcp_on_new_connection
    http_serves_one s h id r held port =
        let single = Reaches-IsSingle s r in
        let ours : ((s.connections id).port == server.http_server_port) ≡ true = ground arith in
        let busy : s.app.http.request_state ≢ request_no_request = λ e. held (single.1 e) in
        let test : (s.app.http.request_state == request_no_request) ≡ false = ground arith in
        (busy, rw (ours, test) refl)
