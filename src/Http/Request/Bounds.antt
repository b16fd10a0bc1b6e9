-- ===== src/Http/Request/Bounds.antt =====
-- `HttpParseRequestHeader` of src/http.c writes inside its arrays.
use avr_net_enc28j.Base.{
  ℕ, ◌≤◌, ◌<◌, ◌≡◌, refl, Bool, true, false, ◌&&◌, inl, inr, arith, put, leb, ◌==◌, if◌then◌else◌,
  Bool-cases,
}
use avr_net_enc28j.Http.State.{
  HttpConfig, Http, max_method_length, request_start_request, request_method, request_url,
  state_version, state_linux_end_header, state_header,
}
use avr_net_enc28j.Http.Header.{http_parse_header}
use avr_net_enc28j.Http.Request.{
  Outcome, parse_method, parse_url, parse_request_version, parse_request_rows, parse_request_part,
  http_parse_request_header,
}
use avr_net_enc28j.Http.Header.Bounds.{http_parse_header-RowsKept, header_state}

-- The greatest length of the text read in a state: the method's, in its state, or the URL's.
abbrev pub text_limit : HttpConfig → ℕ → ℕ
text_limit c state = if state == request_method then max_method_length else c.max_url_length

-- The lengths of the parser fit its arrays.
pub record IsInBounds (c : HttpConfig) (g : Http) : Type 0 where
  pub rows : g.message.headers_lenght ≤ c.max_header_rows_length
  pub text : g.url_length ≤ text_limit c g.request_state

-- `g'` comes from `g` by writes inside the arrays, and its lengths fit them.
pub record Stays (c : HttpConfig) (g g' : Http) : Type 0 where
  pub in_bounds : IsInBounds c g'
  pub method : (j : ℕ) → max_method_length < j → g'.method j ≡ g.method j
  pub url : (j : ℕ) → c.max_url_length ≤ j → g'.url j ≡ g.url j
  pub headers : (j : ℕ) → c.max_header_rows_length < j → g'.message.headers j ≡ g.message.headers j

module _ (c : HttpConfig) (ch : ℕ) (rows_small : c.max_header_rows_length < 65535)
    (url_small : c.max_url_length < 256) where
  if-Stays :
      (g : Http) (b : Bool) (x y : Outcome)
      → (b ≡ true → Stays c g x.1)
      → (b ≡ false → Stays c g y.1)
      → Stays c g (if b then x else y).1
  if-Stays g true x y hx hy = hx refl
  if-Stays g false x y hx hy = hy refl

  same-Stays : (g : Http) → IsInBounds c g → Stays c g g
  same-Stays g h = record {
    in_bounds = h;
    method = λ j l. refl;
    url = λ j l. refl;
    headers = λ j l. refl;
  }

  parse_method-Stays :
      (g : Http)
      → IsInBounds c g
      → (g.request_state == request_method) ≡ true
      → Stays c g (parse_method c ch g).1
  unfolding parse_method put
  parse_method-Stays g h e = record {
    in_bounds = record { rows = ground (arith, h.rows); text = ground (arith, h.text) };
    method = λ j l. ground (arith, h.text);
    url = λ j l. ground arith;
    headers = λ j l. ground arith;
  }

  parse_url-Stays :
      (g : Http)
      → IsInBounds c g
      → (g.request_state == request_url) ≡ true
      → Stays c g (parse_url c ch g).1
  unfolding parse_url put
  parse_url-Stays g h e = record {
    in_bounds = record { rows = ground (arith, h.rows); text = ground (arith, h.text) };
    method = λ j l. ground arith;
    url = λ j l. ground (arith, h.text);
    headers = λ j l. ground arith;
  }

  parse_request_version-Stays :
      (g : Http)
      → IsInBounds c g
      → (g.request_state == state_version) ≡ true
      → Stays c g (parse_request_version c ch g).1
  unfolding parse_request_version
  parse_request_version-Stays g h e = record {
    in_bounds = record { rows = ground (arith, h.rows); text = ground (arith, h.text) };
    method = λ j l. ground arith;
    url = λ j l. ground arith;
    headers = λ j l. ground arith;
  }

  parse_request_rows-Stays :
      (g : Http)
      → IsInBounds c g
      → (leb state_linux_end_header g.request_state && leb g.request_state state_header) ≡ true
      → Stays c g (parse_request_rows c ch g).1
  unfolding parse_request_rows
  parse_request_rows-Stays g h e =
      let kept = http_parse_header-RowsKept c ch g.message rows_small h.rows g.request_state in
      let later = header_state c ch g.message g.request_state (ground arith) in
      let p = http_parse_header c ch g.message g.request_state in
      let stays : Stays c g (record g { message = p.message; request_state = p.state }) = record {
        in_bounds = record { rows = kept.length; text = ground (arith, h.text) };
        method = λ j l. refl;
        url = λ j l. refl;
        headers = kept.behind;
      } in
      if-Stays g p.success _ _ (λ t. stays) (λ t. stays)

  parse_request_part-Stays : (g : Http) → IsInBounds c g → Stays c g (parse_request_part c ch g).1
  unfolding parse_request_part
  parse_request_part-Stays g h =
      if-Stays g (g.request_state == request_method) _ _ (parse_method-Stays g h) λ a.
        if-Stays g (g.request_state == request_url) _ _ (parse_url-Stays g h) λ b.
          if-Stays g (g.request_state == state_version) _ _ (parse_request_version-Stays g h) λ d.
            if-Stays g
              (leb state_linux_end_header g.request_state && leb g.request_state state_header) _ _
              (parse_request_rows-Stays g h) (λ e. same-Stays g h)

  -- Whatever byte of a request arrives, the parser writes inside the arrays of the method, the URL
  -- and the header rows, and its lengths still fit them. The settings fit the widths of the
  -- lengths: the URL has at most 255 bytes, the rows fewer than 65535.
  pub http_parse_request_header-Stays :
      (g : Http) → IsInBounds c g → Stays c g (http_parse_request_header c ch g).1
  unfolding http_parse_request_header
  http_parse_request_header-Stays g h =
      elim (Bool-cases (g.request_state == request_start_request)) [
        | inr e ↦ rw e (parse_request_part-Stays g h)
        | inl e ↦
            let started : Http = record g { request_state = request_method; url_length = 0 } in
            let r =
              parse_request_part-Stays started (record { rows = h.rows; text = omega arith }) in
            rw e (record {
              in_bounds = r.in_bounds;
              method = r.method;
              url = r.url;
              headers = r.headers;
            })
      ]
