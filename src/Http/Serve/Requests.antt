-- ===== src/Http/Serve/Requests.antt =====
-- The loop of `HttpTcpOnIncomingData` of src/http.c over the header of a request that
-- `HttpSendRequest` sends.
use avr_net_enc28j.Base.{
  ℕ, suc, ◌+◌, ◌≤◌, ◌<◌, ◌≡◌, refl, sym, ◌∙◌, ap, true, false, inl, inr, none, some, arith, List,
  [], ◌∷◌, ◌++◌, Mem, put, put_ne, put_self, ◌==◌, Bool-cases, Option-cases,
}
use avr_net_enc28j.Net.{Net, Env, Handlers}
use avr_net_enc28j.Http.State.{HttpConfig, Http, request_start_request, state_end_header}
use avr_net_enc28j.Http.Value.{text_length}
use avr_net_enc28j.Http.Request.{Fault, http_parse_request_header}
use avr_net_enc28j.Http.Response.{announced_length}
use avr_net_enc28j.Http.Text.{
  unsigned_text, header_row_break, length_row, is_text, content_length_row,
}
use avr_net_enc28j.Http.Rows.{Holds, text_length-++}
use avr_net_enc28j.Http.Request.Run.{
  put_text, is_row_byte, run, run_step, every, is_upper, is_url_byte,
}
use avr_net_enc28j.Http.Request.Whole.{length_name, request_line, request_run, parsed_request}
use avr_net_enc28j.Http.Request.Texts.{
  Holds-agree, Holds-join, put_text_before, digits_are_row_bytes, is_byte, is_text_closed,
  every_imp, Holds-put_text,
}
use avr_net_enc28j.Http.Announced.{announced_length_row}
use avr_net_enc28j.Http.Send.{HttpApp, set_http}
use avr_net_enc28j.Http.Serve.{Server, request_header_from}

-- The row that says the length, in the memory of the header rows.
length_row_held :
    (n : ℕ) (before : Mem)
    → let i = 16 + text_length (unsigned_text n) in
      let m = put_text (put_text before 0 length_name) 16 (unsigned_text n) in
      Holds (length_row n) (put (put (put m i b'\r') (i + 1) b'\n') (i + 2) 0) 0
unfolding Holds every
length_row_held n before =
    let number = unsigned_text n in
    let i = 16 + text_length number in
    let named = put_text before 0 length_name in
    let m = put_text named 16 number in
    let m' = put (put (put m i b'\r') (i + 1) b'\n') (i + 2) 0 in
    let kept : (j : ℕ) → j < i → m' j ≡ m j = λ j l.
      put_ne _ (i + 2) 0 j (λ e. absurd (omega arith))
      ∙ put_ne _ (i + 1) b'\n' j (λ e. absurd (omega arith))
      ∙ put_ne m i b'\r' j (λ e. absurd (omega arith)) in
    let name =
      Holds-agree length_name named m' 0
        (λ j lo hi. kept j (omega arith) ∙ put_text_before number named 16 j (omega arith))
        (Holds-put_text length_name before 0 refl) in
    let digits =
      Holds-agree number m m' 16 (λ j lo hi. kept j (omega arith))
        (Holds-put_text number named 16 (
          every_imp is_row_byte is_byte number (λ x r. ground arith) (digits_are_row_bytes 5 n))) in
    let cr : m' i ≡ b'\r' =
      put_ne _ (i + 2) 0 i (λ e. absurd (omega arith))
      ∙ put_ne _ (i + 1) b'\n' i (λ e. absurd (omega arith))
      ∙ put_self m i b'\r' in
    let lf : m' (i + 1) ≡ b'\n' =
      put_ne _ (i + 2) 0 (i + 1) (λ e. absurd (omega arith))
      ∙ put_self (put m i b'\r') (i + 1) b'\n' in
    Holds-join length_name (number ++ header_row_break) m' 0 name
      (Holds-join number header_row_break m' 16 digits (cr, (lf, tt)))

run_fault :
    (c : HttpConfig) (x : ℕ) (xs : List ℕ) (g : Http) (f : Fault)
    → (http_parse_request_header c x g).0 ≡ some f
    → run c (x ∷ xs) g ≡ none
unfolding run
run_fault c x xs g f fault = rw (run, fault) refl

run_end :
    (c : HttpConfig) (x : ℕ) (xs : List ℕ) (g g' : Http)
    → (http_parse_request_header c x g).0 ≡ none
    → ((http_parse_request_header c x g).1.request_state == state_end_header) ≡ true
    → run c (x ∷ xs) g ≡ some g'
    → (xs ≡ []) × (some (http_parse_request_header c x g).1 ≡ some g')
unfolding run
run_end c x [] g g' fine ended e =
    let shape : run c (x ∷ []) g ≡ some (http_parse_request_header c x g).1 =
      rw (run, fine, ended) refl in
    (refl, sym shape ∙ e)
run_end c x (y ∷ ys) g g' fine ended e =
    let shape : run c (x ∷ y ∷ ys) g ≡ none = rw (run, fine, ended) refl in cc

module _ {N U : Type 0} (env : Env N (HttpApp U)) (server : Server N U)
    (h : Handlers N (HttpApp U)) where
  -- The loop ends behind the text that a run of the parser takes.
  header_run :
      (xs : List ℕ) (payload : Mem) (i extra : ℕ) (s : Net N (HttpApp U)) (g' : Http)
      → (s.app.http.request_state == state_end_header) ≡ false
      → (g'.request_state == state_end_header) ≡ true
      → run server.http_config xs s.app.http ≡ some g'
      → Holds xs payload i
      → request_header_from env server h payload (text_length xs + extra) i s
        ≡ some (some (i + text_length xs), set_http (λ old. g') s)
  unfolding run Holds request_header_from
  header_run [] payload i extra s g' before after e held = cc
  header_run (x ∷ xs) payload i extra s g' before after e (here, held) =
      let step = http_parse_request_header server.http_config x s.app.http in
      let left : suc (text_length xs) + extra ≡ suc (text_length xs + extra) = omega arith in
      elim (Option-cases step.0) [
        | inr (f, fault) ↦ let failed = run_fault server.http_config x xs s.app.http f fault in cc
        | inl fine ↦ elim (Bool-cases (step.1.request_state == state_end_header)) [
          | inl ended ↦
              let (last, same) = run_end server.http_config x xs s.app.http g' fine ended e in
              let there : i + 1 ≡ i + suc (text_length xs) = rw last (omega arith) in
              let agree : step.1 ≡ g' = cc in
              rw (left, request_header_from, here, fine, here, ended, there)
                (ap (λ g. some (some (i + suc (text_length xs)), set_http (λ old. g) s)) agree)
          | inr going ↦
              let whole : step ≡ (none, step.1) = ap (λ o. (o, step.1)) fine in
              let e' = sym (run_step server.http_config x xs s.app.http step.1 whole going) ∙ e in
              let rest =
                header_run xs payload (i + 1) extra (set_http (λ old. step.1) s) g' going after e'
                  held in
              let there : i + 1 + text_length xs ≡ i + suc (text_length xs) = omega arith in
              rw (left, request_header_from, here, fine, here, going, ← there) rest
        ]
      ]

  -- The header of a request, as the client of the library writes it (its first row, and the row that
  -- says the length of the body), is read to its end, where a request is awaited: the position is that
  -- of the body, the method and the URL are those sent, the body is empty so far, and the length read
  -- from the header is the one sent. The method is of at most 10 capital letters, the URL of at most
  -- 255 bytes without a space, and the URL, the length of the body, of 16 bits, and the row that says
  -- it are within the limits of the settings.
  pub request_header_from_request :
      (method url : List ℕ) (n : ℕ) (payload : Mem) (extra : ℕ) (s : Net N (HttpApp U))
      → let c = server.http_config in
        let request = request_line method url ++ content_length_row n in
        every is_upper method ≡ true
        → text_length method ≤ 10
        → every is_url_byte url ≡ true
        → text_length url ≤ c.max_url_length
        → text_length url ≤ 255
        → n < 65536
        → n ≤ c.max_data_length
        → 18 + text_length (unsigned_text n) ≤ c.max_header_rows_length
        → s.app.http.request_state ≡ request_start_request
        → Holds request payload 0
        → (g : Http) × (request_header_from env server h payload (text_length request + extra) 0 s
            ≡ some (some (text_length request), set_http (λ old. g) s))
          × (g.request_state ≡ state_end_header)
          × (is_text method g.method ≡ true)
          × Holds url g.url 0
          × (g.url_length ≡ text_length url)
          × (g.message.data_length ≡ 0)
          × (announced_length c g.message ≡ n)
  request_header_from_request method url n payload extra s upper short good fits small number body
        room start held =
      let c = server.http_config in
      let g = s.app.http in
      let request = request_line method url ++ content_length_row n in
      let none_before : 0 + text_length request ≡ text_length request = omega arith in
      let read =
        header_run request payload 0 extra s (parsed_request c method url n g) (rw start refl) refl
          (request_run c method url n g upper short good fits small room start) held in
      (
        parsed_request c method url n g,
        rw none_before at read,
        refl,
        is_text_closed method g.method
            (every_imp is_upper is_byte method (λ x u. ground arith) upper),
        Holds-put_text url g.url 0 (every_imp is_url_byte is_byte url (λ x u. ground arith) good),
        refl,
        refl,
        announced_length_row c _ n number body
            (omega (arith, text_length-++ (unsigned_text n) header_row_break))
            (length_row_held n g.message.headers),
      )
