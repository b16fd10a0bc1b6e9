-- ===== src/Http/Request/Whole.antt =====
-- A whole header of a request of src/http.c, as `HttpSendRequest` sends it, through the parser.
use avr_net_enc28j.Base.{
  ℕ, ◌+◌, ◌≤◌, ◌<◌, ◌≡◌, ◌⊎◌, inl, inr, refl, ◌∙◌, ap, true, false, none, some, arith, append_assoc,
  List, [], ◌∷◌, ◌++◌, Mem, put, leb, ◌==◌,
}
use avr_net_enc28j.Util.{add16}
use avr_net_enc28j.Http.State.{
  HttpConfig, Http, http_headers_put_char, request_start_request, state_version,
  state_mac_end_header, state_win_end_header, state_header, state_end_header,
}
use avr_net_enc28j.Http.Header.{
  http_parse_header, parse_linux_end, parse_win_end, parse_row, end_header,
}
use avr_net_enc28j.Http.Value.{text_length}
use avr_net_enc28j.Http.Text.{unsigned_text, version_text, header_row_break, content_length_row}
use avr_net_enc28j.Http.Request.{
  parse_method, parse_url, parse_request_version, parse_request_rows, parse_request_part,
  http_parse_request_header,
}
use avr_net_enc28j.Http.Request.Run.{
  put_text, every, is_upper, is_url_byte, in_method, in_url, in_rows, run, run_step, method_run,
  url_run, row_run,
}
use avr_net_enc28j.Http.Rows.{digits_length}
use avr_net_enc28j.Http.Request.Texts.{digits_are_row_bytes}

-- The first row of a request.
unfoldable pub request_line : List ℕ → List ℕ → List ℕ
request_line method url = method ++ (b' ' ∷ (url ++ (b' ' ∷ (version_text ++ header_row_break))))

-- The name of the row that says the length.
abbrev pub length_name : List ℕ
length_name =
    b'C' ∷ b'o' ∷ b'n' ∷ b't' ∷ b'e' ∷ b'n' ∷ b't' ∷ b'-' ∷ b'L' ∷ b'e' ∷ b'n' ∷ b'g' ∷ b't' ∷ b'h'
    ∷ b':' ∷ b' ' ∷ []

module _ (c : HttpConfig) where
  run_start :
      (method rest : List ℕ) (g : Http)
      → g.request_state ≡ request_start_request
      → run c (method ++ (b' ' ∷ rest)) g ≡ run c (method ++ (b' ' ∷ rest)) (in_method g g.method 0)
  unfolding run http_parse_request_header
  run_start [] rest g start = rw start refl
  run_start (x ∷ xs) rest g start = rw start refl

  -- The space behind the method, and that behind the URL.
  method_end :
      (rest : List ℕ) (g : Http) (m : Mem) (i : ℕ)
      → run c (b' ' ∷ rest) (in_method g m i)
        ≡ run c rest (in_url (record g { method = put m i 0 }) g.url 0)
  unfolding run http_parse_request_header parse_request_part parse_method
  method_end rest g m i = refl

  url_end :
      (rest : List ℕ) (g : Http) (m : Mem) (i : ℕ)
      → run c (b' ' ∷ rest) (in_url g m i)
        ≡ run c rest (record (in_url g m i) { request_state = state_version })
  unfolding run http_parse_request_header parse_request_part parse_url
  url_end rest g m i = refl

  version_run :
      (rest : List ℕ) (g : Http)
      → run c
          (version_text ++ (header_row_break ++ rest))
          (record g { request_state = state_version })
        ≡ run c rest (in_rows g state_win_end_header g.message.headers 0)
  unfolding run http_parse_request_header parse_request_part parse_request_version
      parse_request_rows http_parse_header http_headers_put_char
  version_run rest g = refl

  -- Behind the first row the next one begins as behind any other.
  first_row :
      (rest : List ℕ) (g : Http)
      → run c (length_name ++ rest) (in_rows g state_win_end_header g.message.headers 0)
        ≡ run c (length_name ++ rest) (in_rows g state_header g.message.headers 0)
  unfolding run http_parse_request_header parse_request_part parse_request_rows http_parse_header
      parse_linux_end parse_win_end parse_row
  first_row rest g = refl

  -- A row break behind a row.
  break_step :
      (x state next : ℕ) (g : Http) (m : Mem) (i : ℕ)
      → (state ≡ state_header) × (x ≡ b'\r') × (next ≡ state_mac_end_header)
        ⊎ (state ≡ state_mac_end_header) × (x ≡ b'\n') × (next ≡ state_win_end_header)
      → 0 < i
      → i < c.max_header_rows_length
      → i < 65535
      → http_parse_request_header c x (in_rows g state m i)
        ≡ (none, in_rows g next (put m i x) (i + 1))
  unfolding http_parse_request_header parse_request_part parse_request_rows http_parse_header
      parse_linux_end parse_win_end parse_row http_headers_put_char
  break_step x state next g m i which some_row room small =
      let fits : leb c.max_header_rows_length i ≡ false = ground arith in
      let one : add16 i 1 ≡ i + 1 = omega arith in
      let begun : (i == 0) ≡ false = ground arith in
      elim which [
        | inl (s, e, n) ↦ rw (s, e, n, begun, fits, one) refl
        | inr (s, e, n) ↦ rw (s, e, n, begun, fits, one) refl
      ]

  last_break :
      (g : Http) (m : Mem) (i : ℕ)
      → run c header_row_break (in_rows g state_win_end_header m i)
        ≡ some (
            let g' = in_rows g state_end_header (put m i 0) i in
            record g' { message = record (g'.message) { data_length = 0 } })
  unfolding run http_parse_request_header parse_request_part parse_request_rows http_parse_header
      parse_linux_end parse_win_end end_header
  last_break g m i = refl

  -- The two row breaks at the end of the header.
  rows_end :
      (g : Http) (m : Mem) (i : ℕ)
      → 0 < i
      → i + 2 ≤ c.max_header_rows_length
      → i + 2 ≤ 65535
      → run c (header_row_break ++ header_row_break) (in_rows g state_header m i)
        ≡ some (
            let g' =
              in_rows g state_end_header
                (put (put (put m i b'\r') (i + 1) b'\n') (i + 2) 0)
                (i + 2) in
            record g' { message = record (g'.message) { data_length = 0 } })
  rows_end g m i some_row room small =
      run_step c b'\r' _ _ _
        (break_step b'\r' state_header state_mac_end_header g m i (inl (refl, refl, refl)) some_row
          (omega arith) (omega arith))
        refl
      ∙ run_step c b'\n' _ _ _
          (break_step b'\n' state_mac_end_header state_win_end_header g (put m i b'\r') (i + 1)
            (inr (refl, refl, refl)) (omega arith) (omega arith) (omega arith))
          refl
      ∙ (let e : i + 1 + 1 ≡ i + 2 = omega arith in
          rw e (last_break g (put (put m i b'\r') (i + 1) b'\n') (i + 2)))

  -- The length of the name of the row, and the number.
  rows_run :
      (n : ℕ) (g : Http)
      → 18 + text_length (unsigned_text n) ≤ c.max_header_rows_length
      → run c (content_length_row n) (in_rows g state_win_end_header g.message.headers 0)
        ≡ some (
            let i = 16 + text_length (unsigned_text n) in
            let m = put_text (put_text g.message.headers 0 length_name) 16 (unsigned_text n) in
            let g' =
              in_rows g state_end_header
                (put (put (put m i b'\r') (i + 1) b'\n') (i + 2) 0)
                (i + 2) in
            record g' { message = record (g'.message) { data_length = 0 } })
  unfolding content_length_row every
  rows_run n g room =
      let number = unsigned_text n in
      let few = digits_length 5 n in
      let named = put_text g.message.headers 0 length_name in
      first_row ((number ++ header_row_break) ++ header_row_break) g
      ∙ row_run c length_name ((number ++ header_row_break) ++ header_row_break) g g.message.headers
          0 refl (omega arith) (omega arith)
      ∙ ap (λ t. run c t (in_rows g state_header named 16))
          (append_assoc number header_row_break header_row_break)
      ∙ row_run c number (header_row_break ++ header_row_break) g named 16
          (digits_are_row_bytes 5 n) (omega arith) (omega arith)
      ∙ rows_end g (put_text named 16 number) (16 + text_length number) (omega arith) (omega arith)
          (omega arith)

  -- What the parser has of a request whose header says the length.
  abbrev pub parsed_request : List ℕ → List ℕ → ℕ → Http → Http
  parsed_request method url n g =
      let i = 16 + text_length (unsigned_text n) in
      let m = put_text (put_text g.message.headers 0 length_name) 16 (unsigned_text n) in
      let m = put (put (put m i b'\r') (i + 1) b'\n') (i + 2) 0 in
      record g {
        request_state = state_end_header;
        method = put (put_text g.method 0 method) (text_length method) 0;
        url = put_text g.url 0 url;
        url_length = text_length url;
        message = record (g.message) { headers = m; headers_lenght = i + 2; data_length = 0 };
      }

  pub request_run :
      (method url : List ℕ) (n : ℕ) (g : Http)
      → every is_upper method ≡ true
      → text_length method ≤ 10
      → every is_url_byte url ≡ true
      → text_length url ≤ c.max_url_length
      → text_length url ≤ 255
      → 18 + text_length (unsigned_text n) ≤ c.max_header_rows_length
      → g.request_state ≡ request_start_request
      → run c (request_line method url ++ content_length_row n) g
        ≡ some (parsed_request method url n g)
  unfolding request_line
  request_run method url n g upper short good fits small room start =
      let rows = content_length_row n in
      let line = version_text ++ header_row_break in
      let behind = version_text ++ (header_row_break ++ rows) in
      let url' = λ (t : List ℕ). url ++ (b' ' ∷ t) in
      let shape : request_line method url ++ rows ≡ method ++ (b' ' ∷ (url ++ (b' ' ∷ behind))) =
        append_assoc method _ rows
        ∙ ap (λ t. method ++ (b' ' ∷ t)) (append_assoc url (b' ' ∷ line) rows) in
      let none_before : (xs : List ℕ) → 0 + text_length xs ≡ text_length xs = λ xs. omega arith in
      let g1 = record g { method = put (put_text g.method 0 method) (text_length method) 0 } in
      let g2 = in_url g1 (put_text g.url 0 url) (text_length url) in
      let named =
        method_run c method (b' ' ∷ (url ++ (b' ' ∷ behind))) g g.method 0 upper (omega arith) in
      let located = url_run c url (b' ' ∷ behind) g1 g.url 0 good (omega arith) (omega arith) in
      ap (λ t. run c t g) shape
      ∙ run_start method (url ++ (b' ' ∷ behind)) g start
      ∙ rw (none_before method) at named
      ∙ method_end (url ++ (b' ' ∷ behind)) g (put_text g.method 0 method) (text_length method)
      ∙ rw (none_before url) at located
      ∙ url_end behind g1 (put_text g.url 0 url) (text_length url)
      ∙ version_run rows g2
      ∙ rows_run n g2 room
