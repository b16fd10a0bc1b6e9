-- ===== src/Http/Request/Run.antt =====
-- Runs of `HttpParseRequestHeader` of src/http.c over texts, part by part of a request.
use avr_net_enc28j.Base.{
  ℕ, suc, ◌+◌, ◌%◌, ◌≤◌, ◌<◌, ◌≡◌, refl, ◌∙◌, Bool, true, false, not, ◌&&◌, ◌||◌, Option, none,
  some, arith, List, [], ◌∷◌, ◌++◌, Mem, put, ltb, leb, ◌==◌, if◌then◌else◌,
}
use avr_net_enc28j.Util.{add16}
use avr_net_enc28j.Http.State.{
  HttpConfig, Http, http_headers_put_char, request_method, request_url, state_header,
  state_end_header, is_line_end,
}
use avr_net_enc28j.Http.Header.{http_parse_header, parse_linux_end, parse_win_end, parse_row}
use avr_net_enc28j.Http.Value.{text_length}
use avr_net_enc28j.Http.Request.{
  parse_method, parse_url, parse_request_rows, parse_request_part, http_parse_request_header,
}

-- The text in the memory from `i` on.
unfoldable pub put_text : Mem → ℕ → List ℕ → Mem
put_text m i [] = m
put_text m i (x ∷ xs) = put_text (put m i x) (i + 1) xs

abbrev pub is_upper : ℕ → Bool
is_upper x = not (ltb x b'A' || ltb b'Z' x)

abbrev pub is_url_byte : ℕ → Bool
is_url_byte x = not (x == b' ') && ltb x 256

abbrev pub is_row_byte : ℕ → Bool
is_row_byte x = not (is_line_end x) && ltb x 256

unfoldable pub every : (ℕ → Bool) → List ℕ → Bool
every p [] = true
every p (x ∷ xs) = p x && every p xs

-- The parser in the parts of a request.
abbrev pub in_method : Http → Mem → ℕ → Http
in_method g m i = record g { request_state = request_method; method = m; url_length = i }

abbrev pub in_url : Http → Mem → ℕ → Http
in_url g m i = record g { request_state = request_url; url = m; url_length = i }

abbrev pub in_rows : Http → ℕ → Mem → ℕ → Http
in_rows g state m i = record g {
  request_state = state;
  message = record (g.message) { headers = m; headers_lenght = i };
}

module _ (c : HttpConfig) where
  -- The parser after the text, if it takes all of it and the header does not end before.
  unfoldable pub run : List ℕ → Http → Option Http
  run [] g = some g
  run (x ∷ xs) g =
      let (fault, g') = http_parse_request_header c x g in
      let rest = run xs g' in
      elim fault [
        | some f ↦ none
        | none ↦
            if g'.request_state == state_end_header
            then elim xs [ [] ↦ some g' | y ∷ ys ↦ none ]
            else rest
      ]

  pub run_step :
      (x : ℕ) (xs : List ℕ) (g g' : Http)
      → http_parse_request_header c x g ≡ (none, g')
      → (g'.request_state == state_end_header) ≡ false
      → run (x ∷ xs) g ≡ run xs g'
  unfolding run
  run_step x xs g g' e going = rw (e, run, e, going) refl

  method_step :
      (x : ℕ) (g : Http) (m : Mem) (i : ℕ)
      → is_upper x ≡ true
      → i < 10
      → http_parse_request_header c x (in_method g m i) ≡ (none, in_method g (put m i x) (i + 1))
  unfolding http_parse_request_header parse_request_part parse_method
  method_step x g m i upper room =
      let space : (x == b' ') ≡ false = ground arith in
      let range : (ltb x b'A' || ltb b'Z' x) ≡ false = ground arith in
      let fits : leb 10 i ≡ false = ground arith in
      let next : (i + 1) % 256 ≡ i + 1 = omega arith in rw (space, range, fits, next) refl

  pub method_run :
      (xs rest : List ℕ) (g : Http) (m : Mem) (i : ℕ)
      → every is_upper xs ≡ true
      → i + text_length xs ≤ 10
      → run (xs ++ rest) (in_method g m i)
        ≡ run rest (in_method g (put_text m i xs) (i + text_length xs))
  unfolding every put_text
  method_run [] rest g m i upper room = let e : i + 0 ≡ i = omega arith in rw e refl
  method_run (x ∷ xs) rest g m i upper room =
      let e : i + suc (text_length xs) ≡ i + 1 + text_length xs = omega arith in
      run_step x (xs ++ rest) _ _ (method_step x g m i (ground arith) (omega arith)) refl
      ∙ method_run xs rest g (put m i x) (i + 1) (ground arith) (omega arith)
      ∙ rw e refl

  url_step :
      (x : ℕ) (g : Http) (m : Mem) (i : ℕ)
      → is_url_byte x ≡ true
      → i < c.max_url_length
      → i < 255
      → http_parse_request_header c x (in_url g m i) ≡ (none, in_url g (put m i x) (i + 1))
  unfolding http_parse_request_header parse_request_part parse_url
  url_step x g m i good room small =
      let space : (x == b' ') ≡ false = ground arith in
      let fits : leb c.max_url_length i ≡ false = ground arith in
      let next : (i + 1) % 256 ≡ i + 1 = omega arith in rw (space, fits, next) refl

  pub url_run :
      (xs rest : List ℕ) (g : Http) (m : Mem) (i : ℕ)
      → every is_url_byte xs ≡ true
      → i + text_length xs ≤ c.max_url_length
      → i + text_length xs ≤ 255
      → run (xs ++ rest) (in_url g m i) ≡ run rest (in_url g (put_text m i xs) (i + text_length xs))
  unfolding every put_text
  url_run [] rest g m i good room small = let e : i + 0 ≡ i = omega arith in rw e refl
  url_run (x ∷ xs) rest g m i good room small =
      let e : i + suc (text_length xs) ≡ i + 1 + text_length xs = omega arith in
      run_step x (xs ++ rest) _ _ (url_step x g m i (ground arith) (omega arith) (omega arith)) refl
      ∙ url_run xs rest g (put m i x) (i + 1) (ground arith) (omega arith) (omega arith)
      ∙ rw e refl

  row_step :
      (x : ℕ) (g : Http) (m : Mem) (i : ℕ)
      → is_row_byte x ≡ true
      → i < c.max_header_rows_length
      → i < 65535
      → http_parse_request_header c x (in_rows g state_header m i)
        ≡ (none, in_rows g state_header (put m i x) (i + 1))
  unfolding http_parse_request_header parse_request_part parse_request_rows http_parse_header
      parse_linux_end parse_win_end parse_row http_headers_put_char
  row_step x g m i good room small =
      let lf : (x == b'\n') ≡ false = ground arith in
      let cr : (x == b'\r') ≡ false = ground arith in
      let fits : leb c.max_header_rows_length i ≡ false = ground arith in
      let next : add16 i 1 ≡ i + 1 = omega arith in rw (lf, cr, fits, next) refl

  pub row_run :
      (xs rest : List ℕ) (g : Http) (m : Mem) (i : ℕ)
      → every is_row_byte xs ≡ true
      → i + text_length xs ≤ c.max_header_rows_length
      → i + text_length xs ≤ 65535
      → run (xs ++ rest) (in_rows g state_header m i)
        ≡ run rest (in_rows g state_header (put_text m i xs) (i + text_length xs))
  unfolding every put_text
  row_run [] rest g m i good room small = let e : i + 0 ≡ i = omega arith in rw e refl
  row_run (x ∷ xs) rest g m i good room small =
      let e : i + suc (text_length xs) ≡ i + 1 + text_length xs = omega arith in
      run_step x (xs ++ rest) _ _ (row_step x g m i (ground arith) (omega arith) (omega arith)) refl
      ∙ row_run xs rest g (put m i x) (i + 1) (ground arith) (omega arith) (omega arith)
      ∙ rw e refl
