-- ===== src/Http/Text.antt =====
-- Texts of src/http.c: `snprintf` with `%u`, and the strings that it sends.
use avr_net_enc28j.Base.{
  ℕ, zero, suc, ◌+◌, ◌-◌, ◌/◌, ◌%◌, Bool, ◌&&◌, List, [], ◌∷◌, ◌++◌, Mem, put, copy, bytes, ltb,
  ◌==◌, if◌then◌else◌,
}
use avr_net_enc28j.Http.Value.{text_length, starts_with}

-- The unsigned_text digits of a number, of at most `fuel` many.
unfoldable pub digits : ℕ → ℕ → List ℕ
digits zero n = []
digits (suc fuel) n =
    let before = digits fuel (n / 10) in
    if ltb n 10 then (b'0' + n) ∷ [] else before ++ ((b'0' + n % 10) ∷ [])

-- `%u` for an `unsigned short`.
abbrev pub unsigned_text : ℕ → List ℕ
unsigned_text n = digits 5 n

-- `snprintf(d, size, ...)` for a text without a 0: as much of it as fits, and a closing 0.
unfoldable pub snprintf : Mem → ℕ → List ℕ → Mem
snprintf d size text =
    let length = text_length text in
    let kept = if ltb length size then length else size - 1 in
    if size == 0 then d else put (copy d 0 (bytes text) kept) kept 0

-- `strlen` of a string whose closing 0 is less than `fuel` bytes away.
unfoldable pub strlen : Mem → ℕ → ℕ → ℕ
strlen m zero i = i
strlen m (suc fuel) i = let rest = strlen m fuel (i + 1) in if m i == 0 then i else rest

-- `strcmp(m, text) == 0`.
unfoldable pub is_text : List ℕ → Mem → Bool
is_text text m = starts_with text m && m (text_length text) == 0

-- `HTTP_HEADER_ROW_BREAK`, as it is set by default.
abbrev pub header_row_break : List ℕ
header_row_break = b'\r' ∷ b'\n' ∷ []

-- `"HTTP/1.0 %u %s" HTTP_HEADER_ROW_BREAK`.
unfoldable pub status_row : ℕ → List ℕ → List ℕ
status_row code message =
    (b'H' ∷ b'T' ∷ b'T' ∷ b'P' ∷ b'/' ∷ b'1' ∷ b'.' ∷ b'0' ∷ b' ' ∷ [])
    ++ (unsigned_text code ++ (b' ' ∷ (message ++ header_row_break)))

-- `"Content-Length: %u" HTTP_HEADER_ROW_BREAK`, and with the empty row behind it.
abbrev pub length_row : ℕ → List ℕ
length_row length =
    (b'C' ∷ b'o' ∷ b'n' ∷ b't' ∷ b'e' ∷ b'n' ∷ b't' ∷ b'-' ∷ b'L' ∷ b'e' ∷ b'n' ∷ b'g' ∷ b't' ∷ b'h'
      ∷ [])
    ++ ((b':' ∷ b' ' ∷ []) ++ (unsigned_text length ++ header_row_break))

unfoldable pub content_length_row : ℕ → List ℕ
content_length_row length = length_row length ++ header_row_break

abbrev pub get_text : List ℕ
get_text = b'G' ∷ b'E' ∷ b'T' ∷ []

abbrev pub head_text : List ℕ
head_text = b'H' ∷ b'E' ∷ b'A' ∷ b'D' ∷ []

abbrev pub options_text : List ℕ
options_text = b'O' ∷ b'P' ∷ b'T' ∷ b'I' ∷ b'O' ∷ b'N' ∷ b'S' ∷ []

abbrev pub version_text : List ℕ
version_text = b'H' ∷ b'T' ∷ b'T' ∷ b'P' ∷ b'/' ∷ b'1' ∷ b'.' ∷ b'0' ∷ []

abbrev pub default_message : List ℕ
default_message =
    b'S' ∷ b'h' ∷ b'i' ∷ b't' ∷ b' ' ∷ b'H' ∷ b'a' ∷ b'p' ∷ b'p' ∷ b'e' ∷ b'n' ∷ b's' ∷ []

abbrev pub header_syntax_error_text : List ℕ
header_syntax_error_text =
    b'H' ∷ b'e' ∷ b'a' ∷ b'd' ∷ b'e' ∷ b'r' ∷ b' ' ∷ b'S' ∷ b'y' ∷ b'n' ∷ b't' ∷ b'a' ∷ b'x' ∷ b' '
    ∷ b'E' ∷ b'r' ∷ b'r' ∷ b'o' ∷ b'r' ∷ []

abbrev pub header_part_too_long_text : List ℕ
header_part_too_long_text =
    b'H' ∷ b'e' ∷ b'a' ∷ b'd' ∷ b'e' ∷ b'r' ∷ b' ' ∷ b'P' ∷ b'a' ∷ b'r' ∷ b't' ∷ b' ' ∷ b'T' ∷ b'o'
    ∷ b'o' ∷ b' ' ∷ b'L' ∷ b'o' ∷ b'n' ∷ b'g' ∷ []

abbrev pub uri_too_long_text : List ℕ
uri_too_long_text =
    b'U' ∷ b'R' ∷ b'I' ∷ b' ' ∷ b'T' ∷ b'o' ∷ b'o' ∷ b' ' ∷ b'L' ∷ b'o' ∷ b'n' ∷ b'g' ∷ []

abbrev pub length_required_text : List ℕ
length_required_text =
    b'L' ∷ b'e' ∷ b'n' ∷ b'g' ∷ b't' ∷ b'h' ∷ b' ' ∷ b'R' ∷ b'e' ∷ b'q' ∷ b'u' ∷ b'i' ∷ b'r' ∷ b'e'
    ∷ b'd' ∷ []

abbrev pub payload_too_large_text : List ℕ
payload_too_large_text =
    b'P' ∷ b'a' ∷ b'y' ∷ b'l' ∷ b'o' ∷ b'a' ∷ b'd' ∷ b' ' ∷ b'T' ∷ b'o' ∷ b'o' ∷ b' ' ∷ b'L' ∷ b'a'
    ∷ b'r' ∷ b'g' ∷ b'e' ∷ []

abbrev pub invalid_state_text : List ℕ
invalid_state_text =
    b'R' ∷ b'e' ∷ b'q' ∷ b'u' ∷ b'e' ∷ b's' ∷ b't' ∷ b' ' ∷ b'I' ∷ b's' ∷ b' ' ∷ b'I' ∷ b'n' ∷ b' '
    ∷ b'I' ∷ b'n' ∷ b'v' ∷ b'a' ∷ b'l' ∷ b'i' ∷ b'd' ∷ b' ' ∷ b'S' ∷ b't' ∷ b'a' ∷ b't' ∷ b'e' ∷ []

abbrev pub connect_failed_text : List ℕ
connect_failed_text =
    b'C' ∷ b'o' ∷ b'n' ∷ b'n' ∷ b'e' ∷ b'c' ∷ b't' ∷ b' ' ∷ b'F' ∷ b'a' ∷ b'i' ∷ b'l' ∷ b'e' ∷ b'd'
    ∷ []

abbrev pub request_failed_text : List ℕ
request_failed_text =
    b'R' ∷ b'e' ∷ b'q' ∷ b'u' ∷ b'e' ∷ b's' ∷ b't' ∷ b' ' ∷ b'F' ∷ b'a' ∷ b'i' ∷ b'l' ∷ b'e' ∷ b'd'
    ∷ []

abbrev pub response_failed_text : List ℕ
response_failed_text =
    b'R' ∷ b'e' ∷ b's' ∷ b'p' ∷ b'o' ∷ b'n' ∷ b's' ∷ b'e' ∷ b' ' ∷ b'F' ∷ b'a' ∷ b'i' ∷ b'l' ∷ b'e'
    ∷ b'd' ∷ []
