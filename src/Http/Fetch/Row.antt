-- ===== src/Http/Fetch/Row.antt =====
-- The first row of a request, as `HttpSendRequest` of src/http.c builds it.
use avr_net_enc28j.Base.{
  ℕ, ◌+◌, ◌≤◌, ◌<◌, ◌≡◌, ◌∙◌, arith, List, [], ◌∷◌, ◌++◌, Mem, copy_outside, bytes,
}
use avr_net_enc28j.Util.{chars_cat}
use avr_net_enc28j.Http.State.{HttpConfig}
use avr_net_enc28j.Http.Value.{text_length}
use avr_net_enc28j.Http.Text.{version_text, header_row_break}
use avr_net_enc28j.Http.Rows.{Holds, text_length-++}
use avr_net_enc28j.Http.Request.Texts.{Holds-agree, Holds-join, Holds-copy, Holds-itself}
use avr_net_enc28j.Http.Request.Whole.{request_line}
use avr_net_enc28j.Http.Fetch.{request_row, request_row_bound}

-- `p'` comes from the text and the length so far by the text behind it.
record Appends (xs : List ℕ) (p p' : Mem × ℕ) : Type 0 where
  pub total : p'.1 ≡ p.1 + text_length xs
  pub added : Holds xs p'.0 p.1
  pub before : (j : ℕ) → j < p.1 → p'.0 j ≡ p.0 j
  pub behind : (j : ℕ) → p'.1 ≤ j → p'.0 j ≡ p.0 j

chars_cat-Appends :
    (xs : List ℕ) (s : Mem) (p : Mem × ℕ)
    → Holds xs s 0
    → p.1 + text_length xs < 65536
    → Appends xs p (chars_cat p.0 p.1 s (text_length xs))
unfolding chars_cat
chars_cat-Appends xs s p h fits = record {
  total = omega arith;
  added = Holds-copy xs p.0 s p.1 h;
  before = λ j l. copy_outside p.0 p.1 s (text_length xs) j (λ (lo, hi). absurd (omega arith));
  behind = λ j l. copy_outside p.0 p.1 s (text_length xs) j (λ (lo, hi). absurd (omega arith));
}

Appends-join :
    (xs ys : List ℕ) (p q r : Mem × ℕ) → Appends xs p q → Appends ys q r → Appends (xs ++ ys) p r
Appends-join xs ys p q r f g = record {
  total = omega (arith, f.total, g.total, text_length-++ xs ys);
  added =
      Holds-join xs ys r.0 p.1
        (Holds-agree xs q.0 r.0 p.1 (λ j lo hi. g.before j (omega (arith, f.total))) f.added)
        (let e : p.1 + text_length xs ≡ q.1 = omega (arith, f.total) in rw e g.added);
  before = λ j l. g.before j (omega (arith, f.total)) ∙ f.before j l;
  behind = λ j l. g.behind j l ∙ f.behind j (omega (arith, g.total));
}

-- A row that passes the test of its length is the method, the URL and the version, it stands in the
-- array of the status message, whose rest is untouched, and fits it, and its length is the one that is
-- sent. The method and the URL together have fewer than 65500 bytes.
pub request_row_lem :
    (c : HttpConfig) (method url : List ℕ) (u buffer : Mem)
    → Holds url u 0
    → text_length method + text_length url < 65500
    → request_row_bound method (text_length url) ≤ c.max_status_message_length
    → let row = request_row method u (text_length url) buffer in
      (row.1 ≡ text_length (request_line method url))
      × (row.1 ≤ c.max_status_message_length)
      × Holds (request_line method url) row.0 0
      × ((j : ℕ) → row.1 ≤ j → row.0 j ≡ buffer j)
unfolding request_row request_line
request_row_lem c method url u buffer held small fits =
    let space : List ℕ = b' ' ∷ [] in
    let last = version_text ++ header_row_break in
    let p0 : Mem × ℕ = (buffer, 0) in
    let p1 = chars_cat buffer 0 (bytes method) (text_length method) in
    let f1 = chars_cat-Appends method (bytes method) p0 (Holds-itself method) (omega arith) in
    let p2 = chars_cat p1.0 p1.1 (bytes space) 1 in
    let f2 =
      chars_cat-Appends space (bytes space) p1 (Holds-itself space) (omega (arith, f1.total)) in
    let p3 = chars_cat p2.0 p2.1 u (text_length url) in
    let f3 = chars_cat-Appends url u p2 held (omega (arith, f1.total, f2.total)) in
    let p4 = chars_cat p3.0 p3.1 (bytes space) 1 in
    let f4 =
      chars_cat-Appends space (bytes space) p3 (Holds-itself space)
        (omega (arith, f1.total, f2.total, f3.total)) in
    let p5 = chars_cat p4.0 p4.1 (bytes last) 10 in
    let f5 =
      chars_cat-Appends last (bytes last) p4 (Holds-itself last)
        (omega (arith, f1.total, f2.total, f3.total, f4.total)) in
    let f45 = Appends-join space last p3 p4 p5 f4 f5 in
    let f35 = Appends-join url (b' ' ∷ last) p2 p3 p5 f3 f45 in
    let f25 = Appends-join space (url ++ (b' ' ∷ last)) p1 p2 p5 f2 f35 in
    let f = Appends-join method (b' ' ∷ (url ++ (b' ' ∷ last))) p0 p1 p5 f1 f25 in
    (
      omega (arith, f.total),
      omega (arith, f1.total, f2.total, f3.total, f4.total, f5.total),
      f.added,
      f.behind,
    )
