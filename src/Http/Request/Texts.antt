-- ===== src/Http/Request/Texts.antt =====
-- What texts leave in the memory that they are put into.
use avr_net_enc28j.Base.{
  ℕ, zero, suc, ◌+◌, ◌/◌, ◌%◌, ◌≤◌, ◌<◌, ◌≡◌, refl, ◌∙◌, ap, Bool, true, inl, inr, arith, List, [],
  ◌∷◌, ◌++◌, Mem, put, put_ne, put_self, copy, copy_inside, bytes, ltb, Bool-cases,
}
use avr_net_enc28j.Http.Value.{text_length}
use avr_net_enc28j.Http.Text.{digits, is_text}
use avr_net_enc28j.Http.Rows.{Holds}
use avr_net_enc28j.Http.Announced.{starts_with-Holds}
use avr_net_enc28j.Http.Request.Run.{put_text, every, is_row_byte}

abbrev pub is_byte : ℕ → Bool
is_byte x = ltb x 256

pub put_text_before : (xs : List ℕ) (m : Mem) (i j : ℕ) → j < i → put_text m i xs j ≡ m j
unfolding put_text
put_text_before [] m i j h = refl
put_text_before (x ∷ xs) m i j h =
    put_text_before xs (put m i x) (i + 1) j (omega arith)
    ∙ put_ne m i x j (λ e. absurd (omega arith))

pub Holds-put_text :
    (xs : List ℕ) (m : Mem) (i : ℕ) → every is_byte xs ≡ true → Holds xs (put_text m i xs) i
unfolding Holds every put_text
Holds-put_text [] m i h = tt
Holds-put_text (x ∷ xs) m i h = (
  put_text_before xs (put m i x) (i + 1) i (omega arith) ∙ put_self m i x ∙ ground arith,
  Holds-put_text xs (put m i x) (i + 1) (ground arith),
)

-- Memory that agrees with another where the text stands.
pub Holds-agree :
    (xs : List ℕ) (m m' : Mem) (i : ℕ)
    → ((j : ℕ) → i ≤ j → j < i + text_length xs → m' j ≡ m j)
    → Holds xs m i
    → Holds xs m' i
unfolding Holds
Holds-agree [] m m' i same h = tt
Holds-agree (x ∷ xs) m m' i same (h, k) = (
  same i (omega arith) (omega arith) ∙ h,
  Holds-agree xs m m' (i + 1) (λ j lo hi. same j (omega arith) (omega arith)) k,
)

pub Holds-join :
    (xs ys : List ℕ) (m : Mem) (i : ℕ)
    → Holds xs m i
    → Holds ys m (i + text_length xs)
    → Holds (xs ++ ys) m i
unfolding Holds
Holds-join [] ys m i h k = let e : i ≡ i + 0 = omega arith in rw e k
Holds-join (x ∷ xs) ys m i (h, h') k =
    let e : i + 1 + text_length xs ≡ i + suc (text_length xs) = omega arith in
    (h, Holds-join xs ys m (i + 1) h' (rw e k))

pub every_imp :
    (p q : ℕ → Bool) (xs : List ℕ)
    → ((x : ℕ) → p x ≡ true → q x ≡ true)
    → every p xs ≡ true
    → every q xs ≡ true
unfolding every
every_imp p q [] imp h = refl
every_imp p q (x ∷ xs) imp h =
    ground (arith, imp x (ground arith), every_imp p q xs imp (ground arith))

pub every-++ :
    (p : ℕ → Bool) (xs ys : List ℕ)
    → every p xs ≡ true
    → every p ys ≡ true
    → every p (xs ++ ys) ≡ true
unfolding every
every-++ p [] ys h k = k
every-++ p (x ∷ xs) ys h k = ground (arith, every-++ p xs ys (ground arith) k)

pub digits_are_row_bytes : (fuel n : ℕ) → every is_row_byte (digits fuel n) ≡ true
unfolding digits every
digits_are_row_bytes zero n = refl
digits_are_row_bytes (suc fuel) n = elim (Bool-cases (ltb n 10)) [
  | inl e ↦ rw e (ground arith)
  | inr e ↦ rw e (
      every-++ is_row_byte (digits fuel (n / 10)) ((b'0' + n % 10) ∷ [])
        (digits_are_row_bytes fuel (n / 10)) (ground arith))
]

-- A text with a 0 put behind it is the string.
pub is_text_closed :
    (xs : List ℕ) (m : Mem)
    → every is_byte xs ≡ true
    → is_text xs (put (put_text m 0 xs) (text_length xs) 0) ≡ true
unfolding is_text
is_text_closed xs m bytes =
    let n = text_length xs in
    let text = put_text m 0 xs in
    let held =
      Holds-agree xs text (put text n 0) 0
        (λ j lo hi. put_ne text n 0 j (λ e. absurd (omega arith))) (Holds-put_text xs m 0 bytes) in
    ground (arith, starts_with-Holds xs (put text n 0) 0 held, put_self text n 0)

-- The text, byte by byte.
pub Holds-bytes :
    (xs : List ℕ) (m : Mem) (i : ℕ)
    → ((j : ℕ) → j < text_length xs → m (i + j) ≡ bytes xs j)
    → Holds xs m i
unfolding Holds
Holds-bytes [] m i h = tt
Holds-bytes (x ∷ xs) m i h = (
  ap m (omega arith) ∙ h 0 (omega arith),
  Holds-bytes xs m (i + 1) (λ j l. ap m (omega arith) ∙ h (suc j) (omega arith)),
)

pub Holds-at :
    (xs : List ℕ) (m : Mem) (i j : ℕ) → Holds xs m i → j < text_length xs → m (i + j) ≡ bytes xs j
unfolding Holds
Holds-at [] m i j h l = absurd (omega arith)
Holds-at (x ∷ xs) m i zero (h, k) l = ap m (omega arith) ∙ h
Holds-at (x ∷ xs) m i (suc j) (h, k) l =
    ap m (omega arith) ∙ Holds-at xs m (i + 1) j k (omega arith)

-- A text that is copied stands there, and the rest is as before.
pub Holds-copy :
    (xs : List ℕ) (m s : Mem) (i : ℕ) → Holds xs s 0 → Holds xs (copy m i s (text_length xs)) i
Holds-copy xs m s i h =
    Holds-bytes xs _ i
      (λ j l. copy_inside m i s (text_length xs) j l ∙ ap s (omega arith) ∙ Holds-at xs s 0 j h l)

pub Holds-itself : (xs : List ℕ) → Holds xs (bytes xs) 0
Holds-itself xs = Holds-bytes xs (bytes xs) 0 (λ j l. ap (bytes xs) (omega arith))
