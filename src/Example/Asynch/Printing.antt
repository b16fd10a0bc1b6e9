-- ===== src/Example/Asynch/Printing.antt =====
-- `TcpOnIncomingData` of example/tcp_asynch_client/main.c: what it prints.
use avr_net_enc28j.Base.{
  ℕ, zero, suc, ◌+◌, ◌≤◌, ◌<◌, ◌≡◌, ◌≢◌, refl, ap, true, false, some, List, [], ◌∷◌, ◌++◌,
  append_assoc, arith, ◌-◌, ◌==◌, Mem,
}
use mathlib.Core.List.{append-nil}
use avr_net_enc28j.Http.Value.{text_length}
use avr_net_enc28j.Net.{Net, Env, Handlers, ◌>>=◌, pure}
use avr_net_enc28j.Tcp.Client.{tcp_disconnect}
use avr_net_enc28j.Example.{Console, print, putchar}
use avr_net_enc28j.Example.Asynch.{Client, print_response, asynch_on_incoming_data}

-- `length` bytes from index `i` on.
abbrev pub bytes_from : Mem → ℕ → ℕ → List ℕ
bytes_from m i zero = []
bytes_from m i (suc length) = m i ∷ bytes_from m (i + 1) length

pub bytes_from-eq :
    (m m' : Mem) (i i' length : ℕ)
    → ((j : ℕ) → m (i + j) ≡ m' (i' + j))
    → bytes_from m i length ≡ bytes_from m' i' length
bytes_from-eq m m' i i' zero same = refl
bytes_from-eq m m' i i' (suc length) same =
    let a : i + zero ≡ i = omega arith in
    let a' : i' + zero ≡ i' = omega arith in
    let here : m i ≡ m' i' = rw (← a, ← a') (same zero) in
    let rest = bytes_from-eq m m' (i + 1) (i' + 1) length (λ j.
      let e : i + 1 + j ≡ i + suc j = omega arith in
      let e' : i' + 1 + j ≡ i' + suc j = omega arith in rw (e, e') (same (suc j))) in
    cc

pub length-bytes_from : (m : Mem) (i length : ℕ) → text_length (bytes_from m i length) ≡ length
length-bytes_from m i zero = refl
length-bytes_from m i (suc length) = omega (arith, length-bytes_from m (i + 1) length)

module _ {N G : Type 0} where
  -- Texts are printed one behind the other.
  print-print :
      (xs ys : List ℕ) (s : Net N (Console G)) → print ys (print xs s) ≡ print (xs ++ ys) s
  unfolding print
  print-print xs ys s =
      ap (λ (t : List ℕ). record s { app = record (s.app) { stdout = t } })
        (append_assoc s.app.stdout xs ys)

  print-nil : (s : Net N (Console G)) → print [] s ≡ s
  unfolding print
  print-nil s =
      ap (λ (t : List ℕ). record s { app = record (s.app) { stdout = t } })
        (append-nil s.app.stdout)

  print-putchar :
      (c : ℕ) (xs : List ℕ) (s : Net N (Console G)) → print xs (putchar c s) ≡ print (c ∷ xs) s
  unfolding putchar
  print-putchar c xs s = print-print (c ∷ []) xs s

module _ {N : Type 0} (env : Env N Client) (h : Handlers N Client) (id : ℕ) (m : Mem) where
  print_response_open :
      (length i : ℕ) (s : Net N Client)
      → ((j : ℕ) → i ≤ j → j < i + length → m j ≢ 0)
      → print_response env h id m length i s ≡ some (tt, print (bytes_from m i length) s)
  unfolding print_response
  print_response_open zero i s open_end = rw (print-nil s) refl
  print_response_open (suc length) i s open_end =
      let more : (m i == 0) ≡ false =
        let ne = open_end i (omega arith) (omega arith) in ground arith in
      let rest =
        print_response_open length (i + 1) (putchar (m i) s)
          (λ j lo hi. open_end j (omega arith) (omega arith)) in
      rw (more, rest, print-putchar (m i) (bytes_from m (i + 1) length) s) refl

  print_response_ended :
      (k behind i : ℕ) (s : Net N Client)
      → ((j : ℕ) → i ≤ j → j < i + k → m j ≢ 0)
      → m (i + k) ≡ 0
      → print_response env h id m (k + suc behind) i s
        ≡ (tcp_disconnect env h id 5000 >>= λ done. pure tt)
            (print (bytes_from m i k ++ (b'\n' ∷ [])) s)
  unfolding print_response putchar
  print_response_ended zero behind i s before end =
      let sum : i + zero ≡ i = omega arith in
      let here : m i ≡ 0 = rw sum at end in
      let stops : (m i == 0) ≡ true = ground arith in
      let all : zero + suc behind ≡ suc behind = omega arith in rw (all, stops) refl
  print_response_ended (suc k) behind i s before end =
      let all : suc k + suc behind ≡ suc (k + suc behind) = omega arith in
      let more : (m i == 0) ≡ false =
        let ne = before i (omega arith) (omega arith) in ground arith in
      let at : i + 1 + k ≡ i + suc k = omega arith in
      let rest =
        print_response_ended k behind (i + 1) (putchar (m i) s)
          (λ j lo hi. before j (omega arith) (omega arith)) (rw at end) in
      rw (all, more, rest, print-putchar (m i) (bytes_from m (i + 1) k ++ (b'\n' ∷ [])) s) refl

  module _ (s : Net N Client) (own : id ≡ s.app.globals) where
    own_test : (id == s.app.globals) ≡ true
    own_test = ground arith

    -- Data of the client's connection without a 0 is printed, and nothing else changes.
    pub asynch_prints_data :
        (length : ℕ)
        → ((j : ℕ) → j < length → m j ≢ 0)
        → asynch_on_incoming_data env h id m length s ≡ some (tt, print (bytes_from m 0 length) s)
    unfolding asynch_on_incoming_data
    asynch_prints_data length open_end =
        rw own_test (print_response_open length 0 s (λ j lo hi. open_end j (omega arith)))

    -- With a 0 the bytes before it are printed, and a line end, before the connection is closed.
    pub asynch_prints_end :
        (length k : ℕ)
        → k < length
        → ((j : ℕ) → j < k → m j ≢ 0)
        → m k ≡ 0
        → asynch_on_incoming_data env h id m length s
          ≡ (tcp_disconnect env h id 5000 >>= λ done. pure tt)
              (print (bytes_from m 0 k ++ (b'\n' ∷ [])) s)
    unfolding asynch_on_incoming_data
    asynch_prints_end length k inside before end =
        let all : k + suc (length - k - 1) ≡ length = omega arith in
        let at : 0 + k ≡ k = omega arith in
        rw (own_test, ← all)
          (print_response_ended k (length - k - 1) 0 s (λ j lo hi. before j (omega arith))
            (rw at end))
