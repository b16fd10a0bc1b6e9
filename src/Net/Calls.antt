-- ===== src/Net/Calls.antt =====
-- Calls that return, and what they leave.
use avr_net_enc28j.Base.{ℕ, Bool, true, false, Option, some, ◌≡◌, ◌≢◌, refl, if◌then◌else◌, Mem}
use avr_net_enc28j.Net.{Net, Env, Handlers, M, ◌>>=◌}
use avr_net_enc28j.Tcp.Segment.{tcp_verify_checksum}

-- The call returns, with a result and a state of which `P` holds.
abbrev pub Ends : {S X : Type 0} → (X → S → Type 0) → Option (X × S) → Type 0
Ends {S} {X} P o = (r : X × S) × (o ≡ some r) × P r.0 r.1

-- An `if` ends if both branches do; the second only has to where the test fails.
pub if-Ends :
    {S X : Type 0} (P : X → S → Type 0) (b : Bool) (x y : Option (X × S))
    → Ends P x
    → (b ≡ false → Ends P y)
    → Ends P (if b then x else y)
if-Ends P true x y hx hy = hx
if-Ends P false x y hx hy = hy refl

module _ {N A : Type 0} where
  pub >>=-Ends :
      {X Y : Type 0} (P : X → Net N A → Type 0) (R : Y → Net N A → Type 0) (m : M N A X)
      (f : X → M N A Y) (s : Net N A)
      → Ends P (m s)
      → ((x : X) (s' : Net N A) → P x s' → Ends R (f x s'))
      → Ends R ((m >>= f) s)
  >>=-Ends P R m f s hm hf =
      let (r, e, p) = hm in let (q, e', t) = hf r.0 r.1 p in (q, rw (e, ◌>>=◌) e', t)

  -- `Q` says in which states the network may be, and `Fine` which frames of which lengths it
  -- delivers.
  module _ (Q : N → Type 0) (Fine : ℕ → Mem → Type 0) where
    abbrev pub OnNic : {X : Type 0} → X → Net N A → Type 0
    OnNic x s = Q s.nic

    -- A frame has been received, or none.
    abbrev pub Arrived : ℕ → Net N A → Type 0
    Arrived length s = Q s.nic × (length ≢ 0 → Fine length s.buffer)

    -- What the network delivers is fine, and `NetHandleIncomingPacket` returns from it.
    pub record NetEnds (env : Env N A) (h : Handlers N A) : Type 0 where
      pub received :
          (m : Mem) (size : ℕ) (n : N)
          → Q n
          → let r = env.packet_receive m size n in Q r.nic × (r.length ≢ 0 → Fine r.length r.buffer)
      pub net_handled :
          (length : ℕ) (s : Net N A)
          → Q s.nic
          → Fine length s.buffer
          → Ends OnNic (h.net_handle length s)

    -- `TcpHandleIncomingPacket` returns from such a frame, also when its checksum has been verified.
    pub record TcpEnds (env : Env N A) (h : Handlers N A) : Type 0 where
      pub sent : (m : Mem) (length : ℕ) (n : N) → Q n → Q (env.packet_send m length n)
      pub verified : (length : ℕ) (m : Mem) → Fine length m → Fine length (tcp_verify_checksum m).1
      pub tcp_handled :
          (length : ℕ) (s : Net N A)
          → Q s.nic
          → Fine length s.buffer
          → Ends OnNic (h.tcp_handle length s)
