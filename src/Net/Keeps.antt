-- ===== src/Net/Keeps.antt =====
-- Calls that keep a predicate on the table of connections, where they come back.
use avr_net_enc28j.Base.{ℕ, Bool, true, false, Option, none, some, ◌≡◌, refl, if◌then◌else◌}
use avr_net_enc28j.Net.{TcpConnection, Net, Handlers, M, ◌>>=◌}

-- A call that does not come back leaves no state.
abbrev pub After : {S X : Type 0} → (S → Type 0) → Option (X × S) → Type 0
After P none = Unit {0}
After P (some (x, s)) = P s

pub if-After :
    {S X : Type 0} (P : S → Type 0) (b : Bool) (x y : Option (X × S))
    → (b ≡ true → After P x)
    → (b ≡ false → After P y)
    → After P (if b then x else y)
if-After P true x y hx hy = hx refl
if-After P false x y hx hy = hy refl

-- A state is chosen by a test.
pub if_holds :
    {S : Type 0} (P : S → Type 0) (b : Bool) (x y : S) → P x → P y → P (if b then x else y)
if_holds P true x y hx hy = hx
if_holds P false x y hx hy = hy

module _ {N A : Type 0} where
  on_result :
      {X Y : Type 0} (P Q : Net N A → Type 0) (o : Option (X × Net N A)) (f : X → M N A Y)
      → After P o
      → ((x : X) (s : Net N A) → P s → After Q (f x s))
      → After Q (elim o [ none ↦ none | some (x, s') ↦ f x s' ])
  on_result P Q none f po hf = tt
  on_result P Q (some (x, s)) f po hf = hf x s po

  -- What the first call leaves is what the second starts with.
  pub >>=-After :
      {X Y : Type 0} (P Q : Net N A → Type 0) (m : M N A X) (f : X → M N A Y) (s : Net N A)
      → After P (m s)
      → ((x : X) (s' : Net N A) → P s' → After Q (f x s'))
      → After Q ((m >>= f) s)
  >>=-After P Q m f s pm hf = on_result P Q (m s) f pm hf

  module _ (P : (ℕ → TcpConnection) → Type 0) where
    abbrev pub OnTable : Net N A → Type 0
    OnTable s = P s.connections

    abbrev pub Keeps : {X : Type 0} → M N A X → Type 0
    Keeps m = (s : Net N A) → OnTable s → After OnTable (m s)

    pub >>=-Keeps :
        {X Y : Type 0} (m : M N A X) (f : X → M N A Y)
        → Keeps m
        → ((x : X) → Keeps (f x))
        → Keeps (m >>= f)
    >>=-Keeps m f km kf s p = >>=-After OnTable OnTable m f s (km s p) kf

    -- What a call that came back has left.
    pub kept :
        {X : Type 0} (m : M N A X) {x : X} {s s' : Net N A}
        → m s ≡ some (x, s')
        → Keeps m
        → OnTable s
        → OnTable s'
    kept m {s = s} e k p = rw e at (k s p)

    pub record HandlersKeep (h : Handlers N A) : Type 0 where
      pub net_handle : (length : ℕ) → Keeps (h.net_handle length)
      pub tcp_handle : (length : ℕ) → Keeps (h.tcp_handle length)
