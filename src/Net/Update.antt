-- ===== src/Net/Update.antt =====
-- Reading an array of structures after one of them was written.
use avr_net_enc28j.Base.{ℕ, ◌≡◌, ◌≢◌, arith, ◌==◌, true, false, refl}
use avr_net_enc28j.Net.{update}

module _ {ℓ} {X : Type ℓ} (f : ℕ → X) (x : X) where
  pub update_at : {i j : ℕ} → i ≡ j → update f i x j ≡ x
  update_at {i} {j} e = let t : (i == j) ≡ true = ground arith in rw t refl

  pub update_ne : {i j : ℕ} → i ≢ j → update f i x j ≡ f j
  update_ne {i} {j} ne = let t : (i == j) ≡ false = ground arith in rw t refl
