-- ===== src/Crypto/Frame.antt =====
-- `encrypt` takes random bytes, and changes no table.
use Prim.Native.String.{count}
use lehen.Prelude.{ℕ, ◌+◌, String, eqb, ◌≡◌, refl, inl, inr, Bool-cases}
use lehen.Prelude.Effects.{Keeps}
use lehen.Arcade.{Arcade}
use lehen.Hub.{Bytes, World, Host}
use lehen.Crypto.Envelope.{key_len, encrypt}

module _ {ℓ} {X : Type ℓ} (arcade : Arcade) (host : Host) (key : Bytes) (g : World arcade → X)
    (reads : (w : World arcade) (n : ℕ) → g (record w { readings = n }) ≡ g w) where
  pub encrypt-Keeps : (s : String) → Keeps g (encrypt arcade host s key)
  unfolding encrypt
  encrypt-Keeps s w = elim (Bool-cases (eqb (count key) key_len)) [
    | inl right ↦ rw right (reads w (w.readings + 1))
    | inr wrong ↦ rw wrong refl
  ]
