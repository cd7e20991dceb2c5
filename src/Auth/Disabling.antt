-- ===== src/Auth/Disabling.antt =====
-- The automatic disabling of the local admin in `require_admin`.
use lehen.Prelude.{String, Bool, true, false, ◌≡◌, ◌⊎◌, if◌then◌else◌}
use lehen.Arcade.{Arcade}
use lehen.Hub.{disabled_now, disabled_or_absent, World, Hub, Host}
use lehen.LocalAdmin.Service.{Settings, bootstrap_username, is_enabled, fetch_row}
use lehen.Auth.Surfaces.{IdentityProvider, SiamClaims, is_pending}

module _ (arcade : Arcade) (host : Host) (provider : IdentityProvider)
    (decode_and_verify : String → Hub arcade SiamClaims) (settings : Settings) where
  -- From a state to the one after the disabling.
  abbrev IsSettled : World arcade → World arcade → Type 0
  IsSettled v after =
      ((is_pending arcade host provider decode_and_verify v.disable_state ≡ true)
        × (is_enabled (fetch_row arcade bootstrap_username after) ≡ false)
        × (after.disable_state ≡ (
            if is_enabled (fetch_row arcade bootstrap_username v)
            then disabled_now
            else disabled_or_absent)))
      ⊎ ((is_pending arcade host provider decode_and_verify v.disable_state ≡ false) × (after ≡ v))
