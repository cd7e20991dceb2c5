-- ===== src/Tests/Entering.antt =====
-- The theorem about auth/dependencies.py at the token of the first local admin.
use lehen.Prelude.{String, [], ◌∷◌, some, none, ◌≡◌, refl, any, ◌==◌, ◌⊎◌, true}
use lehen.Prelude.Effects.{Result, pure, ok, err, unauthorized, raise, invalid_token}
use lehen.Hub.{CurrentUser, World, Hub, LocalClaims}
use lehen.Hub.Toy.{toy}
use lehen.LocalAdmin.Service.{Settings, issue_local_admin_token}
use lehen.Auth.Surfaces.{
  admit, verify_admin_surface_token, verify_local_token, decode_local_admin_token,
  claims_local_issuer, or_unauthorized, IdentityProvider, SiamClaims, require_admin,
  verify_user_surface_token, local_issuer,
}
use lehen.Auth.Entry.{JwtLaws, claims_of, issued_token_surfaces, require_admin_sound}
use lehen.Tests.{machine, world}

abbrev provider : IdentityProvider
provider = record { issuer = "https://idp.example"; admin_role = "admin" }

-- An identity provider that knows no token.
abbrev no_token : String → Hub toy SiamClaims
no_token token = raise invalid_token

admin-JwtLaws : JwtLaws machine 0 (claims_of "admin" 3600 0) "key"
admin-JwtLaws = record { nonempty = refl; issuer = refl; decodes = refl }

issued_token_surfaces_example :
    let token = issue_local_admin_token machine "admin" "key" 3600 0 in
    let (r, w) = require_admin toy machine provider no_token none (some "key") token (world []) in
    (r
      ≡ ok (record {
        sub = "admin";
        username = "admin";
        realm_roles = [];
        identity_source = local_issuer;
      }))
    × (verify_user_surface_token toy machine provider no_token token (world [])
        ≡ (err unauthorized, world []))
issued_token_surfaces_example =
    issued_token_surfaces toy machine provider no_token none "key" "admin" 3600 0 (world [])
      admin-JwtLaws

-- The local admin again; the Hub has a key of its own.
require_admin_sound_example :
    ((key : String) × (claims : LocalClaims) × (some "key" ≡ some key)
      × (decode_local_admin_token machine 0 "adminkey" key ≡ ok claims))
    ⊎ ((claims : SiamClaims) × ((no_token "adminkey" (world [])).0 ≡ ok claims)
        × (any (λ r. r == "admin") claims.realm_roles ≡ true))
unfolding require_admin admit verify_admin_surface_token verify_local_token decode_local_admin_token
    claims_local_issuer or_unauthorized
require_admin_sound_example =
    require_admin_sound toy machine provider no_token (some "key") "adminkey" (world []) none refl
      refl

-- A provider whose tokens are all of one admin.
abbrev bob_claims : SiamClaims
bob_claims = record { sub = "bob"; preferred_username = "bob"; realm_roles = "admin" ∷ [] }

abbrev bob_token : String → Hub toy SiamClaims
bob_token token = pure bob_claims

abbrev bob : CurrentUser
bob = record {
  sub = "bob";
  username = "bob";
  realm_roles = "admin" ∷ [];
  identity_source = "https://idp.example";
}

abbrev settings : Settings
settings = record {
  signing_key = "key";
  token_ttl_seconds = 3600;
  failed_attempts_threshold = 2;
  lockout_duration_seconds = 900;
  rate_limit_per_minute = 5;
}

abbrev entered : Result CurrentUser × World toy
entered = require_admin toy machine provider bob_token (some settings) none "token" (world [])
