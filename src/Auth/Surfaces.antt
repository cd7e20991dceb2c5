-- ===== src/Auth/Surfaces.antt =====
-- The user and the admin surface of auth/dependencies.py, over the local tokens of
-- auth/local_jwt.py. A token is what `_extract_bearer_token` found. The verification of an identity
-- provider's token, with the roles read out of its claims, is an argument.
use lehen.Prelude.{
  ℕ, String, Bool, true, false, Option, none, some, List, any, not, ◌==◌, if◌then◌else◌,
}
use lehen.Prelude.Effects.{
  Result, ok, err, local_token, invalid_token, unauthorized, forbidden, gets, pure, raise, lift,
  raise_if, modify, ◌>>=◌, ◌>>◌,
}
use lehen.Arcade.{Arcade}
use lehen.Hub.{
  CurrentUser, LocalClaims, Hub, Host, now, DisableState, pending, no_local_admin, disabled_now,
  disabled_or_absent,
}
use lehen.LocalAdmin.Service.{Settings, disable_on_siam_admin_login}

abbrev pub local_issuer : String
local_issuer = "lehen-hub-local"

abbrev pub local_audience : String
local_audience = "lehen-hub-admin"

abbrev pub checked_scope : Option LocalClaims → Result LocalClaims
checked_scope none = err local_token
checked_scope (some claims) = if claims.scope == "admin" then ok claims else err local_token

-- `decode_local_admin_token`; a claim that is missing is an empty text
unfoldable pub decode_local_admin_token : Host → ℕ → String → String → Result LocalClaims
decode_local_admin_token host ts token signing_key =
    if token == ""
    then err local_token
    else checked_scope (host.jwt_decode ts token signing_key local_audience local_issuer)

-- `peek_unverified_issuer(token) == LOCAL_ISSUER`
unfoldable pub claims_local_issuer : Host → String → Bool
claims_local_issuer host token =
    if token == ""
    then false
    else elim (host.jwt_issuer token) [ none ↦ false | some iss ↦ iss == local_issuer ]

-- auth/identity_provider.py, as far as the surfaces read it
pub record IdentityProvider : Type 0 where
  pub issuer : String
  pub admin_role : String

-- What `decode_and_verify` and `extract_realm_roles` give of a token.
pub record SiamClaims : Type 0 where
  pub sub : String
  pub preferred_username : String
  pub realm_roles : List String

-- `except InvalidTokenError: raise HTTPException(401)`, and the same for a LocalTokenError
unfoldable pub or_unauthorized {ℓ} : {A : Type ℓ} → Result A → Result A
or_unauthorized (ok a) = ok a
or_unauthorized (err invalid_token) = err unauthorized
or_unauthorized (err local_token) = err unauthorized
or_unauthorized (err e) = err e

module _ (arcade : Arcade) (host : Host) (provider : IdentityProvider)
    (decode_and_verify : String → Hub arcade SiamClaims) where
  -- `_verify_local_token`
  unfoldable pub verify_local_token : String → String → Hub arcade CurrentUser
  unfolding decode_local_admin_token or_unauthorized
  verify_local_token token signing_key = do
    ts ← now arcade host
    claims ← lift (or_unauthorized (decode_local_admin_token host ts token signing_key))
    pure (record {
      sub = claims.sub;
      username = claims.preferred_username;
      realm_roles = List.[];
      identity_source = local_issuer;
    })

  -- the `try` of `_verify_siam_token`
  abbrev pub accepted_claims : String → Hub arcade SiamClaims
  accepted_claims token w = let (r, w') = decode_and_verify token w in (or_unauthorized r, w')

  -- the user that the claims make
  abbrev pub siam_user : SiamClaims → CurrentUser
  siam_user claims = record {
    sub = claims.sub;
    username = claims.preferred_username;
    realm_roles = claims.realm_roles;
    identity_source = provider.issuer;
  }

  -- `_verify_siam_token`
  unfoldable pub verify_siam_token : String → Hub arcade CurrentUser
  unfolding or_unauthorized
  verify_siam_token token = do claims ← accepted_claims token; pure (siam_user claims)

  unfoldable pub verify_user_surface_token : String → Hub arcade CurrentUser
  unfolding verify_siam_token claims_local_issuer
  verify_user_surface_token token =
      if claims_local_issuer host token then raise unauthorized else verify_siam_token token

  abbrev verify_with : String → Option String → Hub arcade CurrentUser
  verify_with token none = raise unauthorized
  verify_with token (some signing_key) = verify_local_token token signing_key

  -- the key is none where the Hub has no local admin path
  unfoldable pub verify_admin_surface_token : Option String → String → Hub arcade CurrentUser
  unfolding verify_local_token verify_siam_token claims_local_issuer
  verify_admin_surface_token signing_key token =
      if claims_local_issuer host token
      then verify_with token signing_key
      else verify_siam_token token

  abbrev pub is_pending : DisableState → Bool
  is_pending pending = true
  is_pending _ = false

  abbrev pub disable_once : Option Settings → String → Hub arcade Unit
  disable_once none siam_username = modify (λ w. record w { disable_state = no_local_admin })
  disable_once (some settings) siam_username = do
    transitioned ← disable_on_siam_admin_login arcade host settings siam_username
    modify (λ w. record w {
      disable_state = if transitioned then disabled_now else disabled_or_absent;
    })

  -- `_maybe_auto_disable_local_admin`; the service is none where the path is not configured
  unfoldable pub maybe_auto_disable_local_admin : Option Settings → String → Hub arcade Unit
  maybe_auto_disable_local_admin service siam_username = do
    state ← gets (λ w. w.disable_state)
    if not (is_pending state) then pure tt else disable_once service siam_username

  -- `require_admin` once the token is verified
  unfoldable pub admit : Option Settings → CurrentUser → Hub arcade CurrentUser
  unfolding maybe_auto_disable_local_admin
  admit service user = if user.identity_source == local_issuer then pure user else do
    raise_if (not (any (λ r. r == provider.admin_role) user.realm_roles)) forbidden
    maybe_auto_disable_local_admin service user.username
    pure user

  unfoldable pub require_admin : Option Settings → Option String → String → Hub arcade CurrentUser
  unfolding verify_admin_surface_token admit
  require_admin service signing_key token = do
    user ← verify_admin_surface_token signing_key token
    admit service user

  -- `require_realm_role(role)` on the user surface
  unfoldable pub require_realm_role : String → String → Hub arcade CurrentUser
  unfolding verify_user_surface_token
  require_realm_role role token = do
    user ← verify_user_surface_token token
    raise_if (not (any (λ r. r == role) user.realm_roles)) forbidden
    pure user
