-- ===== src/Auth/Jwt.antt =====
-- auth/jwt.py: `decode_and_verify`, and the claims that `_verify_siam_token` takes from it.
use lehen.Prelude.{
  ℕ, String, Bool, true, false, Option, none, some, List, [], ◌∷◌, ◌&&◌, any, not, ◌==◌,
  if◌then◌else◌,
}
use lehen.Prelude.Effects.{ok, err, invalid_token, pure, raise_if, or_raise, ◌>>=◌, ◌>>◌}
use lehen.Arcade.{Arcade}
use lehen.Hub.{Jwk, Hub, Host, now}
use lehen.Auth.Jwks.{JwksTimes, JwksEndpoint, get_keys, invalidate}
use lehen.Auth.Providers.{Provider, TokenClaims, audience, accepted_issuers, extract_realm_roles}
use lehen.Auth.Surfaces.{SiamClaims}

-- jose: `get_unverified_header(token)`, none where it raises, with the `kid`, the empty text where
-- there is none; and `decode` at a reading of the clock under a key, for an audience and the one
-- issuer to verify, if any: none where it raises.
pub record Jose : Type 0 where
  pub header_kid : String → Option String
  pub decode : ℕ → String → Jwk → String → Option String → Option TokenClaims

-- k.get("kid") == kid
abbrev pub has_kid : String → Jwk → Bool
has_kid kid key = elim key.kid [ none ↦ false | some k ↦ k == kid ]

-- next((k for k in keys if ...), None)
unfoldable pub key_by_kid : String → List Jwk → Option Jwk
key_by_kid kid [] = none
key_by_kid kid (k ∷ ks) = if has_kid kid k then some k else key_by_kid kid ks

-- issuers[0] if len(issuers) == 1 else None
abbrev pub only_issuer : List String → Option String
only_issuer [] = none
only_issuer (i ∷ []) = some i
only_issuer (i ∷ j ∷ rest) = none

-- len(issuers) > 1
abbrev pub several : List String → Bool
several [] = false
several (i ∷ []) = false
several (i ∷ j ∷ rest) = true

module _ (arcade : Arcade) (host : Host) (jose : Jose) (times : JwksTimes)
    (endpoint : JwksEndpoint) where
  -- `except JWKSFetchError: raise InvalidTokenError`
  abbrev pub keys_or_invalid : Hub arcade (List Jwk)
  keys_or_invalid w =
      let (r, w') = get_keys arcade host times endpoint w in
      (elim r [ ok keys ↦ ok keys | err e ↦ err invalid_token ], w')

  -- one invalidation of the cache, in case the provider rotated its keys
  abbrev pub found_or_retried : String → Option Jwk → Hub arcade Jwk
  found_or_retried kid (some key) = pure key
  found_or_retried kid none = do
    invalidate arcade
    keys ← keys_or_invalid
    or_raise (key_by_kid kid keys) invalid_token

  unfoldable pub key_for : String → Hub arcade Jwk
  unfolding get_keys invalidate key_by_kid
  key_for kid = do keys ← keys_or_invalid; found_or_retried kid (key_by_kid kid keys)

  -- from the key on
  unfoldable pub verify_with_key : String → String → List String → Jwk → Hub arcade TokenClaims
  verify_with_key token expected_audience issuers key = do
    ts ← now arcade host
    claims ←
        or_raise (jose.decode ts token key expected_audience (only_issuer issuers)) invalid_token
    raise_if (several issuers && not (any (λ i. i == claims.iss) issuers)) invalid_token
    pure claims

  unfoldable pub decode_and_verify : String → String → List String → Hub arcade TokenClaims
  unfolding key_for verify_with_key
  decode_and_verify token expected_audience issuers = do
    raise_if (token == "") invalid_token
    kid ← or_raise (jose.header_kid token) invalid_token
    raise_if (kid == "") invalid_token
    key ← key_for kid
    verify_with_key token expected_audience issuers key

  -- what `_verify_siam_token` reads
  abbrev pub siam_claims : Provider → TokenClaims → SiamClaims
  siam_claims provider claims = record {
    sub = claims.sub;
    preferred_username = claims.preferred_username;
    realm_roles = extract_realm_roles provider claims;
  }

  unfoldable pub verified_siam_claims : Provider → String → Hub arcade SiamClaims
  unfolding decode_and_verify audience accepted_issuers extract_realm_roles
  verified_siam_claims provider token = do
    claims ← decode_and_verify token (audience provider) (accepted_issuers provider)
    pure (siam_claims provider claims)
