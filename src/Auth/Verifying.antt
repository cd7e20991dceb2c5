-- ===== src/Auth/Verifying.antt =====
-- Whom `decode_and_verify` lets through.
use mathlib.Core.List.{Memᴰ}
use lehen.Prelude.{
  ℕ, ◌+◌, ◌≤◌, ltb, String, true, false, Option, some, List, ◌≡◌, refl, subst, ◌⊎◌, ◌&&◌, any, not,
  arith, ◌==◌, eq_refl, inl, inr, Bool-cases, Option-cases,
}
use lehen.Prelude.Effects.{
  ok, invalid_token, pure, raise_if, or_raise, is_ok, OnOk, After, After-bind, After-map,
  After-raise_if, After-or_raise, ◌>>=◌, ◌>>◌,
}
use lehen.Arcade.{Arcade}
use lehen.Hub.{Jwk, LocalClaims, World, Hub, Host}
use lehen.Auth.Jwks.{JwksTimes, JwksEndpoint}
use lehen.Auth.Serving.{IsServed, IsServed-later, IsKey, key_for-IsKey}
use lehen.Auth.Providers.{
  Provider, keycloak, entra, TokenClaims, issuer, admin_role, audience, accepted_issuers,
  extract_realm_roles,
}
use lehen.LocalAdmin.Service.{Settings}
use lehen.Auth.Surfaces.{
  IdentityProvider, SiamClaims, local_issuer, decode_local_admin_token, require_admin,
}
use lehen.Auth.Entry.{require_admin_sound}
use lehen.Auth.Jwt.{
  Jose, has_kid, only_issuer, several, key_for, verify_with_key, decode_and_verify, siam_claims,
  verified_siam_claims,
}

-- A token that jose decodes for one issuer is from that issuer.
abbrev pub IssuerLaw : Jose → Type 0
IssuerLaw jose =
    (ts : ℕ) (token aud iss : String) (key : Jwk) (claims : TokenClaims)
    → jose.decode ts token key aud (some iss) ≡ some claims
    → claims.iss ≡ iss

module _ (arcade : Arcade) (host : Host) (jose : Jose) (times : JwksTimes)
    (endpoint : JwksEndpoint) where
  -- What `decode_and_verify` has made sure of when it returns claims, from one state to the next: the
  -- key is one that was served in between, and the token decodes at the last reading of the clock.
  abbrev pub IsVerified :
      World arcade → String → String → List String → TokenClaims → World arcade → Type 0
  IsVerified w token aud issuers claims v =
      (kid : String) × (keys : List Jwk) × (key : Jwk) × (n : ℕ) × (jose.header_kid token
        ≡ some kid)
      × IsServed arcade host jose times endpoint w v keys
      × Memᴰ key keys
      × (has_kid kid key ≡ true)
      × (w.readings ≤ n)
      × (v.readings ≡ n + 1)
      × (jose.decode (host.clock n) token key aud (only_issuer issuers) ≡ some claims)
      × ((several issuers && not (any (λ i. i == claims.iss) issuers)) ≡ false)

  -- What is made sure of from the key on.
  abbrev IsDecoded :
      String → String → List String → Jwk → World arcade → TokenClaims → World arcade → Type 0
  IsDecoded token aud issuers key t claims v =
      (v.readings ≡ t.readings + 1)
      × (jose.decode (host.clock t.readings) token key aud (only_issuer issuers) ≡ some claims)
      × ((several issuers && not (any (λ i. i == claims.iss) issuers)) ≡ false)

  verify_with_key-IsDecoded :
      (token aud : String) (issuers : List String) (key : Jwk) (t : World arcade)
      → After
          (IsDecoded token aud issuers key t)
          (verify_with_key arcade host jose times endpoint token aud issuers key t)
  unfolding verify_with_key
  verify_with_key-IsDecoded token aud issuers key t =
      let answer = jose.decode (host.clock t.readings) token key aud (only_issuer issuers) in
      elim (Option-cases answer) [
        | inl failed ↦ rw failed tt
        | inr (claims, decoded) ↦
            let outside = several issuers && not (any (λ i. i == claims.iss) issuers) in
            elim (Bool-cases outside) [
              | inl foreign ↦ rw (decoded, foreign) tt
              | inr inside ↦ rw (decoded, inside) (refl, refl, inside)
            ]
      ]

  decode_and_verify-IsVerified :
      (token aud : String) (issuers : List String) (w : World arcade)
      → After
          (IsVerified w token aud issuers)
          (decode_and_verify arcade host jose times endpoint token aud issuers w)
  unfolding decode_and_verify
  decode_and_verify-IsVerified token aud issuers w =
      let P = IsVerified w token aud issuers in
      let verify = verify_with_key arcade host jose times endpoint token aud issuers in
      let keyed : String → Hub arcade TokenClaims =
        λ kid. key_for arcade host jose times endpoint kid >>= verify in
      let named : String → Hub arcade TokenClaims =
        λ kid. raise_if (kid == "") invalid_token >> keyed kid in
      After-raise_if P (token == "") invalid_token
        (or_raise (jose.header_kid token) invalid_token >>= named) w
        (λ _. After-or_raise P (jose.header_kid token) invalid_token named w (λ kid header.
          After-raise_if P (kid == "") invalid_token (keyed kid) w (λ _.
            After-bind (IsKey arcade host jose times endpoint w kid) P
              (key_for arcade host jose times endpoint kid) verify w
              (key_for-IsKey arcade host jose times endpoint kid w)
              (λ key t (keys, served, there, has, later).
                After-map (IsDecoded token aud issuers key t) P (verify key t)
                  (λ claims (ticked, decoded, inside). (
                    kid,
                    keys,
                    key,
                    t.readings,
                    header,
                    IsServed-later arcade host jose times endpoint w t (verify key t).1 keys
                        (omega (arith, ticked)) served,
                    there,
                    has,
                    later,
                    ticked,
                    decoded,
                    inside,
                  ))
                  (verify_with_key-IsDecoded token aud issuers key t)))))

  -- The issuer of the claims is one that the provider's tokens may carry.
  IsVerified-issuer :
      (provider : Provider) (token aud : String) (claims : TokenClaims) (w v : World arcade)
      → IssuerLaw jose
      → IsVerified w token aud (accepted_issuers provider) claims v
      → any (λ i. i == claims.iss) (accepted_issuers provider) ≡ true
  unfolding accepted_issuers
  IsVerified-issuer (keycloak s) token aud claims w v law
        (kid, keys, key, n, _, _, _, _, _, _, accepted, _) =
      let iss = law (host.clock n) token aud _ key claims accepted in
      rw iss (ground (arith, eq_refl claims.iss))
  IsVerified-issuer (entra s) token aud claims w v law
        (kid, keys, key, n, _, _, _, _, _, _, _, inside) =
      ground (arith, inside)

  abbrev IsVerifiedUser : Provider → String → World arcade → SiamClaims → World arcade → Type 0
  IsVerifiedUser provider token w made v =
      (claims : TokenClaims) × IsVerified w token (audience provider) (accepted_issuers provider)
        claims v
      × (made ≡ siam_claims arcade host jose times endpoint provider claims)

  verified_siam_claims-IsVerified :
      (provider : Provider) (token : String) (w : World arcade)
      → After
          (IsVerifiedUser provider token w)
          (verified_siam_claims arcade host jose times endpoint provider token w)
  unfolding verified_siam_claims
  verified_siam_claims-IsVerified provider token w =
      After-bind (IsVerified w token (audience provider) (accepted_issuers provider))
        (IsVerifiedUser provider token w)
        (decode_and_verify arcade host jose times endpoint token (audience provider)
          (accepted_issuers provider))
        (λ claims. pure (siam_claims arcade host jose times endpoint provider claims)) w
        (decode_and_verify-IsVerified token (audience provider) (accepted_issuers provider) w)
        (λ claims t verified. (claims, verified, refl))

  -- the two fields of the provider that the surfaces read
  abbrev pub surface_view : Provider → IdentityProvider
  surface_view provider = record { issuer = issuer provider; admin_role = admin_role provider }

  -- Where the provider's issuer is not the name of the Hub's own and jose verifies the issuer that
  -- it is given, whoever the admin surface lets in has a local token that decodes under the Hub's
  -- own key, or a token that jose decodes for the provider's audience, at the last reading of the
  -- clock that its verification makes, under a key with the id that the token's header names, from
  -- an issuer that the provider accepts, with the admin role among the roles in its claims. That key
  -- is one of the keys that the provider's endpoint answered during the verification, or of those in
  -- the cache when it began, which were then within their time to live.
  pub require_admin_verified :
      (provider : Provider) (service : Option Settings) (signing_key : Option String)
      (token : String) (w : World arcade)
      → IssuerLaw jose
      → (issuer provider == local_issuer) ≡ false
      → is_ok
          (require_admin arcade host
            (surface_view provider)
            (verified_siam_claims arcade host jose times endpoint provider)
            service
            signing_key
            token
            w).0
        ≡ true
      → let v = (verified_siam_claims arcade host jose times endpoint provider token w).1 in
        ((key : String) × (claims : LocalClaims) × (signing_key ≡ some key)
          × (decode_local_admin_token host (host.clock w.readings) token key ≡ ok claims))
        ⊎ ((kid : String) × (keys : List Jwk) × (key : Jwk) × (n : ℕ) × (claims : TokenClaims)
            × (jose.header_kid token ≡ some kid)
            × (((m : ℕ) × (w.readings ≤ m)
                  × (m ≤ v.readings)
                  × (w.jwks.keys ≡ some keys)
                  × (ltb (host.monotonic m) (w.jwks.fetched_at + times.ttl) ≡ true))
                ⊎ ((m : ℕ) × (w.readings ≤ m) × (m ≤ v.readings) × (endpoint m ≡ some (some keys))))
            × Memᴰ key keys
            × (has_kid kid key ≡ true)
            × (w.readings ≤ n)
            × (v.readings ≡ n + 1)
            × (jose.decode
                  (host.clock n)
                  token
                  key
                  (audience provider)
                  (only_issuer (accepted_issuers provider))
                ≡ some claims)
            × (any (λ i. i == claims.iss) (accepted_issuers provider) ≡ true)
            × (any (λ r. r == admin_role provider) (extract_realm_roles provider claims) ≡ true))
  require_admin_verified provider service signing_key token w law foreign h =
      let verifier = verified_siam_claims arcade host jose times endpoint provider in
      let v = (verifier token w).1 in
      elim (require_admin_sound arcade host (surface_view provider) verifier signing_key token w
        service foreign h) [
          | inl local ↦ inl local
          | inr (made, gave, role) ↦
              let (claims, verified, same) =
                subst (OnOk (λ m. IsVerifiedUser provider token w m v)) gave
                  (verified_siam_claims-IsVerified provider token w) in
              let (kid, keys, key, n, header, served, there, has, later, ticked, accepted, _) =
                verified in
              inr (
                kid,
                keys,
                key,
                n,
                claims,
                header,
                served,
                there,
                has,
                later,
                ticked,
                accepted,
                IsVerified-issuer provider token (audience provider) claims w v law verified,
                subst (λ m. any (λ r. r == admin_role provider) m.realm_roles ≡ true) same role,
              )
        ]
