-- ===== src/Auth/Entry.antt =====
-- What the surfaces of auth/dependencies.py let in.
use Prim.Native.Nat.{◌/◌}
use mathlib.Core.Bool.{false≢true}
use lehen.Prelude.{
  subst, inl, inr, ◌⊎◌, Bool-cases, Option-cases, ◌∙◌, arith, sym, any, false, ℕ, ◌+◌, String, true,
  false, Option, some, List, ◌≡◌, refl, ◌==◌, ap,
}
use lehen.Prelude.Effects.{
  is_ok, pure, Result, HubError, Result-cases, bind_ok, bind_err, bind_eq, ok, err, unauthorized,
}
use lehen.Arcade.{Arcade}
use lehen.Hub.{CurrentUser, LocalClaims, World, Hub, Host, second}
use lehen.LocalAdmin.Service.{Settings, issue_local_admin_token}
use lehen.Auth.Surfaces.{
  verify_siam_token, accepted_claims, siam_user, IdentityProvider, SiamClaims, local_issuer,
  local_audience, decode_local_admin_token, claims_local_issuer, or_unauthorized,
  verify_local_token, verify_user_surface_token, verify_admin_surface_token, require_admin, admit,
}

-- The claims of a token that was issued at some reading of the clock.
abbrev pub claims_of : String → ℕ → ℕ → LocalClaims
claims_of username ttl issued = record {
  sub = username;
  preferred_username = username;
  iss = local_issuer;
  aud = local_audience;
  scope = "admin";
  iat = issued / second;
  exp = issued / second + ttl;
}

-- What jose promises of one token at one time: its issuer can be read, and it decodes to the claims
-- that it was made from, under the key that it was made with, for their audience and issuer.
pub record JwtLaws (host : Host) (ts : ℕ) (claims : LocalClaims) (key : String) : Type 0 where
  pub nonempty : (host.jwt_encode claims key == "") ≡ false
  pub issuer : host.jwt_issuer (host.jwt_encode claims key) ≡ some claims.iss
  pub decodes :
      host.jwt_decode ts (host.jwt_encode claims key) key claims.aud claims.iss ≡ some claims

module _ (arcade : Arcade) (host : Host) (provider : IdentityProvider)
    (decode_and_verify : String → Hub arcade SiamClaims) (service : Option Settings)
    (key username : String) (ttl issued : ℕ) (w : World arcade)
    (laws : JwtLaws host (host.clock w.readings) (claims_of username ttl issued) key) where
  abbrev token : String
  token = issue_local_admin_token host username key ttl issued

  abbrev local_admin : CurrentUser
  local_admin = record {
    sub = username;
    username = username;
    realm_roles = List.[];
    identity_source = local_issuer;
  }

  token-decodes :
      decode_local_admin_token host (host.clock w.readings) token key
      ≡ ok (claims_of username ttl issued)
  unfolding issue_local_admin_token decode_local_admin_token
  token-decodes = rw (laws.nonempty, laws.decodes) refl

  token-is_local : claims_local_issuer host token ≡ true
  unfolding issue_local_admin_token claims_local_issuer
  token-is_local = rw (laws.nonempty, laws.issuer) refl

  abbrev after : World arcade
  after = record w { readings = w.readings + 1 }

  token-verifies :
      verify_admin_surface_token arcade host provider decode_and_verify (some key) token w
      ≡ (ok local_admin, after)
  unfolding verify_admin_surface_token verify_local_token or_unauthorized
  token-verifies = rw (token-is_local, token-decodes) refl

  -- A token that a local login issued, for which jose keeps its promises at the time of the
  -- call (it has not expired), is let in on the admin surface as the local admin, and refused
  -- on the user surface without any change.
  pub issued_token_surfaces :
      let issued_token = issue_local_admin_token host username key ttl issued in
      let (r, w') =
        require_admin arcade host provider decode_and_verify service (some key) issued_token w in
      (r
        ≡ ok (record {
          sub = username;
          username = username;
          realm_roles = List.[];
          identity_source = local_issuer;
        }))
      × (verify_user_surface_token arcade host provider decode_and_verify issued_token w
          ≡ (err unauthorized, w))
  unfolding require_admin admit verify_user_surface_token
  issued_token_surfaces = (
    ap (λ x. x.0)
        (bind_eq
          (verify_admin_surface_token arcade host provider decode_and_verify (some key) token)
          (admit arcade host provider decode_and_verify service) w token-verifies),
    rw token-is_local refl,
  )

or_unauthorized-err : (A : Type 0) (e : HubError) → is_ok (or_unauthorized {A = A} (err e)) ≡ false
unfolding or_unauthorized
or_unauthorized-err A e = ground arith

-- Only a result that is one passes.
pub or_unauthorized-ok : {A : Type 0} (r : Result A) {a : A} → or_unauthorized r ≡ ok a → r ≡ ok a
unfolding or_unauthorized
or_unauthorized-ok (ok b) h = h
or_unauthorized-ok {A} (err e) h = absurd (false≢true (sym (or_unauthorized-err A e) ∙ ap is_ok h))

module _ (arcade : Arcade) (host : Host) (provider : IdentityProvider)
    (decode_and_verify : String → Hub arcade SiamClaims) (signing_key : Option String)
    (token : String) (w : World arcade) where
  abbrev verified : Result CurrentUser × World arcade
  verified = verify_admin_surface_token arcade host provider decode_and_verify signing_key token w

  -- A local token that decodes under the Hub's key.
  abbrev IsLocal : Type 0
  IsLocal =
      (key : String) × (claims : LocalClaims) × (signing_key ≡ some key)
      × (decode_local_admin_token host (host.clock w.readings) token key ≡ ok claims)

  -- A token that the provider's verification accepts, with this user.
  abbrev IsSiam : CurrentUser → Type 0
  IsSiam user =
      (claims : SiamClaims) × ((decode_and_verify token w).0 ≡ ok claims)
      × (user.identity_source ≡ provider.issuer)
      × (user.realm_roles ≡ claims.realm_roles)

  verified-IsLocal : is_ok verified.0 ≡ true → claims_local_issuer host token ≡ true → IsLocal
  unfolding verify_admin_surface_token verify_local_token or_unauthorized
  verified-IsLocal h own = elim (Option-cases signing_key) [
    | inl missing ↦ absurd (false≢true (rw (own, missing) at h))
    | inr (key, there) ↦
        let r : Result LocalClaims =
          or_unauthorized (decode_local_admin_token host (host.clock w.readings) token key) in
        elim (Result-cases r) [
          | inl (claims, good) ↦ (key, claims, there, or_unauthorized-ok _ good)
          | inr (x, bad) ↦ absurd (false≢true (rw (own, there, bad) at h))
        ]
  ]

  verified-IsSiam :
      (user : CurrentUser)
      → verified.0 ≡ ok user
      → claims_local_issuer host token ≡ false
      → IsSiam user
  unfolding verify_admin_surface_token verify_siam_token
  verified-IsSiam user h other =
      let accept = accepted_claims arcade host provider decode_and_verify token in
      let made = λ (c : SiamClaims).
        pure {S = World arcade} (siam_user arcade host provider decode_and_verify c) in
      let k : (verify_siam_token arcade host provider decode_and_verify token w).0 ≡ ok user =
        rw other at h in
      elim (Result-cases (accept w).0) [
        | inl (claims, good) ↦
            let e : ok (siam_user arcade host provider decode_and_verify claims) ≡ ok user =
              ap (λ x. x.0) (sym (bind_ok accept made w good)) ∙ k in
            (claims, or_unauthorized-ok _ good, cc, cc)
        | inr (x, bad) ↦
            let e : err x ≡ ok user = ap (λ x. x.0) (sym (bind_err accept made w bad)) ∙ k in
            absurd (cc e)
      ]

  -- Where the provider's issuer is not the name of the Hub's own, whoever the admin surface
  -- lets in has a local token that decodes under the Hub's own key, or a token that the
  -- provider's verification accepts with the admin role among its roles.
  pub require_admin_sound :
      (service : Option Settings)
      → (provider.issuer == local_issuer) ≡ false
      → is_ok (require_admin arcade host provider decode_and_verify service signing_key token w).0
        ≡ true
      → ((key : String) × (claims : LocalClaims) × (signing_key ≡ some key)
          × (decode_local_admin_token host (host.clock w.readings) token key ≡ ok claims))
        ⊎ ((claims : SiamClaims) × ((decode_and_verify token w).0 ≡ ok claims)
            × (any (λ r. r == provider.admin_role) claims.realm_roles ≡ true))
  unfolding require_admin admit
  require_admin_sound service foreign h =
      let verify =
        verify_admin_surface_token arcade host provider decode_and_verify signing_key token in
      let let_in = admit arcade host provider decode_and_verify service in
      elim (Result-cases verified.0) [
        | inr (x, e) ↦
            absurd (false≢true (ap (λ y. is_ok y.0) (sym (bind_err verify let_in w e)) ∙ h))
        | inl (user, e) ↦ elim (Bool-cases (claims_local_issuer host token)) [
          | inl own ↦ inl (verified-IsLocal (rw e refl) own)
          | inr other ↦
              let (claims, accepted, source, roles) = verified-IsSiam user e other in
              let k : is_ok (let_in user verified.1).0 ≡ true =
                ap (λ y. is_ok y.0) (sym (bind_ok verify let_in w e)) ∙ h in
              let abroad : (user.identity_source == local_issuer) ≡ false = rw source foreign in
              elim (Bool-cases (any (λ r. r == provider.admin_role) user.realm_roles)) [
                | inl has ↦ inr (
                  claims,
                  accepted,
                  subst (λ l. any (λ r. r == provider.admin_role) l ≡ true) roles has,
                )
                | inr lacks ↦ absurd (false≢true (rw (abroad, lacks) at k))
              ]
        ]
      ]
