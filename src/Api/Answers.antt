-- ===== src/Api/Answers.antt =====
-- What a successful answer of the endpoints of a user's connections means.
use mathlib.Core.Bool.{false≢true}
use lehen.Prelude.{
  ℕ, String, Bool, true, false, Option, none, some, ◌≡◌, refl, sym, ap, ◌∙◌, inl, inr, Bool-cases,
}
use lehen.Prelude.Effects.{
  Result, ok, err, HubError, unauthorized, is_ok, Result-cases, pure, bind_ok, bind_err,
}
use lehen.Arcade.{Arcade}
use lehen.Hub.{Bytes, CurrentUser, IntegrationInstance, World, Hub, Host}
use lehen.Auth.Surfaces.{
  IdentityProvider, SiamClaims, claims_local_issuer, accepted_claims, verify_siam_token, siam_user,
  verify_user_surface_token,
}
use lehen.Auth.Entry.{or_unauthorized-ok}
use lehen.Oauth.State.{OAuthFlowState, decode_state, default_state_max_age_seconds}
use lehen.Oauth.Tokens.{Network}
use lehen.Connections.Rows.{fetch_instance, is_siam_authorized}
use lehen.Connections.Flow.{complete_grant}
use lehen.Connections.Completed.{complete_grant_sound}
use lehen.Api.Connections.{
  Response, succeeded, failed, answered, after_surface, complete_status,
  complete_grant_my_connection,
}

abbrev pub is_succeeded : {A : Type 0} → Response A → Bool
is_succeeded (succeeded a) = true
is_succeeded _ = false

is_succeeded-failed : (A : Type 0) (n : Option ℕ) → is_succeeded (failed {A = A} n) ≡ false
is_succeeded-failed A none = refl
is_succeeded-failed A (some n) = refl

is_succeeded-answered :
    {A : Type 0} (status : HubError → Option ℕ) (r : Result A)
    → is_succeeded (answered status r) ≡ true
    → is_ok r ≡ true
is_succeeded-answered status (ok a) h = refl
is_succeeded-answered status (err e) h =
    absurd (false≢true (sym (is_succeeded-failed _ (status e)) ∙ h))

module _ (arcade : Arcade) (host : Host) (provider : IdentityProvider)
    (verifier : String → Hub arcade SiamClaims) where
  is_succeeded-after_surface :
      {A : Type 0} (seen : Result CurrentUser × World arcade) (call : CurrentUser → Hub arcade A)
      (status : HubError → Option ℕ)
      → is_succeeded (after_surface arcade host provider verifier seen call status).0 ≡ true
      → (user : CurrentUser) × (v : World arcade) × (seen ≡ (ok user, v))
        × (is_ok (call user v).0 ≡ true)
  is_succeeded-after_surface (ok user, v) call status h =
      (user, v, refl, is_succeeded-answered status (call user v).0 h)
  is_succeeded-after_surface (err e, v) call status h =
      absurd (false≢true (sym (is_succeeded-failed _ _) ∙ h))

  -- On the user surface a token is not a local one, and its claims were verified.
  abbrev pub IsSiamUser : String → World arcade → CurrentUser → World arcade → Type 0
  IsSiamUser token w user v =
      (claims_local_issuer host token ≡ false)
      × ((claims : SiamClaims) × ((verifier token w).0 ≡ ok claims)
          × (v ≡ (verifier token w).1)
          × (user ≡ siam_user arcade host provider verifier claims))

  verify_user_surface_token-IsSiamUser :
      (token : String) (w : World arcade) (user : CurrentUser) (v : World arcade)
      → verify_user_surface_token arcade host provider verifier token w ≡ (ok user, v)
      → IsSiamUser token w user v
  unfolding verify_user_surface_token verify_siam_token
  verify_user_surface_token-IsSiamUser token w user v h =
      let accept = accepted_claims arcade host provider verifier token in
      let made =
        λ (c : SiamClaims). pure {S = World arcade} (siam_user arcade host provider verifier c) in
      elim (Bool-cases (claims_local_issuer host token)) [
        | inl local ↦
            let e : err unauthorized ≡ ok user = ap (λ x. x.0) (rw local at h) in absurd (cc e)
        | inr other ↦
            let k : verify_siam_token arcade host provider verifier token w ≡ (ok user, v) =
              rw other at h in
            elim (Result-cases (accept w).0) [
              | inl (claims, good) ↦
                  let e = sym (bind_ok accept made w good) ∙ k in
                  let u : ok (siam_user arcade host provider verifier claims) ≡ ok user =
                    ap (λ x. x.0) e in
                  (other, (claims, or_unauthorized-ok _ good, sym (ap (λ x. x.1) e), cc u))
              | inr (x, bad) ↦
                  let e : err x ≡ ok user = ap (λ x. x.0) (sym (bind_err accept made w bad) ∙ k) in
                  absurd (cc e)
            ]
      ]

  module _ (days : ℕ) (master_key state_key : Bytes) (network : Network)
      (token instance_id code state : String) (request_id : Option String) (w : World arcade) where
    -- A successful answer to the completion of a flow was given to a user whose claims were
    -- verified, with a token that is not a local one; the state decodes and names that user and the
    -- instance of the path, and the instance exists, is enabled and is mapped to a role of the user.
    pub complete_grant_my_connection_sound :
        is_succeeded
            (complete_grant_my_connection arcade host provider verifier days master_key state_key
              (some network)
              token
              instance_id
              code
              state
              request_id
              w).0
          ≡ true
        → (user : CurrentUser) × (v : World arcade) × (flow : OAuthFlowState)
          × (row : IntegrationInstance) × IsSiamUser token w user v
          × ((decode_state arcade host state_key default_state_max_age_seconds state v).0 ≡ ok flow)
          × (flow.user_sub ≡ user.sub)
          × (flow.instance_id ≡ instance_id)
          × (fetch_instance arcade instance_id v ≡ some row)
          × (row.enabled ≡ true)
          × (is_siam_authorized arcade user instance_id v ≡ true)
    unfolding complete_grant_my_connection
    complete_grant_my_connection_sound h =
        let (user, v, seen, done) =
          is_succeeded-after_surface
            (verify_user_surface_token arcade host provider verifier token w)
            (λ user.
              complete_grant arcade host network days master_key state_key user instance_id code
                state request_id)
            complete_status h in
        let (
          flow, row, c, decoded, own, path, found, on, mapped, fresh, returned, inserted, active,
          only,
        ) =
          complete_grant_sound arcade host network days master_key state_key user instance_id code
            state request_id v done in
        (
          user,
          v,
          flow,
          row,
          verify_user_surface_token-IsSiamUser token w user v seen,
          decoded,
          own,
          path,
          found,
          on,
          mapped,
        )
