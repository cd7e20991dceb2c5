-- ===== src/Api/Connections.antt =====
-- The endpoints of api/me_connections.py that change the state. A response is what was created, or
-- the status of an HTTPException; an exception that no handler names is a server error. The bodies
-- are the ones that pydantic let through.
use lehen.Prelude.{ℕ, String, Option, none, some, List}
use lehen.Prelude.Effects.{
  Result, ok, err, HubError, unauthorized, forbidden, connection_already_exists,
  connection_not_found, integration_disabled, integration_not_authorized_for_role,
  redirect_uri_not_allowed, oauth_flow_config, oauth_state, oauth_exchange, source_adapter,
  source_adapter_not_implemented,
}
use lehen.Arcade.{Arcade}
use lehen.Hub.{Bytes, Connection, CurrentUser, World, Hub, Host}
use lehen.Auth.Surfaces.{IdentityProvider, SiamClaims, verify_user_surface_token}
use lehen.Oauth.State.{OAuthAuthorizationRequest}
use lehen.Oauth.Tokens.{Network}
use lehen.Connections.Grant.{grant, revoke}
use lehen.Connections.Flow.{initiate_grant, complete_grant}

pub data Response (A : Type 0) : Type 0 where
  succeeded : A → Response A
  http_error : ℕ → Response A
  server_error : Response A

-- The statuses of the dependency that verifies the token.
abbrev pub surface_status : HubError → Option ℕ
surface_status unauthorized = some 401
surface_status forbidden = some 403
surface_status _ = none

-- The except clauses of the handlers.
abbrev pub grant_status : HubError → Option ℕ
grant_status connection_not_found = some 404
grant_status integration_not_authorized_for_role = some 403
grant_status integration_disabled = some 409
grant_status connection_already_exists = some 409
grant_status _ = none

abbrev pub revoke_status : HubError → Option ℕ
revoke_status connection_not_found = some 404
revoke_status _ = none

abbrev pub initiate_status : HubError → Option ℕ
initiate_status connection_not_found = some 404
initiate_status integration_not_authorized_for_role = some 403
initiate_status integration_disabled = some 409
initiate_status redirect_uri_not_allowed = some 400
initiate_status oauth_flow_config = some 409
initiate_status source_adapter_not_implemented = some 501
initiate_status _ = none

abbrev pub complete_status : HubError → Option ℕ
complete_status oauth_state = some 400
complete_status connection_not_found = some 404
complete_status integration_not_authorized_for_role = some 403
complete_status integration_disabled = some 409
complete_status connection_already_exists = some 409
complete_status oauth_flow_config = some 409
complete_status oauth_exchange = some 502
complete_status source_adapter = some 502
complete_status source_adapter_not_implemented = some 501
complete_status _ = none

abbrev pub failed : {A : Type 0} → Option ℕ → Response A
failed none = server_error
failed (some n) = http_error n

abbrev pub answered : {A : Type 0} → (HubError → Option ℕ) → Result A → Response A
answered status (ok a) = succeeded a
answered status (err e) = failed (status e)

module _ (arcade : Arcade) (host : Host) (provider : IdentityProvider)
    (decode_and_verify : String → Hub arcade SiamClaims) where
  -- A handler after its dependency `CurrentUserDep`.
  abbrev pub after_surface :
      {A : Type 0}
      → Result CurrentUser × World arcade
      → (CurrentUser → Hub arcade A)
      → (HubError → Option ℕ)
      → Response A × World arcade
  after_surface (ok user, v) call status = let (r, v') = call user v in (answered status r, v')
  after_surface (err e, v) call status = (failed (surface_status e), v)

  module _ (retention_days : ℕ) where
    unfoldable pub grant_my_connection :
        String → String → String → Option String → World arcade → Response Connection × World arcade
    unfolding verify_user_surface_token grant
    grant_my_connection token instance_id privacy_class request_id w =
        after_surface (verify_user_surface_token arcade host provider decode_and_verify token w)
          (λ user. grant arcade host retention_days user instance_id privacy_class "" "" request_id)
          grant_status

    unfoldable pub revoke_my_connection :
        String → String → Option String → World arcade → Response Unit × World arcade
    unfolding verify_user_surface_token revoke
    revoke_my_connection token instance_id request_id w =
        after_surface (verify_user_surface_token arcade host provider decode_and_verify token w)
          (λ user. revoke arcade host retention_days user instance_id none request_id) revoke_status

    module _ (master_key state_key : Bytes) where
      unfoldable pub initiate_grant_my_connection :
          Network
          → List String
          → String
          → String
          → String
          → World arcade
          → Response OAuthAuthorizationRequest × World arcade
      unfolding verify_user_surface_token initiate_grant
      initiate_grant_my_connection network allowed_redirect_uris token instance_id redirect_uri w =
          after_surface (verify_user_surface_token arcade host provider decode_and_verify token w)
            (λ user.
              initiate_grant arcade host network retention_days master_key state_key
                allowed_redirect_uris user instance_id redirect_uri)
            initiate_status

      -- `request.app.state.http`, which may be none
      abbrev pub with_client :
          Option Network
          → (Network → Response Connection × World arcade)
          → Result CurrentUser × World arcade
          → Response Connection × World arcade
      with_client (some network) handler seen = handler network
      with_client none handler (ok user, v) = (http_error 503, v)
      with_client none handler (err e, v) = (failed (surface_status e), v)

      unfoldable pub complete_grant_my_connection :
          Option Network
          → String
          → String
          → String
          → String
          → Option String
          → World arcade
          → Response Connection × World arcade
      unfolding verify_user_surface_token complete_grant
      complete_grant_my_connection client token instance_id code state request_id w =
          let seen = verify_user_surface_token arcade host provider decode_and_verify token w in
          with_client client
            (λ network.
              after_surface seen
                (λ user.
                  complete_grant arcade host network retention_days master_key state_key user
                    instance_id code state request_id)
                complete_status)
            seen
