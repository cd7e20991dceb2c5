-- ===== src/Connections/Flow.antt =====
-- `initiate_grant` and `complete_grant`: the two steps of a connection over OAuth.
use lehen.Prelude.{ℕ, String, Bool, Option, none, some, List, any, not, ◌==◌, if◌then◌else◌}
use lehen.Prelude.Effects.{
  connection_already_exists, connection_not_found, integration_disabled,
  integration_not_authorized_for_role, redirect_uri_not_allowed, oauth_flow_config, oauth_state,
  pure, lift, gets, modify, raise_if, or_raise, ◌>>=◌, ◌>>◌,
}
use lehen.Arcade.{Arcade, select}
use lehen.Hub.{
  Bytes, text, Connection, connected, healthy, unhealthy, CurrentUser, IntegrationInstance, Hub,
  Host, now,
}
use lehen.Hub.Values.{or_value}
use lehen.Crypto.Envelope.{encrypt}
use lehen.Audit.{str}
use lehen.Integrations.Config.{config_value}
use lehen.Integrations.Adapter.{
  build_adapter_for_instance, auth_endpoint, token_endpoint, scopes, extra_authorization_params,
  fetch_user_identity, health,
}
use lehen.Oauth.State.{
  OAuthFlowState, OAuthAuthorizationRequest, decode_state, build_authorization_url,
  default_state_max_age_seconds,
}
use lehen.Oauth.Tokens.{OAuthTokens, Network, to_storage_dict, exchange_code_for_tokens}
use lehen.Connections.Rows.{
  default_privacy_class, connection_id, is_active_for, is_empty, fetch_instance, is_siam_authorized,
  next_seq, record_consent,
}
use lehen.Connections.Tokens.{client_secret}

-- The document that `complete_grant` inserts.
abbrev pub connected_document :
    CurrentUser → String → ℕ → String → String → String → Bool → ℕ → Connection
connected_document user instance_id seq external_subject display_label encrypted health_ok ts =
    record {
      id = connection_id user.sub instance_id seq;
      user_sub = user.sub;
      username = user.username;
      integration_instance_id = instance_id;
      connection_seq = seq;
      external_subject = external_subject;
      display_label = display_label;
      privacy_class = default_privacy_class;
      encrypted_credentials = some encrypted;
      status = connected;
      connected_at = ts;
      disconnected_at = none;
      last_health_status = some (if health_ok then healthy else unhealthy);
      last_health_check_at = some ts;
      revoked_by = none;
      revoked_at = none;
    }

-- str(config_public.get("client_id") or "")
abbrev pub client_id_of : Host → IntegrationInstance → String
client_id_of host row = str host (or_value (config_value "client_id" row.config_public) (text ""))

-- What the provider and the source system say of a grant.
pub record Exchanged : Type 0 where
  pub tokens : OAuthTokens
  pub external_subject : String
  pub display_label : String
  pub health_ok : Bool

module _ (arcade : Arcade) (host : Host) (network : Network) (retention_days : ℕ)
    (master_key state_key : Bytes) where
  -- the gates of the two steps: existence, enabled, SIAM
  unfoldable pub gated_instance : CurrentUser → String → Hub arcade IntegrationInstance
  unfolding fetch_instance is_siam_authorized
  gated_instance user instance_id = do
    found ← gets (fetch_instance arcade instance_id)
    row ← or_raise found connection_not_found
    raise_if (not row.enabled) integration_disabled
    authorized ← gets (is_siam_authorized arcade user instance_id)
    raise_if (not authorized) integration_not_authorized_for_role
    pure row

  unfoldable pub initiate_grant :
      List String → CurrentUser → String → String → Hub arcade OAuthAuthorizationRequest
  unfolding gated_instance build_adapter_for_instance build_authorization_url auth_endpoint
      config_value
  initiate_grant allowed_redirect_uris user instance_id redirect_uri = do
    row ← gated_instance user instance_id
    raise_if (not (any (λ uri. uri == redirect_uri) allowed_redirect_uris)) redirect_uri_not_allowed
    adapter ← lift (build_adapter_for_instance host row)
    raise_if (client_id_of host row == "") oauth_flow_config
    build_authorization_url arcade host (auth_endpoint adapter) (client_id_of host row) redirect_uri
        scopes user.sub instance_id state_key extra_authorization_params

  -- the checks of the state against the caller and the path
  unfoldable pub checked_state : CurrentUser → String → String → Hub arcade OAuthFlowState
  unfolding decode_state
  checked_state user instance_id state = do
    flow ← decode_state arcade host state_key default_state_max_age_seconds state
    raise_if (not (flow.user_sub == user.sub)) oauth_state
    raise_if (not (flow.instance_id == instance_id)) oauth_state
    pure flow

  -- from the adapter to the health check
  unfoldable pub exchange : IntegrationInstance → String → OAuthFlowState → Hub arcade Exchanged
  unfolding client_secret exchange_code_for_tokens fetch_user_identity health token_endpoint
  exchange row code flow = do
    adapter ← lift (build_adapter_for_instance host row)
    raise_if (client_id_of host row == "") oauth_flow_config
    secret ← lift (client_secret host master_key row)
    tokens ←
        exchange_code_for_tokens arcade host network (token_endpoint adapter)
          (client_id_of host row) secret flow.redirect_uri code flow.code_verifier
    identity ← fetch_user_identity arcade host network tokens.access_token
    health_ok ← health arcade host network tokens.access_token
    pure (record {
      tokens = tokens;
      external_subject = identity.0;
      display_label = identity.1;
      health_ok = health_ok;
    })

  -- from the query for an existing connection on
  unfoldable pub persist_connection :
      CurrentUser → String → Option String → Exchanged → Hub arcade Connection
  unfolding next_seq record_consent to_storage_dict
  persist_connection user instance_id request_id answer = do
    existing ← gets (λ w.
        select arcade (is_active_for user.sub instance_id answer.external_subject) w.connections)
    raise_if (not (is_empty existing)) connection_already_exists
    seq ← gets (next_seq arcade user.sub instance_id)
    ts ← now arcade host
    encrypted ← encrypt arcade host (host.json_dumps (to_storage_dict answer.tokens)) master_key
    let doc =
        connected_document user instance_id seq answer.external_subject answer.display_label
          encrypted answer.health_ok ts
    modify (λ w. record w { connections = arcade.insert doc w.connections })
    record_consent arcade host retention_days user.sub user.username "granted" instance_id seq
        default_privacy_class answer.external_subject request_id ts
    pure doc

  unfoldable pub complete_grant :
      CurrentUser → String → String → String → Option String → Hub arcade Connection
  unfolding checked_state exchange persist_connection
  complete_grant user instance_id code state request_id = do
    flow ← checked_state user instance_id state
    row ← gated_instance user instance_id
    answer ← exchange row code flow
    persist_connection user instance_id request_id answer
