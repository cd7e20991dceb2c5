-- ===== src/Connections/FlowFrame.antt =====
-- The checks and the exchanges of `complete_grant` change no table.
use lehen.Prelude.{ℕ, String, Bool, ◌≡◌, refl, not, ◌==◌}
use lehen.Prelude.Effects.{
  connection_not_found, integration_disabled, integration_not_authorized_for_role,
  oauth_flow_config, oauth_state, pure, lift, gets, raise_if, or_raise, Keeps, Keeps-bind,
  Keeps-raise_if, Keeps-or_raise, ◌>>=◌, ◌>>◌,
}
use lehen.Arcade.{Arcade}
use lehen.Hub.{Bytes, CurrentUser, IntegrationInstance, World, Hub, Host}
use lehen.Integrations.Adapter.{
  OutlookGraphAdapter, build_adapter_for_instance, token_endpoint, fetch_user_identity, health,
}
use lehen.Integrations.AdapterFrame.{fetch_user_identity-Keeps, health-Keeps}
use lehen.Oauth.State.{OAuthFlowState, decode_state, default_state_max_age_seconds}
use lehen.Oauth.Tokens.{OAuthTokens, Network, exchange_code_for_tokens}
use lehen.Oauth.Frame.{decode_state-Keeps, post_token_endpoint-Keeps}
use lehen.Connections.Rows.{fetch_instance, is_siam_authorized}
use lehen.Connections.Tokens.{client_secret}
use lehen.Connections.Flow.{Exchanged, client_id_of, gated_instance, checked_state, exchange}

module _ (arcade : Arcade) (host : Host) (network : Network) (days : ℕ)
    (master_key state_key : Bytes) where
  module _ {ℓ} {X : Type ℓ} (g : World arcade → X) where
    pub gated_instance-Keeps :
        (user : CurrentUser) (instance_id : String)
        → Keeps g (gated_instance arcade host network days master_key state_key user instance_id)
    unfolding gated_instance
    gated_instance-Keeps user instance_id =
        let authorized : IntegrationInstance → Bool → Hub arcade IntegrationInstance =
          λ row yes. raise_if (not yes) integration_not_authorized_for_role >> pure row in
        let enabled : IntegrationInstance → Hub arcade IntegrationInstance = λ row.
          raise_if (not row.enabled) integration_disabled
          >> (gets (is_siam_authorized arcade user instance_id) >>= authorized row) in
        Keeps-bind g (gets (fetch_instance arcade instance_id))
          (λ found. or_raise found connection_not_found >>= enabled) (λ w. refl)
          (λ found.
            Keeps-bind g (or_raise found connection_not_found) enabled
              (Keeps-or_raise g found connection_not_found)
              (λ row.
                Keeps-raise_if g (not row.enabled) integration_disabled
                  (gets (is_siam_authorized arcade user instance_id) >>= authorized row)
                  (Keeps-bind g (gets (is_siam_authorized arcade user instance_id)) (authorized row)
                    (λ w. refl)
                    (λ yes.
                      Keeps-raise_if g (not yes) integration_not_authorized_for_role (pure row)
                        (λ w. refl)))))

  module _ {ℓ} {X : Type ℓ} (g : World arcade → X)
      (reads : (w : World arcade) (n : ℕ) → g (record w { readings = n }) ≡ g w) where
    pub checked_state-Keeps :
        (user : CurrentUser) (instance_id state : String)
        → Keeps g
            (checked_state arcade host network days master_key state_key user instance_id state)
    unfolding checked_state
    checked_state-Keeps user instance_id state =
        let on_path : OAuthFlowState → Hub arcade OAuthFlowState =
          λ flow. raise_if (not (flow.instance_id == instance_id)) oauth_state >> pure flow in
        let checked : OAuthFlowState → Hub arcade OAuthFlowState =
          λ flow. raise_if (not (flow.user_sub == user.sub)) oauth_state >> on_path flow in
        Keeps-bind g (decode_state arcade host state_key default_state_max_age_seconds state)
          checked
          (decode_state-Keeps arcade host g reads state_key default_state_max_age_seconds state)
          (λ flow. Keeps-raise_if g (not (flow.user_sub == user.sub)) oauth_state (on_path flow) (
            Keeps-raise_if g (not (flow.instance_id == instance_id)) oauth_state (pure flow)
              (λ w. refl)))

    pub exchange-Keeps :
        (row : IntegrationInstance) (code : String) (flow : OAuthFlowState)
        → Keeps g (exchange arcade host network days master_key state_key row code flow)
    unfolding exchange exchange_code_for_tokens
    exchange-Keeps row code flow =
        let healthy_of : OAuthTokens → String × String → Bool → Hub arcade Exchanged =
          λ tokens identity health_ok. pure (record {
            tokens = tokens;
            external_subject = identity.0;
            display_label = identity.1;
            health_ok = health_ok;
          }) in
        let known : OAuthTokens → String × String → Hub arcade Exchanged = λ tokens identity.
          health arcade host network tokens.access_token >>= healthy_of tokens identity in
        let given : OAuthTokens → Hub arcade Exchanged =
          λ tokens. fetch_user_identity arcade host network tokens.access_token >>= known tokens in
        let call : OutlookGraphAdapter → String → Hub arcade OAuthTokens = λ adapter secret.
          exchange_code_for_tokens arcade host network (token_endpoint adapter)
            (client_id_of host row) secret flow.redirect_uri code flow.code_verifier in
        let opened : OutlookGraphAdapter → String → Hub arcade Exchanged =
          λ adapter secret. call adapter secret >>= given in
        let built : OutlookGraphAdapter → Hub arcade Exchanged = λ adapter.
          raise_if (client_id_of host row == "") oauth_flow_config
          >> (lift (client_secret host master_key row) >>= opened adapter) in
        Keeps-bind g (lift (build_adapter_for_instance host row)) built (λ w. refl)
          (λ adapter.
            Keeps-raise_if g (client_id_of host row == "") oauth_flow_config
              (lift (client_secret host master_key row) >>= opened adapter)
              (Keeps-bind g (lift (client_secret host master_key row)) (opened adapter) (λ w. refl)
                (λ secret.
                  Keeps-bind g (call adapter secret) given
                    (post_token_endpoint-Keeps arcade host g reads network (token_endpoint adapter)
                      _)
                    (λ tokens.
                      Keeps-bind g (fetch_user_identity arcade host network tokens.access_token)
                        (known tokens)
                        (fetch_user_identity-Keeps arcade host network g reads tokens.access_token)
                        (λ identity.
                          Keeps-bind g (health arcade host network tokens.access_token)
                            (healthy_of tokens identity)
                            (health-Keeps arcade host network g reads tokens.access_token)
                            (λ health_ok w. refl))))))
