-- ===== src/Connections/Initiated.antt =====
-- A state that `initiate_grant` minted is good for its user and its instance only, for ten minutes.
use Prim.Native.Nat.{◌/◌}
use Prim.Native.String.{count, ◌++◌}
use lehen.Prelude.{
  ℕ, ◌+◌, String, Bool, true, false, Option, List, any, not, ◌≡◌, refl, sym, subst, ap, ◌∙◌, ltb,
  ◌==◌, if◌then◌else◌,
}
use lehen.Prelude.Dict.{Dict, merge}
use lehen.Prelude.Effects.{
  ok, err, redirect_uri_not_allowed, oauth_flow_config, oauth_state, pure, lift, raise_if, is_ok,
  OnOk, OnOk-given, OnOk-raise_if, ◌>>=◌, ◌>>◌,
}
use lehen.Arcade.{Arcade}
use lehen.Hub.{Bytes, CurrentUser, IntegrationInstance, World, Hub, Host, second}
use lehen.Crypto.Envelope.{key_len, CipherLaws}
use lehen.Integrations.Adapter.{
  OutlookGraphAdapter, build_adapter_for_instance, auth_endpoint, scopes,
  extra_authorization_params,
}
use lehen.Oauth.State.{
  OAuthFlowState, OAuthAuthorizationRequest, generate_pkce, b64url_no_pad, authorization_params,
  encode_state, decode_state, build_authorization_url, default_state_max_age_seconds,
}
use lehen.Oauth.Storage.{JsonLaw, IntLaw}
use lehen.Oauth.Expiry.{decode_state-encode_state}
use lehen.Oauth.Tokens.{Network}
use lehen.Connections.Flow.{client_id_of, gated_instance, initiate_grant, complete_grant}
use lehen.Connections.FlowFrame.{gated_instance-Keeps}
use lehen.Connections.Completed.{complete_grant_sound}

module _ (arcade : Arcade) (host : Host) (state_key : Bytes) where
  -- The request carries the state of a flow, which was issued at the third reading.
  abbrev pub IsMinted : String → String → String → World arcade → OAuthAuthorizationRequest → Type 0
  IsMinted user_sub instance_id redirect_uri w request =
      (flow : OAuthFlowState) × (t : World arcade) × ((encode_state arcade host state_key flow t).0
        ≡ ok request.state)
      × (flow.user_sub ≡ user_sub)
      × (flow.instance_id ≡ instance_id)
      × (flow.redirect_uri ≡ redirect_uri)
      × (flow.issued_at ≡ host.clock (w.readings + 1 + 1) / second)

  pub build_authorization_url-IsMinted :
      (endpoint client_id redirect_uri : String) (wanted : List String)
      (user_sub instance_id : String) (extra : Dict String) (w : World arcade)
      → OnOk
          (IsMinted user_sub instance_id redirect_uri w)
          (build_authorization_url arcade host endpoint client_id redirect_uri wanted user_sub
            instance_id state_key extra w).0
  unfolding build_authorization_url generate_pkce
  build_authorization_url-IsMinted endpoint client_id redirect_uri wanted user_sub instance_id extra
        w =
      let random = host.token_bytes w.readings 32 in
      let verifier = b64url_no_pad host random in
      let challenge = b64url_no_pad host (host.sha256 (host.utf8_encode verifier)) in
      let flow : OAuthFlowState = record {
        user_sub = user_sub;
        instance_id = instance_id;
        nonce = b64url_no_pad host (host.token_bytes (w.readings + 1) 16);
        issued_at = host.clock (w.readings + 1 + 1) / second;
        code_verifier = verifier;
        redirect_uri = redirect_uri;
      } in
      let t : World arcade = record w { readings = w.readings + 1 + 1 + 1 } in
      let finish : String → Hub arcade OAuthAuthorizationRequest = λ state. pure (record {
        auth_url =
            endpoint
            ++ "?"
            ++ host.urlencode
                (merge (authorization_params client_id redirect_uri wanted state challenge) extra);
        state = state;
      }) in
      OnOk-given (IsMinted user_sub instance_id redirect_uri w)
        (encode_state arcade host state_key flow) finish t
        (λ state made. (flow, t, made, refl, refl, refl, refl))

  module _ (network : Network) (days : ℕ) (master_key : Bytes) (allowed : List String)
      (user : CurrentUser) (instance_id redirect_uri : String) where
    pub initiate_grant-IsMinted :
        (w : World arcade)
        → OnOk
            (IsMinted user.sub instance_id redirect_uri w)
            (initiate_grant arcade host network days master_key state_key allowed user instance_id
              redirect_uri w).0
    unfolding initiate_grant
    initiate_grant-IsMinted w =
        let P = IsMinted user.sub instance_id redirect_uri w in
        let gate = gated_instance arcade host network days master_key state_key user instance_id in
        let build : IntegrationInstance
            → OutlookGraphAdapter
            → Hub arcade OAuthAuthorizationRequest =
          λ row adapter.
            build_authorization_url arcade host (auth_endpoint adapter) (client_id_of host row)
              redirect_uri scopes user.sub instance_id state_key extra_authorization_params in
        let adapted : IntegrationInstance
            → OutlookGraphAdapter
            → Hub arcade OAuthAuthorizationRequest =
          λ row adapter.
            raise_if (client_id_of host row == "") oauth_flow_config >> build row adapter in
        let unlisted = not (any (λ uri. uri == redirect_uri) allowed) in
        let listed : IntegrationInstance → Hub arcade OAuthAuthorizationRequest =
          λ row. lift (build_adapter_for_instance host row) >>= adapted row in
        let same : (gate w).1 ≡ w =
          gated_instance-Keeps arcade host network days master_key state_key (λ v. v) user
            instance_id w in
        OnOk-given P gate (λ row. raise_if unlisted redirect_uri_not_allowed >> listed row) w
          (λ row passed.
            subst (λ v. OnOk P ((raise_if unlisted redirect_uri_not_allowed >> listed row) v).0)
              (sym same)
              (OnOk-raise_if P unlisted redirect_uri_not_allowed (listed row) w (λ _.
                OnOk-given P (lift (build_adapter_for_instance host row)) (adapted row) w
                  (λ adapter _.
                    OnOk-raise_if P (client_id_of host row == "") oauth_flow_config
                      (build row adapter) w
                      (λ _.
                        build_authorization_url-IsMinted (auth_endpoint adapter)
                          (client_id_of host row) redirect_uri scopes user.sub instance_id
                          extra_authorization_params w)))))

-- What the tests of the age let through.
within_age :
    (old early : Bool) (flow got : OAuthFlowState)
    → ok got ≡ (if old then err oauth_state else if early then err oauth_state else ok flow)
    → (got ≡ flow) × (old ≡ false) × (early ≡ false)
within_age true early flow got e = absurd (cc e)
within_age false true flow got e = absurd (cc e)
within_age false false flow got e = (cc e, refl, refl)

module _ (arcade : Arcade) (host : Host) (network : Network) (days : ℕ)
    (master_key state_key : Bytes) (allowed : List String) (user other : CurrentUser)
    (instance_id path : String) (redirect_uri code : String) (request_id : Option String)
    (w v : World arcade) where
  -- Where the packages keep their promises and the state key has 32 bytes, a grant that is
  -- completed with the state that an initiated one returned is by the user who initiated it and
  -- for the same instance, no more than 600 seconds after the state was issued, and no more than
  -- 60 seconds before.
  pub initiated_binds :
      CipherLaws host
      → JsonLaw host
      → IntLaw host
      → count state_key ≡ key_len
      → (request : OAuthAuthorizationRequest)
      → (initiate_grant arcade host network days master_key state_key allowed user instance_id
          redirect_uri w).0
        ≡ ok request
      → is_ok
          (complete_grant arcade host network days master_key state_key other path code
            request.state request_id v).0
        ≡ true
      → (other.sub ≡ user.sub)
        × (path ≡ instance_id)
        × (ltb (host.clock (w.readings + 1 + 1) / second + 600) (host.clock v.readings / second)
            ≡ false)
        × (ltb (host.clock v.readings / second + 60) (host.clock (w.readings + 1 + 1) / second)
            ≡ false)
  initiated_binds laws json int size request initiated completes =
      let (flow, t, made, same_user, same_instance, _, issued) =
        subst (OnOk (IsMinted arcade host state_key user.sub instance_id redirect_uri w)) initiated
          (initiate_grant-IsMinted arcade host state_key network days master_key allowed user
            instance_id redirect_uri w) in
      let (e, encoded, decoded) =
        decode_state-encode_state arcade host state_key default_state_max_age_seconds flow t v laws
          json int size in
      let (got, _, _, read, own, on_path, _, _, _, _, _, _, _, _) =
        complete_grant_sound arcade host network days master_key state_key other path code
          request.state request_id v completes in
      let state : ok e ≡ ok request.state = sym encoded ∙ made in
      let read_e : (decode_state arcade host state_key default_state_max_age_seconds e v).0
          ≡ ok got =
        subst
          (λ s. (decode_state arcade host state_key default_state_max_age_seconds s v).0 ≡ ok got)
          (sym (cc state)) read in
      let (same, young, due) =
        within_age (ltb (flow.issued_at + 600) (host.clock v.readings / second))
          (ltb (host.clock v.readings / second + 60) flow.issued_at) flow got
          (sym read_e ∙ decoded) in
      (
        sym own ∙ ap (λ f. f.user_sub) same ∙ same_user,
        sym on_path ∙ ap (λ f. f.instance_id) same ∙ same_instance,
        subst (λ n. ltb (n + 600) (host.clock v.readings / second) ≡ false) issued young,
        subst (λ n. ltb (host.clock v.readings / second + 60) n ≡ false) issued due,
      )
