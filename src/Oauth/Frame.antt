-- ===== src/Oauth/Frame.antt =====
-- The calls of oauth.py, and those of the Outlook adapter, change no table.
use lehen.Prelude.{ℕ, ◌+◌, String, Bool, Option, none, some, ◌≡◌, refl, ltb, not, eqb, ◌==◌}
use lehen.Prelude.Dict.{Dict, lookup}
use lehen.Prelude.Effects.{
  HubError, oauth_state, oauth_exchange, uncaught, pure, lift, raise_if, or_raise, Keeps,
  Keeps-bind, Keeps-raise_if, Keeps-or_raise, ◌>>=◌, ◌>>◌,
}
use lehen.Arcade.{Arcade}
use lehen.Hub.{Bytes, Value, Hub, World, Host, unix_time}
use lehen.Crypto.Envelope.{decrypt}
use lehen.Oauth.State.{OAuthFlowState, check_age, opened_state, decode_state}
use lehen.Oauth.Tokens.{
  object_of, Response, Network, OAuthTokens, http_ok, post, post_token_endpoint, expires_in_of,
  tokens_of,
}

pub Keeps-object_of {ℓ} :
    {S : Type 0} {X : Type ℓ} (g : S → X) (body : Option (Option (Dict Value))) (e : HubError)
    → Keeps g (object_of body e)
Keeps-object_of g none e s = refl
Keeps-object_of g (some none) e s = refl
Keeps-object_of g (some (some doc)) e s = refl

module _ {ℓ} {X : Type ℓ} (arcade : Arcade) (host : Host) (g : World arcade → X)
    (reads : (w : World arcade) (n : ℕ) → g (record w { readings = n }) ≡ g w) where
  unix_time-Keeps : Keeps g (unix_time arcade host)
  unix_time-Keeps w = reads w (w.readings + 1)

  pub decode_state-Keeps :
      (key : Bytes) (age : ℕ) (encoded : String)
      → Keeps g (decode_state arcade host key age encoded)
  unfolding decode_state
  decode_state-Keeps key age encoded =
      let old : ℕ → OAuthFlowState → Bool = λ ts flow. ltb (flow.issued_at + age) ts in
      let early : ℕ → OAuthFlowState → Bool = λ ts flow. ltb (ts + 60) flow.issued_at in
      let aged : OAuthFlowState → Hub arcade OAuthFlowState = check_age arcade host age in
      Keeps-raise_if g (encoded == "") oauth_state
        (lift (opened_state host (decrypt host encoded key)) >>= aged)
        (Keeps-bind g (lift (opened_state host (decrypt host encoded key))) aged (λ w. refl)
          (λ flow.
            Keeps-bind g (unix_time arcade host)
              (λ ts.
                raise_if (old ts flow) oauth_state
                >> (raise_if (early ts flow) oauth_state >> pure flow))
              unix_time-Keeps
              (λ ts.
                Keeps-raise_if g (old ts flow) oauth_state
                  (raise_if (early ts flow) oauth_state >> pure flow)
                  (Keeps-raise_if g (early ts flow) oauth_state (pure flow) (λ w. refl)))))

  module _ (network : Network) where
    pub post_token_endpoint-Keeps :
        (url : String) (body : Dict String)
        → Keeps g (post_token_endpoint arcade host network url body)
    unfolding post_token_endpoint
    post_token_endpoint-Keeps url body =
        let built : Value → ℕ → Dict Value → ℕ → Hub arcade OAuthTokens =
          λ access_token issued_at doc expires_in.
            pure (tokens_of host access_token (issued_at + expires_in) doc) in
        let timed : Dict Value → Value → ℕ → Hub arcade OAuthTokens = λ doc access_token issued_at.
          or_raise (host.int (expires_in_of doc)) uncaught >>= built access_token issued_at doc in
        let with_token : Dict Value → Value → Hub arcade OAuthTokens =
          λ doc access_token. unix_time arcade host >>= timed doc access_token in
        let with_doc : Dict Value → Hub arcade OAuthTokens =
          λ doc. or_raise (lookup "access_token" doc) oauth_exchange >>= with_token doc in
        let with_resp : Response → Hub arcade OAuthTokens = λ resp.
          raise_if (not (eqb resp.status_code http_ok)) oauth_exchange
          >> (object_of resp.json oauth_exchange >>= with_doc) in
        Keeps-bind g (post arcade host network url body)
          (λ answer. or_raise answer oauth_exchange >>= with_resp) (λ w. reads w (w.readings + 1))
          (λ answer.
            Keeps-bind g (or_raise answer oauth_exchange) with_resp
              (Keeps-or_raise g answer oauth_exchange)
              (λ resp.
                Keeps-raise_if g (not (eqb resp.status_code http_ok)) oauth_exchange
                  (object_of resp.json oauth_exchange >>= with_doc)
                  (Keeps-bind g (object_of resp.json oauth_exchange) with_doc
                    (Keeps-object_of g resp.json oauth_exchange)
                    (λ doc.
                      Keeps-bind g (or_raise (lookup "access_token" doc) oauth_exchange)
                        (with_token doc)
                        (Keeps-or_raise g (lookup "access_token" doc) oauth_exchange)
                        (λ access_token.
                          Keeps-bind g (unix_time arcade host) (timed doc access_token)
                            unix_time-Keeps
                            (λ issued_at.
                              Keeps-bind g (or_raise (host.int (expires_in_of doc)) uncaught)
                                (built access_token issued_at doc)
                                (Keeps-or_raise g (host.int (expires_in_of doc)) uncaught)
                                (λ expires_in w. refl)))))))
