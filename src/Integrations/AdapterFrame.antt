-- ===== src/Integrations/AdapterFrame.antt =====
-- The calls of the Outlook adapter change no table.
use lehen.Prelude.{ℕ, ◌+◌, String, not, eqb, ◌==◌, ◌≡◌, refl}
use lehen.Prelude.Dict.{Dict}
use lehen.Prelude.Effects.{
  source_adapter, uncaught, pure, raise_if, or_raise, Keeps, Keeps-bind, Keeps-raise_if,
  Keeps-or_raise, ◌>>=◌, ◌>>◌,
}
use lehen.Arcade.{Arcade}
use lehen.Hub.{Value, text, World, Hub, Host}
use lehen.Hub.Values.{or_value}
use lehen.Audit.{str}
use lehen.Integrations.Config.{config_value}
use lehen.Integrations.Adapter.{or_blank, graph_me, fetch_user_identity, health}
use lehen.Oauth.Tokens.{object_of, Network, Response, http_ok}
use lehen.Oauth.Frame.{Keeps-object_of}

module _ {ℓ} {X : Type ℓ} (arcade : Arcade) (host : Host) (network : Network) (g : World arcade → X)
    (reads : (w : World arcade) (n : ℕ) → g (record w { readings = n }) ≡ g w) where
  abbrev subject : Dict Value → String
  subject doc =
      or_blank arcade host network (config_value "mail" doc) (config_value "userPrincipalName" doc)

  abbrev identity : Dict Value → Hub arcade (String × String)
  identity doc =
      pure (subject doc, str host (or_value (config_value "displayName" doc) (text (subject doc))))

  pub fetch_user_identity-Keeps :
      (access_token : String) → Keeps g (fetch_user_identity arcade host network access_token)
  unfolding fetch_user_identity
  fetch_user_identity-Keeps access_token =
      let named : Dict Value → Hub arcade (String × String) =
        λ doc. raise_if (subject doc == "") source_adapter >> identity doc in
      let answered : Response → Hub arcade (String × String) = λ resp.
        raise_if (not (eqb resp.status_code http_ok)) source_adapter
        >> (object_of resp.json uncaught >>= named) in
      Keeps-bind g (graph_me arcade host network access_token)
        (λ answer. or_raise answer source_adapter >>= answered) (λ w. reads w (w.readings + 1))
        (λ answer.
          Keeps-bind g (or_raise answer source_adapter) answered
            (Keeps-or_raise g answer source_adapter)
            (λ resp.
              Keeps-raise_if g (not (eqb resp.status_code http_ok)) source_adapter
                (object_of resp.json uncaught >>= named)
                (Keeps-bind g (object_of resp.json uncaught) named
                  (Keeps-object_of g resp.json uncaught)
                  (λ doc.
                    Keeps-raise_if g (subject doc == "") source_adapter (identity doc)
                      (λ w. refl)))))

  pub health-Keeps : (access_token : String) → Keeps g (health arcade host network access_token)
  unfolding health
  health-Keeps access_token w = reads w (w.readings + 1)
