-- ===== src/Integrations/Adapter.antt =====
-- integrations/source_adapter.py: the Outlook adapter, which is the only one, and how the adapter
-- of an instance is built.
use Prim.Native.String.{◌++◌}
use lehen.Prelude.{
  ◌+◌, String, Bool, false, Option, none, some, List, [], ◌∷◌, not, eqb, ◌==◌, if◌then◌else◌,
}
use lehen.Prelude.Dict.{Dict}
use lehen.Prelude.Effects.{
  Result, ok, err, source_adapter, source_adapter_not_implemented, uncaught, pure, raise_if,
  or_raise, ◌>>=◌, ◌>>◌,
}
use lehen.Arcade.{Arcade}
use lehen.Hub.{Value, text, IntegrationInstance, Hub, Host}
use lehen.Hub.Values.{truthy, or_value}
use lehen.Audit.{str}
use lehen.Integrations.Registry.{IntegrationType, get_type}
use lehen.Integrations.Config.{config_value}
use lehen.Oauth.Tokens.{object_of, Network, Response, http_ok, text_or_default}

pub record OutlookGraphAdapter : Type 0 where
  pub tenant_id : String

abbrev pub extra_authorization_params : Dict String
extra_authorization_params = ("prompt", "consent") ∷ []

unfoldable pub auth_endpoint : OutlookGraphAdapter → String
auth_endpoint adapter =
    "https://login.microsoftonline.com/" ++ adapter.tenant_id ++ "/oauth2/v2.0/authorize"

unfoldable pub token_endpoint : OutlookGraphAdapter → String
token_endpoint adapter =
    "https://login.microsoftonline.com/" ++ adapter.tenant_id ++ "/oauth2/v2.0/token"

abbrev pub scopes : List String
scopes = "openid" ∷ "profile" ∷ "email" ∷ "offline_access" ∷ "User.Read" ∷ "Mail.Read" ∷ []

-- from the test of the type on
abbrev pub outlook_adapter : Host → IntegrationInstance → Result OutlookGraphAdapter
outlook_adapter host row =
    let tenant_id = text_or_default host "tenant_id" "" row.config_public in
    if row.type_id == "outlook-graph"
    then if tenant_id == "" then err source_adapter else ok (record { tenant_id = tenant_id })
    else err source_adapter_not_implemented

-- `except UnknownIntegrationTypeError`
abbrev pub when_known :
    Result IntegrationType → Result OutlookGraphAdapter → Result OutlookGraphAdapter
when_known (ok spec) adapter = adapter
when_known (err e) adapter = err source_adapter_not_implemented

unfoldable pub build_adapter_for_instance : Host → IntegrationInstance → Result OutlookGraphAdapter
unfolding get_type
build_adapter_for_instance host row = when_known (get_type row.type_id) (outlook_adapter host row)

module _ (arcade : Arcade) (host : Host) (network : Network) where
  abbrev pub graph_me : String → Hub arcade (Option Response)
  graph_me access_token w = (
    ok (network.get w.readings "https://graph.microsoft.com/v1.0/me" access_token),
    record w { readings = w.readings + 1 },
  )

  -- str(a or b or "")
  abbrev pub or_blank : Value → Value → String
  or_blank a b = str host (or_value a (or_value b (text "")))

  unfoldable pub fetch_user_identity : String → Hub arcade (String × String)
  unfolding truthy config_value
  fetch_user_identity access_token = do
    answer ← graph_me access_token
    resp ← or_raise answer source_adapter
    raise_if (not (eqb resp.status_code http_ok)) source_adapter
    doc ← object_of resp.json uncaught
    let external_subject = or_blank (config_value "mail" doc) (config_value "userPrincipalName" doc)
    raise_if (external_subject == "") source_adapter
    pure (
      external_subject,
      str host (or_value (config_value "displayName" doc) (text external_subject)),
    )

  abbrev pub is_healthy : Option Response → Bool
  is_healthy none = false
  is_healthy (some resp) = eqb resp.status_code http_ok

  unfoldable pub health : String → Hub arcade Bool
  health access_token = do answer ← graph_me access_token; pure (is_healthy answer)
