-- ===== src/Oauth/Tokens.antt =====
-- `OAuthTokens` with its two dict methods, `exchange_code_for_tokens`, `refresh_access_token` and
-- `_post_token_endpoint`. The network is a parameter, whose answers depend on the reading.
use lehen.Prelude.{ℕ, ◌+◌, String, Option, none, some, [], ◌∷◌, not, eqb, ◌==◌, if◌then◌else◌}
use lehen.Prelude.Dict.{Dict, lookup, insert}
use lehen.Prelude.Effects.{
  HubError, Exec, ok, oauth_exchange, uncaught, pure, raise, or_raise, raise_if, ◌>>=◌, ◌>>◌,
}
use lehen.Arcade.{Arcade}
use lehen.Hub.{Value, null, text, num, Hub, Host, unix_time}
use lehen.Audit.{str}

pub record OAuthTokens : Type 0 where
  pub access_token : String
  pub refresh_token : Option String
  pub expires_at : ℕ
  pub scope : String
  pub token_type : String

-- An answer of a server: the body is none where it is no JSON, and some none where it is a JSON
-- value that is no object.
pub record Response : Type 0 where
  pub status_code : ℕ
  pub json : Option (Option (Dict Value))

-- httpx: `client.post(url, data=body)` and `client.get(url)` with a bearer token, none where it
-- raises HTTPError.
pub record Network : Type 0 where
  pub post : ℕ → String → Dict String → Option Response
  pub get : ℕ → String → String → Option Response

-- `resp.json()` with the exception for a body that is no JSON; the methods of a dict raise on a value
-- that is none.
abbrev pub object_of : {S : Type 0} → Option (Option (Dict Value)) → HubError → Exec S (Dict Value)
object_of none e = raise e
object_of (some none) e = raise uncaught
object_of (some (some doc)) e = pure doc

abbrev pub http_ok : ℕ
http_ok = 200

abbrev pub optional : Option String → Value
optional none = null
optional (some s) = text s

unfoldable pub to_storage_dict : OAuthTokens → Dict Value
to_storage_dict t =
    ("access_token", text t.access_token)
    ∷ ("refresh_token", optional t.refresh_token)
    ∷ ("expires_at", num t.expires_at)
    ∷ ("scope", text t.scope)
    ∷ ("token_type", text t.token_type)
    ∷ []

-- str(data.get(k, default))
abbrev pub text_or_default : Host → String → String → Dict Value → String
text_or_default host k default doc = elim (lookup k doc) [ none ↦ default | some v ↦ str host v ]

-- str(v) if v is not None else None
abbrev pub optional_text : Host → Option Value → Option String
optional_text host (some Value.null) = none
optional_text host (some v) = some (str host v)
optional_text host none = none

-- The tokens of a dict that has an access token, for an expiry.
abbrev pub tokens_of : Host → Value → ℕ → Dict Value → OAuthTokens
tokens_of host access_token expires_at doc = record {
  access_token = str host access_token;
  refresh_token = optional_text host (lookup "refresh_token" doc);
  expires_at = expires_at;
  scope = text_or_default host "scope" "" doc;
  token_type = text_or_default host "token_type" "Bearer" doc;
}

-- none for what raises: a key that is missing, or an expiry that is no number
unfoldable pub from_storage_dict : Host → Dict Value → Option OAuthTokens
unfolding lookup
from_storage_dict host doc = elim (lookup "access_token" doc) [
  | none ↦ none
  | some access_token ↦ elim (lookup "expires_at" doc) [
    | none ↦ none
    | some v ↦ elim (host.int v) [
      | none ↦ none
      | some expires_at ↦ some (tokens_of host access_token expires_at doc)
    ]
  ]
]

-- data.get("expires_in", 3600)
abbrev pub expires_in_of : Dict Value → Value
expires_in_of doc = elim (lookup "expires_in" doc) [ none ↦ num 3600 | some v ↦ v ]

-- a dict of texts with one more, unless it is empty
abbrev pub with_secret : String → Dict String → Dict String
with_secret client_secret body =
    if client_secret == "" then body else insert "client_secret" client_secret body

module _ (arcade : Arcade) (host : Host) (network : Network) where
  -- the call itself
  abbrev pub post : String → Dict String → Hub arcade (Option Response)
  post url body w = (ok (network.post w.readings url body), record w { readings = w.readings + 1 })

  unfoldable pub post_token_endpoint : String → Dict String → Hub arcade OAuthTokens
  unfolding lookup
  post_token_endpoint url body = do
    answer ← post url body
    resp ← or_raise answer oauth_exchange
    raise_if (not (eqb resp.status_code http_ok)) oauth_exchange
    doc ← object_of resp.json oauth_exchange
    access_token ← or_raise (lookup "access_token" doc) oauth_exchange
    issued_at ← unix_time arcade host
    expires_in ← or_raise (host.int (expires_in_of doc)) uncaught
    pure (tokens_of host access_token (issued_at + expires_in) doc)

  unfoldable pub exchange_code_for_tokens :
      String → String → String → String → String → String → Hub arcade OAuthTokens
  unfolding insert post_token_endpoint
  exchange_code_for_tokens token_endpoint client_id client_secret redirect_uri code code_verifier =
      post_token_endpoint token_endpoint (
        with_secret client_secret (
          ("grant_type", "authorization_code")
          ∷ ("client_id", client_id)
          ∷ ("code", code)
          ∷ ("redirect_uri", redirect_uri)
          ∷ ("code_verifier", code_verifier)
          ∷ []))

  unfoldable pub refresh_access_token : String → String → String → String → Hub arcade OAuthTokens
  unfolding insert post_token_endpoint
  refresh_access_token token_endpoint client_id client_secret refresh_token =
      post_token_endpoint token_endpoint (
        with_secret client_secret (
          ("grant_type", "refresh_token")
          ∷ ("client_id", client_id)
          ∷ ("refresh_token", refresh_token)
          ∷ []))
