-- ===== src/Oauth/State.antt =====
-- `encode_state`, `decode_state`, `generate_pkce` and `build_authorization_url`.
use Prim.Native.String.{◌++◌}
use lehen.Prelude.{
  ℕ, ◌+◌, String, Option, none, some, List, [], ◌∷◌, ◌&&◌, ltb, ◌==◌, if◌then◌else◌,
}
use lehen.Prelude.Dict.{Dict, lookup, merge}
use lehen.Prelude.Effects.{Result, ok, err, oauth_state, pure, lift, raise_if, ◌>>=◌, ◌>>◌}
use lehen.Arcade.{Arcade}
use lehen.Hub.{Bytes, Value, text, num, Hub, Host, unix_time, token_bytes}
use lehen.Crypto.Envelope.{encrypt, decrypt}
use lehen.Audit.{str}

abbrev pub default_state_max_age_seconds : ℕ
default_state_max_age_seconds = 600

pub record OAuthFlowState : Type 0 where
  pub user_sub : String
  pub instance_id : String
  pub nonce : String
  pub issued_at : ℕ
  pub code_verifier : String
  pub redirect_uri : String

-- asdict(flow)
unfoldable pub asdict : OAuthFlowState → Dict Value
asdict flow =
    ("user_sub", text flow.user_sub)
    ∷ ("instance_id", text flow.instance_id)
    ∷ ("nonce", text flow.nonce)
    ∷ ("issued_at", num flow.issued_at)
    ∷ ("code_verifier", text flow.code_verifier)
    ∷ ("redirect_uri", text flow.redirect_uri)
    ∷ []

-- s.rstrip("=")
unfoldable pub strip_padding : String → String
strip_padding String.[] = ""
strip_padding (String.◌∷◌ c s) =
    let rest = strip_padding s in
    if rest == "" && String.◌∷◌ c "" == "=" then "" else String.◌∷◌ c rest

unfoldable pub b64url_no_pad : Host → Bytes → String
unfolding strip_padding
b64url_no_pad host content = strip_padding (host.b64_encode content)

-- " ".join(scopes)
unfoldable pub joined : List String → String
joined [] = ""
joined (s ∷ []) = s
joined (s ∷ t ∷ rest) = s ++ " " ++ joined (t ∷ rest)

-- str(data[k])
abbrev pub text_field : Host → String → Dict Value → Option String
text_field host k doc = elim (lookup k doc) [ none ↦ none | some v ↦ some (str host v) ]

-- int(data[k])
abbrev pub int_field : Host → String → Dict Value → Option ℕ
int_field host k doc = elim (lookup k doc) [ none ↦ none | some v ↦ host.int v ]

-- the state out of the decrypted dict
abbrev pub and_then {ℓ κ} : {A : Type ℓ} {B : Type κ} → Option A → (A → Option B) → Option B
and_then none f = none
and_then (some a) f = f a

unfoldable pub flow_of : Host → Dict Value → Option OAuthFlowState
unfolding lookup
flow_of host doc = and_then (text_field host "user_sub" doc) (λ user_sub.
    and_then (text_field host "instance_id" doc) (λ instance_id.
      and_then (text_field host "nonce" doc) (λ nonce.
        and_then (int_field host "issued_at" doc) (λ issued_at.
          and_then (text_field host "code_verifier" doc) (λ code_verifier.
            and_then (text_field host "redirect_uri" doc) (λ redirect_uri. some (record {
              user_sub = user_sub;
              instance_id = instance_id;
              nonce = nonce;
              issued_at = issued_at;
              code_verifier = code_verifier;
              redirect_uri = redirect_uri;
            })))))))

abbrev pub parsed : Host → Option (Dict Value) → Result OAuthFlowState
parsed host none = err oauth_state
parsed host (some doc) = elim (flow_of host doc) [ none ↦ err oauth_state | some flow ↦ ok flow ]

-- `except Exception`
abbrev pub opened_state : Host → Result String → Result OAuthFlowState
opened_state host (err e) = err oauth_state
opened_state host (ok payload) = parsed host (host.json_loads payload)

-- the query of the authorization URL
unfoldable pub authorization_params : String → String → List String → String → String → Dict String
unfolding joined
authorization_params client_id redirect_uri scopes state code_challenge =
    ("client_id", client_id)
    ∷ ("response_type", "code")
    ∷ ("redirect_uri", redirect_uri)
    ∷ ("scope", joined scopes)
    ∷ ("state", state)
    ∷ ("code_challenge", code_challenge)
    ∷ ("code_challenge_method", "S256")
    ∷ []

-- The state that `build_authorization_url` returns beside the URL.
pub record OAuthAuthorizationRequest : Type 0 where
  pub auth_url : String
  pub state : String

module _ (arcade : Arcade) (host : Host) where
  unfoldable pub generate_pkce : Hub arcade (String × String)
  unfolding b64url_no_pad
  generate_pkce = do
    random ← token_bytes arcade host 32
    let verifier = b64url_no_pad host random
    let challenge = b64url_no_pad host (host.sha256 (host.utf8_encode verifier))
    pure (verifier, challenge)

  unfoldable pub encode_state : Bytes → OAuthFlowState → Hub arcade String
  unfolding asdict
  encode_state key flow = encrypt arcade host (host.json_dumps (asdict flow)) key

  -- the checks of the age
  abbrev pub check_age : ℕ → OAuthFlowState → Hub arcade OAuthFlowState
  check_age max_age_seconds flow = do
    now_ts ← unix_time arcade host
    raise_if (ltb (flow.issued_at + max_age_seconds) now_ts) oauth_state
    raise_if (ltb (now_ts + 60) flow.issued_at) oauth_state
    pure flow

  unfoldable pub decode_state : Bytes → ℕ → String → Hub arcade OAuthFlowState
  unfolding flow_of
  decode_state key max_age_seconds encoded = do
    raise_if (encoded == "") oauth_state
    flow ← lift (opened_state host (decrypt host encoded key))
    check_age max_age_seconds flow

  -- `build_authorization_url` without a nonce and a time of its own
  unfoldable pub build_authorization_url :
      String
      → String
      → String
      → List String
      → String
      → String
      → Bytes
      → Dict String
      → Hub arcade OAuthAuthorizationRequest
  unfolding generate_pkce encode_state b64url_no_pad authorization_params
  build_authorization_url auth_endpoint client_id redirect_uri scopes user_sub instance_id state_key
        extra_params =
      do
        pkce ← generate_pkce
        random ← token_bytes arcade host 16
        issued_at ← unix_time arcade host
        let flow : OAuthFlowState = record {
          user_sub = user_sub;
          instance_id = instance_id;
          nonce = b64url_no_pad host random;
          issued_at = issued_at;
          code_verifier = pkce.0;
          redirect_uri = redirect_uri;
        }
        state ← encode_state state_key flow
        let auth_url : String =
            auth_endpoint
            ++ "?"
            ++ host.urlencode (
                merge (authorization_params client_id redirect_uri scopes state pkce.1)
                  extra_params)
        pure (record { auth_url = auth_url; state = state })
