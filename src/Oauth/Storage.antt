-- ===== src/Oauth/Storage.antt =====
-- `to_storage_dict` and `from_storage_dict` are inverse to each other over JSON.
use lehen.Prelude.{
  ℕ, String, true, All, Option, none, some, ◌≡◌, refl, sym, ap, ◌∙◌, inl, inr, Option-cases,
}
use lehen.Prelude.Dict.{Dict, lookup}
use lehen.Hub.{Value, num, text, null, Host}
use lehen.Hub.Values.{is_plain}
use lehen.Oauth.Tokens.{
  OAuthTokens, to_storage_dict, from_storage_dict, optional, optional_text, text_or_default,
}

-- `json.loads` gives back what `json.dumps` made of the dict, in some order of the keys.
abbrev pub LoadsBack : Host → Dict Value → Type 0
LoadsBack host doc =
    (r : Dict Value) × (host.json_loads (host.json_dumps doc) ≡ some r)
    × ((k : String) → lookup k r ≡ lookup k doc)

-- The json module gives back every object of texts, numbers and nulls.
abbrev pub JsonLaw : Host → Type 0
JsonLaw host = (doc : Dict Value) → All (λ kv. is_plain kv.1 ≡ true) doc → LoadsBack host doc

-- `int` of a number is the number.
abbrev pub IntLaw : Host → Type 0
IntLaw host = (n : ℕ) → host.int (num n) ≡ some n

-- the tokens of a blob that was decrypted
abbrev pub loaded_tokens : Host → Option (Dict Value) → Option OAuthTokens
loaded_tokens host none = none
loaded_tokens host (some doc) = from_storage_dict host doc

pub from_storage_dict-to_storage_dict :
    (host : Host) (doc : Dict Value) (t : OAuthTokens)
    → IntLaw host
    → ((k : String) → lookup k doc ≡ lookup k (to_storage_dict t))
    → from_storage_dict host doc ≡ some t
unfolding from_storage_dict to_storage_dict lookup
from_storage_dict-to_storage_dict host doc t int same =
    let access : lookup "access_token" doc ≡ some (text t.access_token) = same "access_token" in
    let refresh : lookup "refresh_token" doc ≡ some (optional t.refresh_token) =
      same "refresh_token" in
    let expires : lookup "expires_at" doc ≡ some (num t.expires_at) = same "expires_at" in
    let scope : lookup "scope" doc ≡ some (text t.scope) = same "scope" in
    let kind : lookup "token_type" doc ≡ some (text t.token_type) = same "token_type" in
    let same_scope : text_or_default host "scope" "" doc ≡ t.scope =
      rw (text_or_default, scope) refl in
    let same_kind : text_or_default host "token_type" "Bearer" doc ≡ t.token_type =
      rw (text_or_default, kind) refl in
    elim (Option-cases t.refresh_token) [
      | inl absent ↦
          let none_given : lookup "refresh_token" doc ≡ some null =
            refresh ∙ ap (λ o. some (optional o)) absent in
          let same_refresh : optional_text host (lookup "refresh_token" doc) ≡ t.refresh_token =
            rw none_given (sym absent) in
          rw
            (
              from_storage_dict,
              access,
              expires,
              int t.expires_at,
              same_refresh,
              same_scope,
              same_kind,
            )
            refl
      | inr (r, present) ↦
          let given : lookup "refresh_token" doc ≡ some (text r) =
            refresh ∙ ap (λ o. some (optional o)) present in
          let same_refresh : optional_text host (lookup "refresh_token" doc) ≡ t.refresh_token =
            rw given (sym present) in
          rw
            (
              from_storage_dict,
              access,
              expires,
              int t.expires_at,
              same_refresh,
              same_scope,
              same_kind,
            )
            refl
    ]

to_storage_dict-plain : (t : OAuthTokens) → All (λ kv. is_plain kv.1 ≡ true) (to_storage_dict t)
unfolding to_storage_dict
to_storage_dict-plain t =
    let token : is_plain (optional t.refresh_token) ≡ true =
      elim t.refresh_token as (λ o. is_plain (optional o) ≡ true) [ none ↦ refl | some r ↦ refl ] in
    (refl, (token, (refl, (refl, (refl, tt)))))

-- What was stored is what is loaded.
pub loaded_tokens-stored :
    (host : Host) (t : OAuthTokens)
    → JsonLaw host
    → IntLaw host
    → loaded_tokens host (host.json_loads (host.json_dumps (to_storage_dict t))) ≡ some t
loaded_tokens-stored host t json int =
    let (r, read, same) = json (to_storage_dict t) (to_storage_dict-plain t) in
    ap (loaded_tokens host) read ∙ from_storage_dict-to_storage_dict host r t int same
