-- ===== src/Config/Settings.antt =====
-- The settings with the validators that the Hub adds to pydantic's own; the fields without one, and
-- the reading of the environment, are left out.
use Prim.Native.String.{count}
use lehen.Prelude.{String, Bool, Option, none, some, ◌||◌, not, eqb, ◌==◌, if◌then◌else◌}
use lehen.Prelude.Effects.{Result, ok, err, settings_error}
use lehen.Hub.{Bytes, Host}
use lehen.Crypto.Envelope.{key_len}
use lehen.Auth.Providers.{ProviderSettings, selected_provider_is_configured}

-- from the decoded bytes on
abbrev pub has_key_len : String → Option Bytes → Result String
has_key_len value none = err settings_error
has_key_len value (some decoded) =
    if not (eqb (count decoded) key_len) then err settings_error else ok value

-- `_validate_url_safe_b64_32_bytes`
unfoldable pub validate_url_safe_b64_32_bytes : Host → String → Result String
validate_url_safe_b64_32_bytes host value = has_key_len value (host.b64_decode value)

-- the value of a validation, made optional
abbrev pub made_some : Result String → Result (Option String)
made_some (ok s) = ok (some s)
made_some (err e) = err e

-- `_validate_optional_url_safe_b64_32_bytes`
unfoldable pub validate_optional_url_safe_b64_32_bytes :
    Host → Option String → Result (Option String)
unfolding validate_url_safe_b64_32_bytes
validate_optional_url_safe_b64_32_bytes host none = ok none
validate_optional_url_safe_b64_32_bytes host (some value) =
    made_some (validate_url_safe_b64_32_bytes host value)

pub record Settings : Type 0 where
  pub master_key : String
  pub audit_pepper : String
  pub signing_key : Option String
  pub provider : ProviderSettings

-- `Literal["keycloak", "entra"]`
abbrev pub is_selector : String → Bool
is_selector s = s == "keycloak" || s == "entra"

abbrev pub ok_and {ℓ} : {A B : Type ℓ} → Result A → Result B → Result B
ok_and (ok a) r = r
ok_and (err e) r = err e

-- What pydantic runs over the fields, and then over the whole.
unfoldable pub validated : Host → Settings → Result Settings
unfolding validate_url_safe_b64_32_bytes validate_optional_url_safe_b64_32_bytes
    selected_provider_is_configured
validated host s = ok_and (made_some (validate_url_safe_b64_32_bytes host s.master_key)) (
    ok_and (made_some (validate_url_safe_b64_32_bytes host s.audit_pepper)) (
      ok_and (validate_optional_url_safe_b64_32_bytes host s.signing_key) (
        if not (is_selector s.provider.identity_provider)
        then err settings_error
        else elim (selected_provider_is_configured s.provider) [ ok p ↦ ok s | err e ↦ err e ])))

-- `get_master_key_bytes` and `get_audit_pepper_bytes`, none where the decoding raises
unfoldable pub get_master_key_bytes : Host → Settings → Option Bytes
get_master_key_bytes host s = host.b64_decode s.master_key

unfoldable pub get_audit_pepper_bytes : Host → Settings → Option Bytes
get_audit_pepper_bytes host s = host.b64_decode s.audit_pepper

-- `get_signing_key_bytes`
unfoldable pub get_signing_key_bytes : Host → Settings → Option Bytes
get_signing_key_bytes host s = elim s.signing_key [ none ↦ none | some k ↦ host.b64_decode k ]
