-- ===== src/Config/Startup.antt =====
-- Settings that were let through, and the startup of main.py.
use Prim.Native.String.{count}
use lehen.Prelude.{
  String, true, some, ◌≡◌, refl, ap, arith, eqb, ◌==◌, inl, inr, Bool-cases, Option-cases,
}
use mathlib.Core.Bool.{false≢true}
use lehen.Prelude.Effects.{Result, ok, err, is_ok, Result-cases}
use lehen.Hub.{Bytes, Host}
use lehen.Crypto.Envelope.{key_len}
use lehen.Crypto.Keys.{decode_master_key, decode_audit_pepper}
use lehen.Auth.Providers.{
  Provider, ProviderSettings, selected_provider_is_configured,
  build_identity_provider_from_settings,
}
use lehen.Config.Settings.{
  Settings, validate_url_safe_b64_32_bytes, validate_optional_url_safe_b64_32_bytes, is_selector,
  made_some, ok_and, validated, get_master_key_bytes, get_audit_pepper_bytes,
}

ok_and-split :
    {A B : Type 0} (a : Result A) (b : Result B)
    → is_ok (ok_and a b) ≡ true
    → (is_ok a ≡ true) × (is_ok b ≡ true)
ok_and-split (ok a) b h = (refl, h)
ok_and-split (err e) b h = absurd (false≢true h)

-- A text that the validator lets through decodes to 32 bytes.
validated_key :
    (host : Host) (value : String)
    → is_ok (made_some (validate_url_safe_b64_32_bytes host value)) ≡ true
    → (key : Bytes) × (host.b64_decode value ≡ some key) × (count key ≡ key_len)
unfolding validate_url_safe_b64_32_bytes
validated_key host value h = elim (Option-cases (host.b64_decode value)) [
  | inl malformed ↦ absurd (false≢true (rw malformed at h))
  | inr (key, decoded) ↦ elim (Bool-cases (eqb (count key) key_len)) [
    | inl right ↦ (key, decoded, ground (arith, right))
    | inr wrong ↦ absurd (false≢true (rw (decoded, wrong) at h))
  ]
]

selected_provider_builds :
    (s : ProviderSettings)
    → is_selector s.identity_provider ≡ true
    → is_ok (selected_provider_is_configured s) ≡ true
    → (p : Provider) × (build_identity_provider_from_settings s.keycloak_settings s.entra_settings
          s.identity_provider
        ≡ ok p)
unfolding selected_provider_is_configured build_identity_provider_from_settings
selected_provider_builds s known h = elim (Bool-cases (s.identity_provider == "keycloak")) [
  | inl k ↦ elim (Option-cases s.keycloak_settings) [
    | inl missing ↦ absurd (false≢true (rw (k, missing) at h))
    | inr (settings, there) ↦ (Provider.keycloak settings, rw (k, there) refl)
  ]
  | inr other ↦
      let e : (s.identity_provider == "entra") ≡ true = ground (arith, known, other) in
      elim (Option-cases s.entra_settings) [
        | inl missing ↦ absurd (false≢true (rw (other, e, missing) at h))
        | inr (settings, there) ↦ (Provider.entra settings, rw (other, e, there) refl)
      ]
]

-- Settings that pydantic lets through give a master key and a pepper of 32 bytes, which the decoders
-- of crypto accept too, and an identity provider.
pub validated_starts :
    (host : Host) (s : Settings)
    → is_ok (validated host s) ≡ true
    → (key : Bytes) × (pepper : Bytes) × (provider : Provider) × (get_master_key_bytes host s
        ≡ some key)
      × (count key ≡ key_len)
      × (decode_master_key host s.master_key ≡ ok key)
      × (get_audit_pepper_bytes host s ≡ some pepper)
      × (count pepper ≡ key_len)
      × (decode_audit_pepper host s.audit_pepper ≡ ok pepper)
      × (build_identity_provider_from_settings s.provider.keycloak_settings
            s.provider.entra_settings s.provider.identity_provider
          ≡ ok provider)
unfolding validated get_master_key_bytes get_audit_pepper_bytes decode_master_key
    decode_audit_pepper
validated_starts host s h =
    let (m, h1) = ok_and-split (made_some (validate_url_safe_b64_32_bytes host s.master_key)) _ h in
    let (a, h2) =
      ok_and-split (made_some (validate_url_safe_b64_32_bytes host s.audit_pepper)) _ h1 in
    let (_, h3) = ok_and-split (validate_optional_url_safe_b64_32_bytes host s.signing_key) _ h2 in
    let (key, decoded, right) = validated_key host s.master_key m in
    let (pepper, read, sized) = validated_key host s.audit_pepper a in
    elim (Bool-cases (is_selector s.provider.identity_provider)) [
      | inr unknown ↦ absurd (false≢true (rw unknown at h3))
      | inl known ↦ elim (Result-cases (selected_provider_is_configured s.provider)) [
        | inr (e, refused) ↦ absurd (false≢true (rw (known, refused) at h3))
        | inl (p, chosen) ↦
            let (provider, built) = selected_provider_builds s.provider known (ap is_ok chosen) in
            (
              key,
              pepper,
              provider,
              decoded,
              right,
              rw (decoded, right) refl,
              read,
              sized,
              rw (read, sized) refl,
              built,
            )
      ]
    ]
