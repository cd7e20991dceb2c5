-- ===== src/Llm/Fields.antt =====
-- What the loop over the fields of a side of `LLMService` leaves alone, and what it does to a
-- secret field.
use Prim.Native.String.{count}
use lehen.Prelude.{
  String, false, List, [], ◌∷◌, ◌≡◌, refl, sym, subst, ap, ◌∙◌, All, none, some, eq_refl, ◌==◌,
  if◌then◌else◌, inl, inr, Bool-cases,
}
use lehen.Prelude.Dict.{Dict, lookup, insert, lookup-insert}
use lehen.Prelude.Effects.{ok, pure, OnOk, OnOk-bind, OnOk-after, OnOk-map, OnOk-then, ◌>>=◌}
use lehen.Arcade.{Arcade}
use lehen.Hub.{Bytes, Value, null, text, Hub, World, Host}
use lehen.Crypto.Envelope.{encrypt, decrypt, key_len, CipherLaws, decrypt-encrypt}
use lehen.Audit.{str}
use lehen.Integrations.Config.{config_value}
use lehen.Llm.Providers.{LlmProviderFieldSpec}
use lehen.Llm.Service.{
  Draft, is_null, is_cleared, field_key, secret_key, cleaned, put_secret, apply_secret_field,
  apply_field, apply_each,
}

-- The keys that a field writes in the row are other ones.
abbrev pub IsApart : String → String → LlmProviderFieldSpec → Type 0
IsApart side k f = ((field_key side f.name == k) ≡ false) × ((secret_key side f.name == k) ≡ false)

-- What becomes of a stored secret: it stays where no value was given, is null where "" was, and
-- otherwise decrypts to the value.
abbrev pub StoredAfter : Host → Bytes → Value → Value → Value → Type 0
StoredAfter host key old given new =
    if is_null given
    then new ≡ old
    else if is_cleared given
    then new ≡ null
    else (e : String) × (new ≡ text e) × (decrypt host e key ≡ ok (str host given))

pub lookup-insert_other :
    (k j : String) (v : Value) (d : Dict Value)
    → (k == j) ≡ false
    → lookup j (insert k v d) ≡ lookup j d
lookup-insert_other k j v d other = lookup-insert k j v d ∙ rw other refl

pub config_value-insert :
    (k : String) (v : Value) (d : Dict Value) → config_value k (insert k v d) ≡ v
unfolding config_value
config_value-insert k v d =
    let found : lookup k (insert k v d) ≡ some v = lookup-insert k k v d ∙ rw (eq_refl k) refl in
    ap (λ o. elim o [ none ↦ null | some x ↦ x ]) found

module _ (arcade : Arcade) (host : Host) (key : Bytes) where
  -- The row has under the key what it had.
  abbrev pub IsSameAt : String → Draft → Draft → Type 0
  IsSameAt k draft d = lookup k d.merged ≡ lookup k draft.merged

  apply_secret_field-IsSameAt :
      (side name : String) (value : Value) (draft : Draft) (w : World arcade) (k : String)
      → (secret_key side name == k) ≡ false
      → OnOk (IsSameAt k draft) (apply_secret_field arcade host key side name value draft w).0
  unfolding apply_secret_field
  apply_secret_field-IsSameAt side name value draft w k apart = elim (Bool-cases (is_null value)) [
    | inl missing ↦ rw missing refl
    | inr given ↦ elim (Bool-cases (is_cleared value)) [
      | inl empty ↦
          rw (given, empty) (lookup-insert_other (secret_key side name) k null draft.merged apart)
      | inr full ↦
          rw (given, full)
            (OnOk-after (IsSameAt k draft) (encrypt arcade host (str host value) key)
              (λ sealed. pure (put_secret side name (text sealed) (str host value) draft)) w
              (λ sealed t.
                lookup-insert_other (secret_key side name) k (text sealed) draft.merged apart))
    ]
  ]

  pub apply_field-IsSameAt :
      (side : String) (payload : Dict Value) (f : LlmProviderFieldSpec) (draft : Draft)
      (w : World arcade) (k : String)
      → IsApart side k f
      → OnOk (IsSameAt k draft) (apply_field arcade host key side payload f draft w).0
  unfolding apply_field
  apply_field-IsSameAt side payload f draft w k apart = elim (Bool-cases f.secret) [
    | inl secret ↦
        rw secret
          (apply_secret_field-IsSameAt side f.name (config_value f.name payload) draft w k apart.1)
    | inr public ↦ rw public (
        lookup-insert_other (field_key side f.name) k (cleaned (config_value f.name payload))
          draft.merged apart.0)
  ]

  pub apply_each-IsSameAt :
      (side : String) (payload : Dict Value) (fs : List LlmProviderFieldSpec) (draft : Draft)
      (w : World arcade) (k : String)
      → All (IsApart side k) fs
      → OnOk (IsSameAt k draft) (apply_each arcade host key side payload fs draft w).0
  unfolding apply_each
  apply_each-IsSameAt side payload [] draft w k apart = refl
  apply_each-IsSameAt side payload (f ∷ fs) draft w k apart =
      OnOk-bind (IsSameAt k draft) (IsSameAt k draft)
        (apply_field arcade host key side payload f draft)
        (λ next. apply_each arcade host key side payload fs next) w
        (apply_field-IsSameAt side payload f draft w k apart.0)
        (λ next t same.
          OnOk-map (IsSameAt k next) (IsSameAt k draft) (λ d e. e ∙ same)
            (apply_each arcade host key side payload fs next t).0
            (apply_each-IsSameAt side payload fs next t k apart.1))

  -- What is said of a stored secret, from one draft to the next.
  abbrev pub IsStoredAfter : String → String → Value → Draft → Draft → Type 0
  IsStoredAfter side name value draft d =
      StoredAfter host key (config_value (secret_key side name) draft.merged) value
        (config_value (secret_key side name) d.merged)

  -- A secret field, in an installation whose key has 32 bytes.
  pub apply_secret_field-IsStoredAfter :
      CipherLaws host
      → count key ≡ key_len
      → (side name : String) (value : Value) (draft : Draft) (w : World arcade)
      → OnOk
          (λ d.
            StoredAfter host key
              (config_value (secret_key side name) draft.merged)
              value
              (config_value (secret_key side name) d.merged))
          (apply_secret_field arcade host key side name value draft w).0
  unfolding apply_secret_field
  apply_secret_field-IsStoredAfter laws size side name value draft w =
      elim (Bool-cases (is_null value)) [
        | inl missing ↦ rw missing refl
        | inr given ↦ elim (Bool-cases (is_cleared value)) [
          | inl empty ↦
              rw (given, empty) (config_value-insert (secret_key side name) null draft.merged)
          | inr full ↦
              let (e, sealed, opens) =
                decrypt-encrypt arcade host laws (str host value) key w size in
              let m = encrypt arcade host (str host value) key in
              let f : String → Hub arcade Draft =
                λ envelope. pure (put_secret side name (text envelope) (str host value) draft) in
              let P = IsStoredAfter side name value draft in
              let runs : apply_secret_field arcade host key side name value draft w ≡ (m >>= f) w =
                rw (given, full) refl in
              let stored : P (put_secret side name (text e) (str host value) draft) =
                rw (given, full)
                  (e, config_value-insert (secret_key side name) (text e) draft.merged, opens) in
              subst (λ x. OnOk P x.0) (sym runs) (OnOk-then P m f w sealed stored)
        ]
      ]
