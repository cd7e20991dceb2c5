-- ===== src/Llm/Stored.antt =====
-- What an update of `LLMService` leaves in the row.
use Prim.Native.String.{count}
use lehen.Prelude.{
  String, Bool, true, false, none, some, List, [], ◌∷◌, ◌≡◌, refl, sym, subst, ap, ◌∙◌, ◌⊎◌, inl,
  inr, All, any, ◌==◌, Bool-cases, eq_iff, arith,
}
use lehen.Prelude.Dict.{Dict, lookup}
use lehen.Prelude.Effects.{
  OnOk, OnOk-bind, OnOk-map, OnOk-raise_if, lift, raise_if, llm_config, ◌>>◌,
}
use lehen.Arcade.{Arcade}
use lehen.Hub.{Bytes, Value, null, text, Hub, World, Host}
use lehen.Crypto.Envelope.{key_len, CipherLaws}
use lehen.Audit.{str}
use lehen.Integrations.Config.{config_value}
use lehen.Llm.Providers.{LlmProviderFieldSpec, LlmProvider, get_provider, llm_providers}
use lehen.Hub.Values.{truthy}
use lehen.Llm.Service.{
  Draft, is_null, field_key, secret_key, is_unknown, resolve_provider, put_public, is_missing,
  apply_field, apply_each, apply_fields, apply_side, or_llm_error,
}
use lehen.Llm.Fields.{
  IsApart, StoredAfter, IsSameAt, apply_field-IsSameAt, apply_each-IsSameAt,
  apply_secret_field-IsStoredAfter, lookup-insert_other,
}

-- What holds of every provider of the catalog holds of one that was found.
pub get_provider-OnOk {κ} :
    (P : LlmProvider → Type κ) (id : String)
    → All P llm_providers
    → OnOk P (or_llm_error (get_provider id))
unfolding get_provider llm_providers
get_provider-OnOk P id all = elim (Bool-cases ("ollama" == id)) [
  | inl first ↦ rw (OnOk, first) all.0
  | inr later ↦ elim (Bool-cases ("openai-compatible" == id)) [
    | inl second ↦ rw (OnOk, later, second) all.1.0
    | inr last ↦ elim (Bool-cases ("openai" == id)) [
      | inl third ↦ rw (OnOk, later, last, third) all.1.1.0
      | inr unknown ↦ rw (OnOk, later, last, unknown) tt
    ]
  ]
]

pub resolve_provider-OnOk {κ} :
    (P : LlmProvider → Type κ) (host : Host) (payload : Dict Value)
    → All P llm_providers
    → OnOk P (resolve_provider host payload)
unfolding resolve_provider
resolve_provider-OnOk P host payload all =
    elim (Bool-cases (truthy (config_value "provider" payload))) [
      | inl given ↦ rw given (get_provider-OnOk P (str host (config_value "provider" payload)) all)
      | inr missing ↦ rw missing tt
    ]

pub config_value-same :
    (k : String) (a b : Dict Value) → lookup k a ≡ lookup k b → config_value k a ≡ config_value k b
unfolding config_value
config_value-same k a b e = ap (λ o. elim o [ none ↦ null | some v ↦ v ]) e

-- A key that a test on the items would have found is missing.
lookup-any_none :
    (q : String × Value → Bool) (k : String) (d : Dict Value)
    → ((v : Value) → q (k, v) ≡ true)
    → any q d ≡ false
    → config_value k d ≡ null
unfolding config_value lookup
lookup-any_none q k [] always h = refl
lookup-any_none q k ((j, v) ∷ d) always h = elim (Bool-cases (j == k)) [
  | inl same ↦
      let found : q (j, v) ≡ true =
        subst (λ i. q (i, v) ≡ true) (sym ((eq_iff j k).0 same)) (always v) in
      let h' = rw found at h in absurd (cc h')
  | inr other ↦ rw (config_value, other) (lookup-any_none q k d always (ground arith))
]

module _ (arcade : Arcade) (host : Host) (key : Bytes) where
  -- The keys that no field of any provider writes on a side.
  abbrev pub IsApartAll : String → String → Type 0
  IsApartAll side k =
      ((field_key side "provider" == k) ≡ false)
      × All (λ p. All (IsApart side k) p.fields) llm_providers

  -- A side is applied for a provider of the catalog, and a payload with no other keys.
  pub apply_side-OnOk {κ ι} :
      (C : LlmProvider → Type κ) (Q : Draft → Type ι) (side : String) (payload : Dict Value)
      (draft : Draft) (w : World arcade)
      → All C llm_providers
      → ((p : LlmProvider) (t : World arcade)
          → C p
          → any (is_unknown p) payload ≡ false
          → OnOk Q (apply_fields arcade host key side p payload draft t).0)
      → OnOk Q (apply_side arcade host key side payload draft w).0
  unfolding apply_side
  apply_side-OnOk C Q side payload draft w all step =
      let applied : LlmProvider → Hub arcade Draft =
        λ p. apply_fields arcade host key side p payload draft in
      let missing : LlmProvider → Bool = λ p. any (is_missing side payload draft.merged) p.fields in
      OnOk-bind C Q (lift (resolve_provider host payload))
        (λ p.
          raise_if (any (is_unknown p) payload) llm_config
          >> (raise_if (missing p) llm_config >> applied p))
        w (resolve_provider-OnOk C host payload all)
        (λ p t c.
          OnOk-raise_if Q (any (is_unknown p) payload) llm_config
            (raise_if (missing p) llm_config >> applied p) t
            (λ known. OnOk-raise_if Q (missing p) llm_config (applied p) t (λ _. step p t c known)))

  pub apply_side-IsSameAt :
      (side : String) (payload : Dict Value) (draft : Draft) (w : World arcade) (k : String)
      → IsApartAll side k
      → OnOk (IsSameAt arcade host key k draft) (apply_side arcade host key side payload draft w).0
  unfolding apply_fields
  apply_side-IsSameAt side payload draft w k (same, apart) =
      let P = IsSameAt arcade host key k draft in
      apply_side-OnOk (λ p. All (IsApart side k) p.fields) P side payload draft w apart
        (λ p t fields known.
          let started = put_public (field_key side "provider") (text p.id) draft in
          OnOk-map (IsSameAt arcade host key k started) P
            (λ d e.
              e ∙ lookup-insert_other (field_key side "provider") k (text p.id) draft.merged same)
            (apply_fields arcade host key side p payload draft t).0
            (apply_each-IsSameAt arcade host key side payload p.fields started t k fields))

  module _ (laws : CipherLaws host) (size : count key ≡ key_len) (side : String)
      (payload : Dict Value) where
    abbrev given : Value
    given = config_value "api_key" payload

    abbrev target : String
    target = secret_key side "api_key"

    abbrev IsStored : Draft → Draft → Type 0
    IsStored draft d =
        StoredAfter host key (config_value target draft.merged) given (config_value target d.merged)

    -- Every field writes other keys than the secret's, but one at most: the secret.
    abbrev IsOnce : List LlmProviderFieldSpec → Type 0
    IsOnce [] = Unit
    IsOnce (f ∷ fs) =
        (((f.name == "api_key") ≡ false) × IsApart side target f × IsOnce fs)
        ⊎ ((f.secret ≡ true) × (f.name ≡ "api_key") × All (IsApart side target) fs)

    apply_field-IsStored :
        (f : LlmProviderFieldSpec) (draft : Draft) (w : World arcade)
        → f.secret ≡ true
        → f.name ≡ "api_key"
        → OnOk (IsStored draft) (apply_field arcade host key side payload f draft w).0
    unfolding apply_field
    apply_field-IsStored f draft w secret name =
        rw (secret, name)
          (apply_secret_field-IsStoredAfter arcade host key laws size side "api_key" given draft w)

    apply_each-IsStored :
        (fs : List LlmProviderFieldSpec) (draft : Draft) (w : World arcade)
        → IsOnce fs
        → (any (λ f. f.name == "api_key") fs ≡ false → is_null given ≡ true)
        → OnOk (IsStored draft) (apply_each arcade host key side payload fs draft w).0
    unfolding apply_each
    apply_each-IsStored [] draft w once absent = rw (absent refl) refl
    apply_each-IsStored (f ∷ fs) draft w (inl (other, apart, once)) absent =
        OnOk-bind (IsSameAt arcade host key target draft) (IsStored draft)
          (apply_field arcade host key side payload f draft)
          (λ next. apply_each arcade host key side payload fs next) w
          (apply_field-IsSameAt arcade host key side payload f draft w target apart)
          (λ next t same.
            subst
              (λ old.
                OnOk (λ d. StoredAfter host key old given (config_value target d.merged))
                  (apply_each arcade host key side payload fs next t).0)
              (config_value-same target next.merged draft.merged same)
              (apply_each-IsStored fs next t once (λ none. absent (rw (other, none) refl))))
    apply_each-IsStored (f ∷ fs) draft w (inr (secret, name, apart)) absent =
        OnOk-bind (IsStored draft) (IsStored draft)
          (apply_field arcade host key side payload f draft)
          (λ next. apply_each arcade host key side payload fs next) w
          (apply_field-IsStored f draft w secret name)
          (λ next t stored.
            OnOk-map (IsSameAt arcade host key target next) (IsStored draft)
              (λ d same.
                subst (StoredAfter host key (config_value target draft.merged) given)
                  (sym (config_value-same target d.merged next.merged same)) stored)
              (apply_each arcade host key side payload fs next t).0
              (apply_each-IsSameAt arcade host key side payload fs next t target apart))

    pub apply_side-IsStored :
        (draft : Draft) (w : World arcade)
        → ((field_key side "provider" == target) ≡ false)
        → All (λ p. IsOnce p.fields) llm_providers
        → OnOk (IsStored draft) (apply_side arcade host key side payload draft w).0
    unfolding apply_fields
    apply_side-IsStored draft w other once =
        apply_side-OnOk (λ p. IsOnce p.fields) (IsStored draft) side payload draft w once
          (λ p t fields known.
            let started = put_public (field_key side "provider") (text p.id) draft in
            let same = config_value-same target started.merged draft.merged (
              lookup-insert_other (field_key side "provider") target (text p.id) draft.merged
                other) in
            subst
              (λ old.
                OnOk (λ d. StoredAfter host key old given (config_value target d.merged))
                  (apply_fields arcade host key side p payload draft t).0)
              same
              (apply_each-IsStored p.fields started t fields (λ none.
                ap is_null
                  (lookup-any_none (is_unknown p) "api_key" payload (λ v. rw none refl) known))))
