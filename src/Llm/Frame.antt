-- ===== src/Llm/Frame.antt =====
-- What applying a side of `LLMService` leaves alone: the tables.
use lehen.Prelude.{
  ℕ, String, Bool, Option, none, some, List, [], ◌∷◌, ◌≡◌, refl, any, inl, inr, Bool-cases,
}
use lehen.Prelude.Dict.{Dict}
use lehen.Prelude.Effects.{
  pure, lift, raise_if, llm_config, Keeps, Keeps-bind, Keeps-raise_if, ◌>>◌,
}
use lehen.Arcade.{Arcade}
use lehen.Hub.{Bytes, Value, text, Hub, World, Host}
use lehen.Crypto.Envelope.{encrypt}
use lehen.Crypto.Frame.{encrypt-Keeps}
use lehen.Audit.{str}
use lehen.Integrations.Config.{config_value}
use lehen.Llm.Providers.{LlmProviderFieldSpec, LlmProvider}
use lehen.Llm.Service.{
  Draft, is_null, is_cleared, put_secret, is_unknown, is_missing, resolve_provider, put_public,
  field_key, apply_secret_field, apply_field, apply_each, apply_fields, apply_side, apply_given,
  apply_sides,
}

module _ {ℓ} {X : Type ℓ} (arcade : Arcade) (host : Host) (key : Bytes) (g : World arcade → X)
    (reads : (w : World arcade) (n : ℕ) → g (record w { readings = n }) ≡ g w) where
  apply_secret_field-Keeps :
      (side name : String) (value : Value) (draft : Draft)
      → Keeps g (apply_secret_field arcade host key side name value draft)
  unfolding apply_secret_field
  apply_secret_field-Keeps side name value draft w = elim (Bool-cases (is_null value)) [
    | inl missing ↦ rw missing refl
    | inr given ↦ elim (Bool-cases (is_cleared value)) [
      | inl empty ↦ rw (given, empty) refl
      | inr full ↦
          rw (given, full)
            (Keeps-bind g (encrypt arcade host (str host value) key)
              (λ sealed. pure (put_secret side name (text sealed) (str host value) draft))
              (encrypt-Keeps arcade host key g reads (str host value)) (λ sealed t. refl) w)
    ]
  ]

  apply_field-Keeps :
      (side : String) (payload : Dict Value) (f : LlmProviderFieldSpec) (draft : Draft)
      → Keeps g (apply_field arcade host key side payload f draft)
  unfolding apply_field
  apply_field-Keeps side payload f draft w = elim (Bool-cases f.secret) [
    | inl secret ↦
        rw secret (apply_secret_field-Keeps side f.name (config_value f.name payload) draft w)
    | inr public ↦ rw public refl
  ]

  apply_each-Keeps :
      (side : String) (payload : Dict Value) (fs : List LlmProviderFieldSpec) (draft : Draft)
      → Keeps g (apply_each arcade host key side payload fs draft)
  unfolding apply_each
  apply_each-Keeps side payload [] draft = λ w. refl
  apply_each-Keeps side payload (f ∷ fs) draft =
      Keeps-bind g (apply_field arcade host key side payload f draft)
        (λ next. apply_each arcade host key side payload fs next)
        (apply_field-Keeps side payload f draft) (λ next. apply_each-Keeps side payload fs next)

  apply_given-Keeps :
      (side : String) (payload : Option (Dict Value)) (draft : Draft)
      → Keeps g (apply_given arcade host key side payload draft)
  unfolding apply_side apply_fields
  apply_given-Keeps side none draft = λ w. refl
  apply_given-Keeps side (some payload) draft =
      let missing : LlmProvider → Bool = λ p. any (is_missing side payload draft.merged) p.fields in
      let applied : LlmProvider → Hub arcade Draft =
        λ p. apply_fields arcade host key side p payload draft in
      Keeps-bind g (lift (resolve_provider host payload))
        (λ p.
          raise_if (any (is_unknown p) payload) llm_config
          >> (raise_if (missing p) llm_config >> applied p))
        (λ w. refl)
        (λ p.
          Keeps-raise_if g (any (is_unknown p) payload) llm_config
            (raise_if (missing p) llm_config >> applied p)
            (Keeps-raise_if g (missing p) llm_config (applied p) (
              apply_each-Keeps side payload p.fields
                (put_public (field_key side "provider") (text p.id) draft))))

  pub apply_sides-Keeps :
      (i e : Option (Dict Value)) (draft : Draft) → Keeps g (apply_sides arcade host key i e draft)
  unfolding apply_sides
  apply_sides-Keeps i e draft =
      Keeps-bind g (apply_given arcade host key "inference" i draft)
        (λ once. apply_given arcade host key "embedding" e once)
        (apply_given-Keeps "inference" i draft) (λ once. apply_given-Keeps "embedding" e once)
