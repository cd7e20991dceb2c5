-- ===== src/Llm/Sides.antt =====
-- An update of `LLMService` as a whole: the two sides, and the row that is written.
use Prim.Native.String.{count}
use lehen.Prelude.{String, Option, none, some, ◌≡◌, refl, sym, subst, ◌∙◌, inl, inr}
use lehen.Prelude.Dict.{Dict}
use lehen.Prelude.Effects.{OnOk, OnOk-bind, OnOk-map}
use lehen.Arcade.{Arcade}
use lehen.Hub.{Bytes, Value, null, World, Host}
use lehen.Crypto.Envelope.{key_len, CipherLaws}
use lehen.Integrations.Config.{config_value}
use lehen.Llm.Providers.{llm_providers}
use lehen.Llm.Service.{Draft, secret_key, apply_given, apply_sides}
use lehen.Llm.Fields.{StoredAfter, IsSameAt, IsStoredAfter}
use lehen.Llm.Stored.{IsApartAll, apply_side-IsSameAt, apply_side-IsStored, config_value-same}

pub data Side : Type 0 where
  inference embedding : Side

abbrev pub name_of : Side → String
name_of inference = "inference"
name_of embedding = "embedding"

-- The key that an update gives for a side, null if it has none.
abbrev pub given_key : Option (Dict Value) → Value
given_key none = null
given_key (some payload) = config_value "api_key" payload

abbrev pub payload_of : Side → Option (Dict Value) → Option (Dict Value) → Option (Dict Value)
payload_of inference i e = i
payload_of embedding i e = e

abbrev pub key_of : Side → String
key_of side = secret_key (name_of side) "api_key"

module _ (arcade : Arcade) (host : Host) (key : Bytes) where
  apply_given-IsSameAt :
      (side : String) (payload : Option (Dict Value)) (draft : Draft) (w : World arcade)
      (k : String)
      → IsApartAll arcade host key side k
      → OnOk (IsSameAt arcade host key k draft) (apply_given arcade host key side payload draft w).0
  apply_given-IsSameAt side none draft w k apart = refl
  apply_given-IsSameAt side (some payload) draft w k apart =
      apply_side-IsSameAt arcade host key side payload draft w k apart

  pub apply_sides-id :
      (i e : Option (Dict Value)) (draft : Draft) (w : World arcade)
      → OnOk (IsSameAt arcade host key "id" draft) (apply_sides arcade host key i e draft w).0
  unfolding apply_sides llm_providers
  apply_sides-id i e draft w =
      OnOk-bind (IsSameAt arcade host key "id" draft) (IsSameAt arcade host key "id" draft)
        (apply_given arcade host key "inference" i draft)
        (λ once. apply_given arcade host key "embedding" e once) w
        (apply_given-IsSameAt "inference" i draft w "id" (
          refl,
          (
            ((refl, refl), ((refl, refl), tt)),
            (
              ((refl, refl), ((refl, refl), ((refl, refl), tt))),
              (((refl, refl), ((refl, refl), ((refl, refl), tt))), tt),
            ),
          ),
        ))
        (λ once t same.
          OnOk-map (IsSameAt arcade host key "id" once) (IsSameAt arcade host key "id" draft)
            (λ d new. new ∙ same) (apply_given arcade host key "embedding" e once t).0
            (apply_given-IsSameAt "embedding" e once t "id" (
              refl,
              (
                ((refl, refl), ((refl, refl), tt)),
                (
                  ((refl, refl), ((refl, refl), ((refl, refl), tt))),
                  (((refl, refl), ((refl, refl), ((refl, refl), tt))), tt),
                ),
              ),
            )))

  module _ (laws : CipherLaws host) (size : count key ≡ key_len) where
    apply_given-IsStored :
        (side : Side) (payload : Option (Dict Value)) (draft : Draft) (w : World arcade)
        → OnOk
            (IsStoredAfter arcade host key (name_of side) "api_key" (given_key payload) draft)
            (apply_given arcade host key (name_of side) payload draft w).0
    unfolding llm_providers
    apply_given-IsStored side none draft w = refl
    apply_given-IsStored inference (some payload) draft w =
        apply_side-IsStored arcade host key laws size "inference" payload draft w refl (
          inl (refl, (refl, refl), inl (refl, (refl, refl), tt)),
          (
            inl (refl, (refl, refl), inl (refl, (refl, refl), inr (refl, refl, tt))),
            (inl (refl, (refl, refl), inl (refl, (refl, refl), inr (refl, refl, tt))), tt),
          ),
        )
    apply_given-IsStored embedding (some payload) draft w =
        apply_side-IsStored arcade host key laws size "embedding" payload draft w refl (
          inl (refl, (refl, refl), inl (refl, (refl, refl), tt)),
          (
            inl (refl, (refl, refl), inl (refl, (refl, refl), inr (refl, refl, tt))),
            (inl (refl, (refl, refl), inl (refl, (refl, refl), inr (refl, refl, tt))), tt),
          ),
        )

    abbrev pub IsStored : Side → Option (Dict Value) → Option (Dict Value) → Draft → Draft → Type 0
    IsStored side i e =
        IsStoredAfter arcade host key (name_of side) "api_key" (given_key (payload_of side i e))

    pub apply_sides-IsStored :
        (side : Side) (i e : Option (Dict Value)) (draft : Draft) (w : World arcade)
        → OnOk (IsStored side i e draft) (apply_sides arcade host key i e draft w).0
    unfolding apply_sides llm_providers
    apply_sides-IsStored inference i e draft w =
        OnOk-bind (IsStored inference i e draft) (IsStored inference i e draft)
          (apply_given arcade host key "inference" i draft)
          (λ once. apply_given arcade host key "embedding" e once) w
          (apply_given-IsStored inference i draft w)
          (λ once t stored.
            OnOk-map (IsSameAt arcade host key (key_of inference) once)
              (IsStored inference i e draft)
              (λ d same.
                subst
                  (StoredAfter host key (config_value (key_of inference) draft.merged)
                    (given_key i))
                  (sym (config_value-same (key_of inference) d.merged once.merged same)) stored)
              (apply_given arcade host key "embedding" e once t).0
              (apply_given-IsSameAt "embedding" e once t (key_of inference) (
                refl,
                (
                  ((refl, refl), ((refl, refl), tt)),
                  (
                    ((refl, refl), ((refl, refl), ((refl, refl), tt))),
                    (((refl, refl), ((refl, refl), ((refl, refl), tt))), tt),
                  ),
                ),
              )))
    apply_sides-IsStored embedding i e draft w =
        OnOk-bind (IsSameAt arcade host key (key_of embedding) draft) (IsStored embedding i e draft)
          (apply_given arcade host key "inference" i draft)
          (λ once. apply_given arcade host key "embedding" e once) w
          (apply_given-IsSameAt "inference" i draft w (key_of embedding) (
            refl,
            (
              ((refl, refl), ((refl, refl), tt)),
              (
                ((refl, refl), ((refl, refl), ((refl, refl), tt))),
                (((refl, refl), ((refl, refl), ((refl, refl), tt))), tt),
              ),
            ),
          ))
          (λ once t same.
            subst
              (λ old.
                OnOk
                  (λ d.
                    StoredAfter host key old (given_key e)
                      (config_value (key_of embedding) d.merged))
                  (apply_given arcade host key "embedding" e once t).0)
              (config_value-same (key_of embedding) once.merged draft.merged same)
              (apply_given-IsStored embedding e once t))
