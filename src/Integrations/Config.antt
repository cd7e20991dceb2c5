-- ===== src/Integrations/Config.antt =====
-- `_split_config` and `_render_for_read` of integrations_service.py.
use lehen.Prelude.{
  ℕ, String, Bool, true, false, none, some, List, [], ◌∷◌, ◌&&◌, not, any, map, filter, ◌==◌,
  if◌then◌else◌,
}
use lehen.Prelude.Dict.{Dict, lookup, insert}
use lehen.Prelude.Order.{sorted_set}
use lehen.Prelude.Effects.{integration_config, raise_if, pure, ◌>>=◌, ◌>>◌}
use lehen.Arcade.{Arcade}
use lehen.Hub.{Bytes, Value, null, IntegrationInstance, Hub, Host}
use lehen.Crypto.Envelope.{encrypt}
use lehen.Audit.{str, is_blank}
use lehen.Integrations.Registry.{FieldSpec, IntegrationType}

-- The three dicts of `_split_config`.
pub record Split : Type 0 where
  pub public : Dict Value
  pub encrypted : Dict String
  pub plaintext : Dict String

-- config.get(name)
unfoldable pub config_value : String → Dict Value → Value
config_value name config = elim (lookup name config) [ none ↦ null | some v ↦ v ]

abbrev is_null : Value → Bool
is_null null = true
is_null _ = false

-- a key of the config that is no field of the type
abbrev is_unknown : List FieldSpec → String × Value → Bool
is_unknown fields (k, v) = not (any (λ f. f.name == k) fields)

module _ (arcade : Arcade) (host : Host) (key : Bytes) where
  -- the loop over the fields
  unfoldable pub split_fields : Dict Value → Split → List FieldSpec → Hub arcade Split
  unfolding config_value
  split_fields config acc [] = pure acc
  split_fields config acc (field ∷ fields) =
      let value = config_value field.name config in
      let skipped = split_fields config acc fields in
      let shown =
        split_fields config (record acc { public = insert field.name value acc.public }) fields in
      do
        raise_if (field.required && is_blank value) integration_config
        if is_null value
            then skipped
            else if field.secret
            then (do
              sealed ← encrypt arcade host (str host value) key
              split_fields config
                  (record acc {
                    encrypted = insert field.name sealed acc.encrypted;
                    plaintext = insert field.name (str host value) acc.plaintext;
                  })
                  fields)
            else shown

  unfoldable pub split_config : IntegrationType → Dict Value → Hub arcade Split
  unfolding split_fields
  split_config spec config = do
    raise_if (any (is_unknown spec.fields) config) integration_config
    split_fields config (record { public = []; encrypted = []; plaintext = [] }) spec.fields

-- What the API shows of an instance.
pub record Rendered : Type 0 where
  pub id : String
  pub type_id : String
  pub display_name : String
  pub config_public : Dict Value
  pub enabled : Bool
  pub multi_connection_allowed : Bool
  pub created_by : String
  pub created_at : ℕ
  pub updated_by : String
  pub updated_at : ℕ
  pub secret_fields_set : List String

unfoldable pub render_for_read : IntegrationInstance → Rendered
render_for_read doc = record {
  id = doc.id;
  type_id = doc.type_id;
  display_name = doc.display_name;
  config_public = doc.config_public;
  enabled = doc.enabled;
  multi_connection_allowed = doc.multi_connection_allowed;
  created_by = doc.created_by;
  created_at = doc.created_at;
  updated_by = doc.updated_by;
  updated_at = doc.updated_at;
  secret_fields_set =
      sorted_set (map (λ kv. kv.0) (filter (λ kv. not (kv.1 == "")) doc.config_secrets_encrypted));
}
