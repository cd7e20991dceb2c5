-- ===== src/Integrations/Registry.antt =====
-- integrations/registry.py: the types, without the texts that only the admin interface shows.
use lehen.Prelude.{
  String, Bool, true, false, Option, none, some, List, [], ◌∷◌, map, filter, ◌==◌, if◌then◌else◌,
}
use lehen.Prelude.Effects.{Result, ok, err, unknown_integration_type}

pub data ConnectionCardinality : Type 0 where
  single multi : ConnectionCardinality

pub record FieldSpec : Type 0 where
  pub name : String
  pub required : Bool
  pub secret : Bool

pub record IntegrationType : Type 0 where
  pub id : String
  pub fields : List FieldSpec
  pub connection_cardinality : ConnectionCardinality

-- a field's name, and whether it is required and secret
abbrev field : String → Bool → Bool → FieldSpec
field name required secret = record { name = name; required = required; secret = secret }

unfoldable pub integration_types : List IntegrationType
integration_types =
    record { id = "outlook-edge-com"; fields = []; connection_cardinality = multi }
    ∷ record {
      id = "outlook-graph";
      fields =
          field "tenant_id" true false
          ∷ field "client_id" true false
          ∷ field "client_secret" false true
          ∷ [];
      connection_cardinality = multi;
    }
    ∷ record {
      id = "teams-graph";
      fields =
          field "tenant_id" true false
          ∷ field "client_id" true false
          ∷ field "client_secret" true true
          ∷ [];
      connection_cardinality = single;
    }
    ∷ record {
      id = "itsm-rest-generic";
      fields = field "base_url" true false ∷ field "api_key" true true ∷ [];
      connection_cardinality = single;
    }
    ∷ []

-- _BY_ID.get(type_id)
unfoldable pub type_in : String → List IntegrationType → Option IntegrationType
type_in type_id [] = none
type_in type_id (t ∷ ts) = if t.id == type_id then some t else type_in type_id ts

unfoldable pub get_type : String → Result IntegrationType
unfolding type_in integration_types
get_type type_id = elim (type_in type_id integration_types) [
  | none ↦ err unknown_integration_type
  | some spec ↦ ok spec
]

unfoldable pub secret_field_names : IntegrationType → List String
secret_field_names spec = map (λ f. f.name) (filter (λ f. f.secret) spec.fields)
