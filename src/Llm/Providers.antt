-- ===== src/Llm/Providers.antt =====
-- llm/providers.py: the catalog, without the texts that only the admin interface shows.
use lehen.Prelude.{
  String, Bool, true, false, Option, none, some, List, [], ◌∷◌, ◌==◌, if◌then◌else◌,
}
use lehen.Prelude.Effects.{Result, ok, err, unknown_llm_provider}

pub record LlmProviderFieldSpec : Type 0 where
  pub name : String
  pub required : Bool
  pub secret : Bool

pub record LlmProvider : Type 0 where
  pub id : String
  pub fields : List LlmProviderFieldSpec

-- a field's name, and whether it is required and secret
abbrev field : String → Bool → Bool → LlmProviderFieldSpec
field name required secret = record { name = name; required = required; secret = secret }

unfoldable pub llm_providers : List LlmProvider
llm_providers =
    record { id = "ollama"; fields = field "base_url" true false ∷ field "model" true false ∷ [] }
    ∷ record {
      id = "openai-compatible";
      fields =
          field "base_url" true false ∷ field "model" true false ∷ field "api_key" false true ∷ [];
    }
    ∷ record {
      id = "openai";
      fields =
          field "base_url" false false ∷ field "model" true false ∷ field "api_key" true true ∷ [];
    }
    ∷ []

-- _BY_ID.get(provider_id)
unfoldable pub provider_in : String → List LlmProvider → Option LlmProvider
provider_in provider_id [] = none
provider_in provider_id (p ∷ ps) =
    if p.id == provider_id then some p else provider_in provider_id ps

unfoldable pub get_provider : String → Result LlmProvider
unfolding provider_in llm_providers
get_provider provider_id = elim (provider_in provider_id llm_providers) [
  | none ↦ err unknown_llm_provider
  | some spec ↦ ok spec
]
