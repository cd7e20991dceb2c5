-- ===== src/Tests/Starting.antt =====
-- The theorems about the start of the Hub, on a server whose catalog is a list of names.
use lehen.Prelude.{String, Bool, true, false, none, some, List, [], ◌∷◌, ◌≡◌, refl, All}
use lehen.Prelude.Effects.{ok}
use lehen.Hub.Toy.{toy}
use lehen.Llm.Service.{raw_get}
use lehen.Storage.Bootstrap.{
  Server, has, doc_types, seed_document, is_llm_config_empty, ensure_admin_schema,
}
use lehen.Storage.Started.{started, ensure_admin_schema_idem, started_reads}
use lehen.Tests.{machine, world}

abbrev server : Server
server = record {
  Schema = Bool × List String;
  database_exists = λ s. s.0;
  create_database = λ s. (true, s.1);
  type_names = λ s. s.1;
  create_type = λ name s. (s.0, name ∷ s.1);
  database_exists-create_database = λ s. refl;
  database_exists-create_type = λ name s. refl;
  has-create_type = λ n name s. refl;
}

abbrev bare : Bool × List String
bare = (false, "LocalAdmin" ∷ [])

test_created :
    (started server toy machine none bare (world [])).0
    ≡ ok (
        "LLMConfig" ∷ "IntegrationInstance" ∷ "SIAMMapping" ∷ "IntegrationConnection"
        ∷ "ConsentEvent" ∷ "AdminAuditEvent" ∷ "LoginEvent" ∷ "LocalAdminLoginEvent"
        ∷ "LocalAdminCredentialRotated" ∷ [])
unfolding ensure_admin_schema
test_created = refl

ensure_admin_schema_idem_example :
    let once = started server toy machine none bare (world []) in
    All (λ n. has n (once.1.0).1 ≡ true) doc_types
    × ((once.1.0).0 ≡ true)
    × (is_llm_config_empty server toy machine once.1.1 ≡ false)
    × (ensure_admin_schema server toy machine (some 7) once.1 ≡ (ok [], once.1))
ensure_admin_schema_idem_example =
    ensure_admin_schema_idem server toy machine none (some 7) bare (world [])

started_reads_example :
    let once = started server toy machine (some 7) bare (world []) in
    raw_get toy once.1.1 ≡ (ok (seed_document 7), once.1.1)
started_reads_example = started_reads server toy machine (some 7) bare (world []) refl
