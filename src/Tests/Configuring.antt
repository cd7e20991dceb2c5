-- ===== src/Tests/Configuring.antt =====
-- The theorems about the configuration of the language models.
use lehen.Prelude.{true, none, some, [], ◌∷◌, ◌≡◌, refl}
use lehen.Prelude.Dict.{Dict, lookup, insert}
use lehen.Prelude.Effects.{ok, is_ok}
use lehen.Hub.{Value, text, shown, World, AdminAuditEvent}
use lehen.Hub.Toy.{toy}
use lehen.Crypto.Envelope.{encrypt}
use lehen.Audit.{record_event}
use lehen.Audit.Masking.{lookup_in}
use lehen.Llm.Service.{raw_get, update}
use lehen.Llm.Sides.{inference, key_of}
use lehen.Llm.Fields.{StoredAfter}
use lehen.Integrations.Config.{config_value}
use lehen.Llm.Updating.{update_stored}
use lehen.Llm.Audited.{update_hides}
use lehen.Tests.{machine, key, alice, world}
use lehen.Tests.Governing.{machine-CipherLaws}

abbrev ollama_row : Dict Value
ollama_row =
    ("id", text "default")
    ∷ ("inference_provider", text "ollama")
    ∷ ("embedding_provider", text "openai-compatible")
    ∷ ("embedding_api_key_encrypted", text "sealed")
    ∷ []

abbrev configured : World toy
configured = record (world []) { llm_configs = ollama_row ∷ [] }

abbrev openai : Dict Value
openai = ("provider", text "openai") ∷ ("model", text "gpt-4o-mini") ∷ ("api_key", text "sk-1") ∷ []

-- A run of the update, which succeeds.
test_openai :
    is_ok (update toy machine "pepper" key alice (some openai) none none configured).0 ≡ true
unfolding update lookup insert encrypt record_event
test_openai = refl

update_stored_example :
    (before : Dict Value) × (after : Dict Value) × ((raw_get toy configured).0 ≡ ok before)
    × ((raw_get toy (update toy machine "pepper" key alice (some openai) none none configured).1).0
        ≡ ok after)
    × StoredAfter machine key
        (config_value (key_of inference) before)
        (text "sk-1")
        (config_value (key_of inference) after)
unfolding lookup config_value
update_stored_example =
    update_stored toy machine "pepper" key alice (some openai) none none configured
      machine-CipherLaws refl inference test_openai

update_hides_example :
    (event : AdminAuditEvent) × ((update toy machine "pepper" key alice
        (some openai)
        none
        none
        configured).1.audits
      ≡ toy.insert event configured.audits)
    × ((v : Value)
        → lookup_in "inference_api_key" event.before ≡ some (shown v)
        → v ≡ text "<existing>")
    × ((v : Value)
        → lookup_in "inference_api_key" event.after ≡ some (shown v)
        → v ≡ text "<existing>")
update_hides_example =
    update_hides toy machine "pepper" key alice (some openai) none none configured inference
      test_openai
