-- ===== src/Storage/Bootstrap.antt =====
-- `ensure_admin_schema` of storage/bootstrap.py. The state is the schema of the database server, a
-- parameter, beside the one of the Hub, which has a table for each document type.
use lehen.Prelude.{
  ℕ, String, Bool, true, Option, none, some, List, [], ◌∷◌, ◌≡◌, ◌||◌, not, any, eqb, count_if,
  ◌==◌, if◌then◌else◌,
}
use lehen.Prelude.Dict.{Dict}
use lehen.Prelude.Effects.{Exec, ok, pure, gets, modify, ◌>>=◌, ◌>>◌}
use lehen.Arcade.{Arcade}
use lehen.Hub.{Value, text, World, Host, now}

-- type_name in existing
abbrev pub has : String → List String → Bool
has name names = any (λ n. n == name) names

-- The server-admin commands of ArcadeDB and its catalog of document types, with what they do.
pub record Server : Type 1 where
  pub Schema : Type 0
  pub database_exists : Schema → Bool
  -- CREATE DATABASE
  pub create_database : Schema → Schema
  -- SELECT name FROM schema:types
  pub type_names : Schema → List String
  -- CREATE DOCUMENT TYPE ... IF NOT EXISTS
  pub create_type : String → Schema → Schema
  pub database_exists-create_database : (s : Schema) → database_exists (create_database s) ≡ true
  pub database_exists-create_type :
      (name : String) (s : Schema) → database_exists (create_type name s) ≡ database_exists s
  pub has-create_type :
      (n name : String) (s : Schema)
      → has n (type_names (create_type name s)) ≡ ((name == n) || has n (type_names s))

abbrev pub doc_types : List String
doc_types =
    "LLMConfig" ∷ "IntegrationInstance" ∷ "SIAMMapping" ∷ "IntegrationConnection" ∷ "ConsentEvent"
    ∷ "AdminAuditEvent" ∷ "LoginEvent" ∷ "LocalAdmin" ∷ "LocalAdminLoginEvent"
    ∷ "LocalAdminCredentialRotated" ∷ []

-- The document of `_seed_llm_config`.
unfoldable pub seed_document : ℕ → Dict Value
seed_document ts =
    ("id", text "default")
    ∷ ("inference_provider", text "ollama")
    ∷ ("inference_model", text "gemma4:e4b")
    ∷ ("inference_base_url", text "http://host.docker.internal:11434")
    ∷ ("embedding_provider", text "ollama")
    ∷ ("embedding_model", text "nomic-embed-text")
    ∷ ("embedding_base_url", text "http://host.docker.internal:11434")
    ∷ ("updated_by", text "system-bootstrap")
    ∷ ("updated_at", Value.num ts)
    ∷ []

module _ (server : Server) where
  open server use {Schema, database_exists, create_database, type_names, create_type}

  abbrev pub ensure_database : Schema → Schema
  ensure_database s = if not (database_exists s) then create_database s else s

  -- one round of the loop
  abbrev pub create_if_missing : List String → String → Schema → Schema
  create_if_missing existing name s = if has name existing then s else create_type name s

  -- the loop, with the names that it creates
  unfoldable pub create_types : List String → List String → Schema → List String × Schema
  create_types existing [] s = ([], s)
  create_types existing (name ∷ names) s =
      let rest = create_types existing names (create_if_missing existing name s) in
      (if has name existing then rest.0 else name ∷ rest.0, rest.1)

  module _ (arcade : Arcade) (host : Host) where
    abbrev pub Start : Type 0 → Type 0
    Start A = Exec (Schema × World arcade) A

    -- `now or datetime.now(UTC)`
    abbrev pub now_or : Option ℕ → Start ℕ
    now_or (some ts) (s, w) = (ok ts, (s, w))
    now_or none (s, w) = let (r, w') = now arcade host w in (r, (s, w'))

    -- SELECT count(*) FROM LLMConfig
    abbrev pub is_llm_config_empty : World arcade → Bool
    is_llm_config_empty w = eqb (count_if (λ row. true) (arcade.rows w.llm_configs)) 0

    unfoldable pub seed_llm_config : ℕ → World arcade → World arcade
    unfolding seed_document
    seed_llm_config ts w = record w { llm_configs = arcade.insert (seed_document ts) w.llm_configs }

    abbrev pub seed_if_empty : ℕ → World arcade → World arcade
    seed_if_empty ts w = if is_llm_config_empty w then seed_llm_config ts w else w

    unfoldable pub ensure_admin_schema : Option ℕ → Start (List String)
    unfolding create_types seed_llm_config
    ensure_admin_schema given = do
      ts ← now_or given
      modify (λ x. (ensure_database x.0, x.1))
      existing ← gets (λ x. type_names x.0)
      created ← (λ x. let made = create_types existing doc_types x.0 in (ok made.0, (made.1, x.1)))
      modify (λ x. (x.0, seed_if_empty ts x.1))
      pure created
