-- ===== src/Integrations/Service.antt =====
-- `IntegrationsService` of integrations_service.py. The revoke cascade is the hook that main.py
-- sets: none before that.
use lehen.Prelude.{
  ℕ, String, Bool, true, false, Option, none, some, List, [], ◌∷◌, ◌&&◌, not, ◌==◌, if◌then◌else◌,
}
use lehen.Prelude.Dict.{Dict, lookup, insert, merge}
use lehen.Prelude.Effects.{
  Result, ok, err, integration_config, integration_instance_conflict,
  integration_instance_not_found, gets, pure, lift, raise_if, or_raise, modify, ◌>>=◌, ◌>>◌,
}
use lehen.Arcade.{Arcade, select}
use lehen.Hub.{Bytes, CurrentUser, IntegrationInstance, Value, text, Hub, Host, now}
use lehen.Audit.{record_event}
use lehen.Connections.Rows.{first, is_empty}
use lehen.Integrations.Registry.{IntegrationType, single, multi, get_type, secret_field_names}
use lehen.Integrations.Config.{Split, split_config, Rendered, render_for_read}

abbrev pub RevokeCascadeHook : Arcade → Type 0
RevokeCascadeHook arcade = String → String → Option String → Hub arcade ℕ

-- `except UnknownIntegrationTypeError: raise IntegrationConfigError`
abbrev pub or_config_error : Result IntegrationType → Result IntegrationType
or_config_error (ok spec) = ok spec
or_config_error (err e) = err integration_config

abbrev pub is_single : IntegrationType → Bool
is_single spec = elim spec.connection_cardinality [ single ↦ true | multi ↦ false ]

-- the loop that marks the secrets that are set: d[f] = "<existing>"
unfoldable pub mark_existing : Dict String → List String → Dict Value → Dict Value
mark_existing secrets [] doc = doc
mark_existing secrets (f ∷ fs) doc = mark_existing secrets fs (elim (lookup f secrets) [
  | none ↦ doc
  | some sealed ↦ if sealed == "" then doc else insert f (text "<existing>") doc
])

-- texts as values
unfoldable pub as_values : Dict String → Dict Value
as_values [] = []
as_values ((k, v) ∷ d) = (k, text v) ∷ as_values d

-- The fields of an instance that the audit log names.
unfoldable pub audited_fields : IntegrationInstance → Dict Value
audited_fields doc =
    ("id", text doc.id)
    ∷ ("type", text doc.type_id)
    ∷ ("display_name", text doc.display_name)
    ∷ ("enabled", Value.flag doc.enabled)
    ∷ ("multi_connection_allowed", Value.flag doc.multi_connection_allowed)
    ∷ []

-- `if x is not None: d[k] = x`
abbrev pub set_if {ℓ} : {A : Type ℓ} → String → (A → Value) → Option A → Dict Value → Dict Value
set_if k f none d = d
set_if k f (some x) d = insert k (f x) d

abbrev pub or_old {ℓ} : {A : Type ℓ} → Option A → A → A
or_old none old = old
or_old (some x) old = x

-- The optional arguments of `update`.
pub record Changes : Type 0 where
  pub display_name : Option String
  pub config : Option (Dict Value)
  pub enabled : Option Bool
  pub multi_connection_allowed : Option Bool

-- `multi_connection_allowed is True`
abbrev pub is_true : Option Bool → Bool
is_true none = false
is_true (some b) = b

-- The row that `update` writes.
abbrev pub merged_of : CurrentUser → Changes → IntegrationInstance → Split → ℕ → IntegrationInstance
merged_of actor changes before split ts = record before {
  display_name = or_old changes.display_name before.display_name;
  enabled = or_old changes.enabled before.enabled;
  multi_connection_allowed =
      or_old changes.multi_connection_allowed before.multi_connection_allowed;
  config_public = merge before.config_public split.public;
  config_secrets_encrypted = merge before.config_secrets_encrypted split.encrypted;
  updated_by = actor.username;
  updated_at = ts;
}

module _ (arcade : Arcade) (host : Host) (pepper key : Bytes)
    (hook : Option (RevokeCascadeHook arcade)) where
  -- `_raw_get`
  unfoldable pub raw_get : String → Hub arcade IntegrationInstance
  raw_get instance_id = do
    found ← gets (λ w. first (select arcade (λ i. i.id == instance_id) w.instances))
    or_raise found integration_instance_not_found

  unfoldable pub get_instance : String → Hub arcade Rendered
  unfolding raw_get
  get_instance instance_id = do doc ← raw_get instance_id; pure (render_for_read doc)

  unfoldable pub call_hook :
      Option (RevokeCascadeHook arcade) → String → String → Option String → Hub arcade Unit
  call_hook none instance_id reason request_id = pure tt
  call_hook (some cascade) instance_id reason request_id = do
    revoked ← cascade instance_id reason request_id
    pure tt

  -- the audit record of an action on an instance
  unfoldable pub audit_change :
      CurrentUser
      → String
      → String
      → IntegrationType
      → Option (Dict Value)
      → Option (Dict Value)
      → Option String
      → Hub arcade Unit
  audit_change actor action instance_id spec before after request_id =
      record_event host pepper arcade (record {
        actor_sub = actor.sub;
        actor_username = actor.username;
        action = action;
        target_id = some instance_id;
        before = before;
        after = after;
        secret_fields = secret_field_names spec;
        request_id = request_id;
      })

  unfoldable pub create :
      CurrentUser
      → String
      → String
      → String
      → Dict Value
      → Bool
      → Bool
      → Option String
      → Hub arcade Rendered
  unfolding audit_change
  create actor instance_id type_id display_name config multi_connection_allowed enabled request_id =
      do
        spec ← lift (or_config_error (get_type type_id))
        raise_if (is_single spec && multi_connection_allowed) integration_config
        existing ← gets (λ w. select arcade (λ i. i.id == instance_id) w.instances)
        raise_if (not (is_empty existing)) integration_instance_conflict
        split ← split_config arcade host key spec config
        ts ← now arcade host
        let doc : IntegrationInstance = record {
          id = instance_id;
          type_id = type_id;
          display_name = display_name;
          config_public = split.public;
          config_secrets_encrypted = split.encrypted;
          enabled = enabled;
          multi_connection_allowed = multi_connection_allowed;
          created_by = actor.username;
          created_at = ts;
          updated_by = actor.username;
          updated_at = ts;
        }
        modify (λ w. record w { instances = arcade.insert doc w.instances })
        audit_change actor "integration.create" instance_id spec none
            (some (merge (merge (audited_fields doc) split.public) (as_values split.plaintext)))
            request_id
        pure (render_for_read doc)

  -- `if config is not None`: what `_split_config` gives, or nothing to merge
  unfoldable pub split_changes : IntegrationType → Option (Dict Value) → Hub arcade Split
  split_changes spec none = pure (record { public = []; encrypted = []; plaintext = [] })
  split_changes spec (some config) = split_config arcade host key spec config

  -- `update` from the UPDATE to the audit record
  unfoldable pub store_changes :
      CurrentUser
      → String
      → Changes
      → Option String
      → IntegrationInstance
      → IntegrationType
      → Split
      → Hub arcade IntegrationInstance
  unfolding audit_change
  store_changes actor instance_id changes request_id before spec split = do
    let before_audit =
        mark_existing before.config_secrets_encrypted (secret_field_names spec)
          (merge (audited_fields (record before { id = instance_id })) before.config_public)
    let renamed = set_if "display_name" text changes.display_name before_audit
    let switched = set_if "enabled" Value.flag changes.enabled renamed
    let after_audit =
        set_if "multi_connection_allowed" Value.flag changes.multi_connection_allowed switched
    ts ← now arcade host
    let merged_doc = merged_of actor changes before split ts
    modify (λ w. record w {
      instances = arcade.update (λ i. i.id == instance_id) (λ _. merged_doc) w.instances;
    })
    audit_change actor "integration.update" instance_id spec (some before_audit)
        (some (merge (merge after_audit split.public) (as_values split.plaintext))) request_id
    pure merged_doc

  -- the cascade of an update that switches the instance off
  unfoldable pub cascade_if_disabled :
      String → Option String → IntegrationInstance → IntegrationInstance → Hub arcade Unit
  unfolding call_hook
  cascade_if_disabled instance_id request_id before merged_doc =
      if before.enabled && not merged_doc.enabled
      then call_hook hook instance_id "revoked-by-admin-disable" request_id
      else pure tt

  -- `update` from the UPDATE on
  unfoldable pub save_changes :
      CurrentUser
      → String
      → Changes
      → Option String
      → IntegrationInstance
      → IntegrationType
      → Split
      → Hub arcade Rendered
  unfolding store_changes cascade_if_disabled
  save_changes actor instance_id changes request_id before spec split = do
    merged_doc ← store_changes actor instance_id changes request_id before spec split
    cascade_if_disabled instance_id request_id before merged_doc
    pure (render_for_read merged_doc)

  unfoldable pub update : CurrentUser → String → Changes → Option String → Hub arcade Rendered
  unfolding raw_get split_changes save_changes
  update actor instance_id changes request_id = do
    before ← raw_get instance_id
    spec ← lift (get_type before.type_id)
    raise_if (is_true changes.multi_connection_allowed && is_single spec) integration_config
    split ← split_changes spec changes.config
    save_changes actor instance_id changes request_id before spec split

  -- `delete` from the DELETE on
  unfoldable pub delete_row :
      CurrentUser → String → Option String → IntegrationInstance → Hub arcade Unit
  unfolding audit_change
  delete_row actor instance_id request_id before = do
    modify (λ w. record w { instances = arcade.delete (λ i. i.id == instance_id) w.instances })
    spec ← lift (get_type before.type_id)
    audit_change actor "integration.delete" instance_id spec
        (some (
          mark_existing before.config_secrets_encrypted (secret_field_names spec) (
            merge
              (("id", text instance_id)
                ∷ ("type", text before.type_id)
                ∷ ("display_name", text before.display_name)
                ∷ [])
              before.config_public)))
        none request_id

  unfoldable pub delete : CurrentUser → String → Option String → Hub arcade Unit
  unfolding raw_get delete_row call_hook
  delete actor instance_id request_id = do
    before ← raw_get instance_id
    call_hook hook instance_id "revoked-by-admin-delete" request_id
    delete_row actor instance_id request_id before
