-- ===== src/Llm/Service.antt =====
-- `LLMService` of llm_service.py. The row is a JSON document, whose keys are made of the side and
-- the name of the field.
use Prim.Native.String.{◌++◌}
use lehen.Prelude.{
  ℕ, String, Bool, true, false, Option, none, some, List, [], ◌∷◌, ◌++◌ as list_append, ◌&&◌, ◌||◌,
  not, any, filter, is_none, ◌==◌, if◌then◌else◌,
}
use lehen.Prelude.Dict.{Dict, lookup, insert}
use lehen.Prelude.Effects.{
  Result, ok, err, llm_config, llm_config_not_found, gets, pure, lift, raise_if, or_raise, modify,
  ◌>>=◌, ◌>>◌,
}
use lehen.Arcade.{Arcade, select}
use lehen.Hub.{Bytes, CurrentUser, Value, null, text, Hub, Host, now}
use lehen.Crypto.Envelope.{encrypt}
use lehen.Audit.{str, is_blank, record_event}
use lehen.Connections.Rows.{first}
use lehen.Integrations.Config.{config_value}
use lehen.Hub.Values.{truthy}
use lehen.Llm.Providers.{LlmProviderFieldSpec, LlmProvider, get_provider}

abbrev pub llm_config_id : String
llm_config_id = "default"

-- `value is None`, `value == ""`
abbrev pub is_null : Value → Bool
is_null Value.null = true
is_null _ = false

abbrev pub is_cleared : Value → Bool
is_cleared (Value.text s) = s == ""
is_cleared _ = false

-- f"{side}_{name}" and f"{side}_{name}_encrypted"
abbrev pub field_key : String → String → String
field_key side name = side ++ "_" ++ name

abbrev pub secret_key : String → String → String
secret_key side name = side ++ "_" ++ name ++ "_encrypted"

-- k.startswith("@")
abbrev pub is_internal : String → Bool
is_internal String.[] = false
is_internal (String.◌∷◌ c s) = String.◌∷◌ c "" == "@"

-- WHERE id = 'default'
abbrev pub names_default : Value → Bool
names_default (Value.text s) = s == llm_config_id
names_default _ = false

abbrev pub is_default : Dict Value → Bool
is_default row = names_default (config_value "id" row)

-- What `update` builds up: the row, the audit view, and the names of the secrets that it changed.
pub record Draft : Type 0 where
  pub merged : Dict Value
  pub after_audit : Dict Value
  pub secret_audit_fields : List String

-- raw.get(k, "")
abbrev pub value_or_empty : String → Dict Value → Value
value_or_empty k raw = elim (lookup k raw) [ none ↦ text "" | some v ↦ v ]

-- one field of a side, as `_audit_view` shows it: a secret that is stored by a mark
unfoldable pub view_field : String → Dict Value → LlmProviderFieldSpec → Dict Value → Dict Value
unfolding truthy config_value
view_field side raw f out =
    if f.secret
    then if truthy (config_value (secret_key side f.name) raw)
      then insert (field_key side f.name) (text "<existing>") out
      else out
    else insert (field_key side f.name) (value_or_empty (field_key side f.name) raw) out

unfoldable pub view_fields :
    String → Dict Value → List LlmProviderFieldSpec → Dict Value → Dict Value
unfolding view_field
view_fields side raw [] out = out
view_fields side raw (f ∷ fs) out = view_fields side raw fs (view_field side raw f out)

-- one round of the loop of `_audit_view`
abbrev pub view_with : String → Dict Value → Result LlmProvider → Dict Value → Dict Value
view_with side raw (ok provider) out = view_fields side raw provider.fields out
view_with side raw (err e) out = out

unfoldable pub view_side : Host → Dict Value → String → Dict Value → Dict Value
unfolding view_fields get_provider truthy config_value
view_side host raw side out =
    let provider_id = config_value (field_key side "provider") raw in
    if truthy provider_id then view_with side raw (get_provider (str host provider_id)) out else out

unfoldable pub audit_view : Host → Dict Value → Dict Value
unfolding view_side config_value
audit_view host raw = view_side host raw "embedding" (
    view_side host raw "inference" (
      ("inference_provider", config_value "inference_provider" raw)
      ∷ ("embedding_provider", config_value "embedding_provider" raw)
      ∷ []))

-- the fields of a side, as the API shows them: a secret by whether it is set
unfoldable pub render_fields :
    String → Dict Value → List LlmProviderFieldSpec → Dict Value → Dict Value
unfolding truthy config_value
render_fields side raw [] out = out
render_fields side raw (f ∷ fs) out = render_fields side raw fs (
    if f.secret
    then insert (f.name ++ "_set") (Value.flag (truthy (config_value (secret_key side f.name) raw)))
        out
    else insert f.name (value_or_empty (field_key side f.name) raw) out)

-- a side without a provider that the catalog knows
abbrev pub render_legacy : String → Dict Value → Dict Value → Dict Value
render_legacy side raw out =
    insert "base_url" (value_or_empty (field_key side "base_url") raw)
      (insert "model" (value_or_empty (field_key side "model") raw) out)

abbrev pub render_with : String → Dict Value → Result LlmProvider → Dict Value → Dict Value
render_with side raw (ok provider) out = render_fields side raw provider.fields out
render_with side raw (err e) out = render_legacy side raw out

unfoldable pub render_side : Host → Dict Value → String → Dict Value
unfolding render_fields get_provider truthy config_value
render_side host raw side =
    let provider_id = config_value (field_key side "provider") raw in
    let out : Dict Value = ("provider", provider_id) ∷ [] in
    if truthy provider_id
    then render_with side raw (get_provider (str host provider_id)) out
    else render_legacy side raw out

-- What the admin interface renders.
pub record LlmView : Type 0 where
  pub inference : Dict Value
  pub embedding : Dict Value
  pub updated_by : Value
  pub updated_at : Value

unfoldable pub render_for_read : Host → Dict Value → LlmView
unfolding render_side config_value
render_for_read host raw = record {
  inference = render_side host raw "inference";
  embedding = render_side host raw "embedding";
  updated_by = config_value "updated_by" raw;
  updated_at = config_value "updated_at" raw;
}

-- `_resolve_provider`
abbrev pub or_llm_error : Result LlmProvider → Result LlmProvider
or_llm_error (ok p) = ok p
or_llm_error (err e) = err llm_config

unfoldable pub resolve_provider : Host → Dict Value → Result LlmProvider
unfolding truthy config_value get_provider
resolve_provider host payload =
    let provider_id = config_value "provider" payload in
    if not (truthy provider_id)
    then err llm_config
    else or_llm_error (get_provider (str host provider_id))

-- a key of the payload that the provider does not declare
abbrev pub is_unknown : LlmProvider → String × Value → Bool
is_unknown provider (k, v) = not (any (λ f. f.name == k) provider.fields || k == "provider")

-- what `_validate_required_fields` raises for
unfoldable pub is_missing : String → Dict Value → Dict Value → LlmProviderFieldSpec → Bool
unfolding truthy config_value
is_missing side payload merged f =
    f.required
    && is_blank (config_value f.name payload)
    && not (f.secret && truthy (config_value (secret_key side f.name) merged))

-- "" if value is None or value == "" else value
abbrev pub cleaned : Value → Value
cleaned value = if is_blank value then text "" else value

-- A public field of a side, or its provider, in the row and in the audit view.
abbrev pub put_public : String → Value → Draft → Draft
put_public k value draft = record draft {
  merged = insert k value draft.merged;
  after_audit = insert k value draft.after_audit;
}

-- A secret field: the row gets the envelope or null, the audit view the plaintext or "".
abbrev pub put_secret : String → String → Value → String → Draft → Draft
put_secret side name sealed plaintext draft = record {
  merged = insert (secret_key side name) sealed draft.merged;
  after_audit = insert (field_key side name) (text plaintext) draft.after_audit;
  secret_audit_fields = list_append draft.secret_audit_fields (field_key side name ∷ []);
}

-- what `update` starts from
abbrev pub first_draft : Host → Dict Value → Draft
first_draft host before_raw = record {
  merged = insert "id" (text llm_config_id) (filter (λ kv. not (is_internal kv.0)) before_raw);
  after_audit = audit_view host before_raw;
  secret_audit_fields = [];
}

-- the row that is written
abbrev pub stamped : CurrentUser → ℕ → Dict Value → Dict Value
stamped actor ts merged =
    insert "updated_at" (Value.num ts) (insert "updated_by" (text actor.username) merged)

unfoldable pub raw_get : (arcade : Arcade) → Hub arcade (Dict Value)
raw_get arcade = do
  found ← gets (λ w. first (select arcade is_default w.llm_configs))
  or_raise found llm_config_not_found

module _ (arcade : Arcade) (host : Host) (key : Bytes) where
  unfoldable pub apply_secret_field : String → String → Value → Draft → Hub arcade Draft
  apply_secret_field side name value draft =
      if is_null value
      then pure draft
      else if is_cleared value
      then pure (put_secret side name null "" draft)
      else do
        sealed ← encrypt arcade host (str host value) key
        pure (put_secret side name (text sealed) (str host value) draft)

  -- one round of the loop of `_apply_fields`
  unfoldable pub apply_field : String → Dict Value → LlmProviderFieldSpec → Draft → Hub arcade Draft
  unfolding apply_secret_field config_value
  apply_field side payload f draft =
      if f.secret
      then apply_secret_field side f.name (config_value f.name payload) draft
      else pure (put_public (field_key side f.name) (cleaned (config_value f.name payload)) draft)

  unfoldable pub apply_each :
      String → Dict Value → List LlmProviderFieldSpec → Draft → Hub arcade Draft
  unfolding apply_field
  apply_each side payload [] draft = pure draft
  apply_each side payload (f ∷ fs) draft = do
    next ← apply_field side payload f draft
    apply_each side payload fs next

  unfoldable pub apply_fields : String → LlmProvider → Dict Value → Draft → Hub arcade Draft
  unfolding apply_each
  apply_fields side provider payload draft =
      apply_each side payload provider.fields
        (put_public (field_key side "provider") (text provider.id) draft)

  unfoldable pub apply_side : String → Dict Value → Draft → Hub arcade Draft
  unfolding resolve_provider is_missing apply_fields
  apply_side side payload draft = do
    provider ← lift (resolve_provider host payload)
    raise_if (any (is_unknown provider) payload) llm_config
    raise_if (any (is_missing side payload draft.merged) provider.fields) llm_config
    apply_fields side provider payload draft

  -- `if inference is not None`
  abbrev pub apply_given : String → Option (Dict Value) → Draft → Hub arcade Draft
  apply_given side none draft = pure draft
  apply_given side (some payload) draft = apply_side side payload draft

  -- the two sides
  unfoldable pub apply_sides : Option (Dict Value) → Option (Dict Value) → Draft → Hub arcade Draft
  unfolding apply_side
  apply_sides inference embedding draft = do
    once ← apply_given "inference" inference draft
    apply_given "embedding" embedding once

module _ (arcade : Arcade) (host : Host) (pepper key : Bytes) where
  -- `update` from the time stamps to the audit record
  unfoldable pub store_draft : CurrentUser → Dict Value → Option String → Draft → Hub arcade Unit
  store_draft actor before_raw request_id draft = do
    ts ← now arcade host
    modify (λ w. record w {
      llm_configs = arcade.update is_default (λ _. stamped actor ts draft.merged) w.llm_configs;
    })
    record_event host pepper arcade (record {
      actor_sub = actor.sub;
      actor_username = actor.username;
      action = "llm.update";
      target_id = some llm_config_id;
      before = some (audit_view host before_raw);
      after = some draft.after_audit;
      secret_fields = draft.secret_audit_fields;
      request_id = request_id;
    })

  unfoldable pub update :
      CurrentUser → Option (Dict Value) → Option (Dict Value) → Option String → Hub arcade LlmView
  unfolding raw_get apply_sides store_draft
  update actor inference embedding request_id = do
    raise_if (is_none inference && is_none embedding) llm_config
    before_raw ← raw_get arcade
    draft ← apply_sides arcade host key inference embedding (first_draft host before_raw)
    store_draft actor before_raw request_id draft
    after_raw ← raw_get arcade
    pure (render_for_read host after_raw)

  -- GET
  unfoldable pub get : Hub arcade LlmView
  unfolding raw_get
  get = do raw ← raw_get arcade; pure (render_for_read host raw)
