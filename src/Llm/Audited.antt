-- ===== src/Llm/Audited.antt =====
-- What the audit log shows of the keys that an update of `LLMService` changes.
use lehen.Prelude.{
  ℕ, ◌+◌, text_or, String, true, false, Option, none, some, List, [], ◌∷◌, ◌≡◌, refl, sym, subst,
  ap, ◌∙◌, any, All, inl, inr, Bool-cases, Option-cases, ◌==◌,
}
use mathlib.Core.Bool.{true≢false}
use lehen.Prelude.Dict.{Dict, lookup}
use lehen.Prelude.Effects.{pure, OnOk, OnOk-bind, OnOk-after, is_ok}
use lehen.Arcade.{Arcade}
use lehen.Hub.{Bytes, CurrentUser, Value, null, text, shown, AdminAuditEvent, World, Host}
use lehen.Audit.{str, mask_secrets, record_event}
use lehen.Audit.Masking.{lookup_in, lookup-mask_secrets, secret_hidden, entry_of, masked_by}
use lehen.Crypto.Envelope.{encrypt}
use lehen.Integrations.Config.{config_value}
use lehen.Llm.Providers.{LlmProviderFieldSpec, llm_providers}
use lehen.Llm.Service.{
  Draft, field_key, put_secret, put_public, is_null, is_cleared, cleaned, apply_secret_field,
  apply_field, apply_each, apply_fields, apply_side, apply_given, apply_sides, audit_view,
  view_side, first_draft, store_draft, update,
}
use lehen.Llm.Stored.{apply_side-OnOk}
use lehen.Llm.Sides.{Side, inference, embedding, name_of}
use lehen.Llm.Updating.{update-Steps}
use lehen.Llm.Frame.{apply_sides-Keeps}
use lehen.Llm.Hidden.{
  IsHidden, IsSecretAt, IsHiddenDraft, IsHidden-insert, IsHidden-put_secret, view_side-IsHidden,
}

-- The field of the audited document that stands for the key of a side.
abbrev pub audit_key : Side → String
audit_key side = field_key (name_of side) "api_key"

catalog-IsSecretAt :
    (side of : Side)
    → All (λ p. All (IsSecretAt (name_of side) (audit_key of)) p.fields) llm_providers
unfolding llm_providers
catalog-IsSecretAt inference inference = (
  (inr refl, (inr refl, tt)),
  ((inr refl, (inr refl, (inl refl, tt))), ((inr refl, (inr refl, (inl refl, tt))), tt)),
)
catalog-IsSecretAt inference embedding = (
  (inr refl, (inr refl, tt)),
  ((inr refl, (inr refl, (inl refl, tt))), ((inr refl, (inr refl, (inl refl, tt))), tt)),
)
catalog-IsSecretAt embedding inference = (
  (inr refl, (inr refl, tt)),
  ((inr refl, (inr refl, (inl refl, tt))), ((inr refl, (inr refl, (inl refl, tt))), tt)),
)
catalog-IsSecretAt embedding embedding = (
  (inr refl, (inr refl, tt)),
  ((inr refl, (inr refl, (inl refl, tt))), ((inr refl, (inr refl, (inl refl, tt))), tt)),
)

provider-IsOther : (side of : Side) → (field_key (name_of side) "provider" == audit_key of) ≡ false
provider-IsOther inference inference = refl
provider-IsOther inference embedding = refl
provider-IsOther embedding inference = refl
provider-IsOther embedding embedding = refl

providers_alone :
    (of : Side) (raw : Dict Value) (secrets : List String)
    → IsHidden (audit_key of) secrets (
        ("inference_provider", config_value "inference_provider" raw)
        ∷ ("embedding_provider", config_value "embedding_provider" raw)
        ∷ [])
unfolding lookup
providers_alone inference raw secrets v e = absurd (cc e)
providers_alone embedding raw secrets v e = absurd (cc e)

audit_view-IsHidden :
    (host : Host) (of : Side) (secrets : List String) (raw : Dict Value)
    → IsHidden (audit_key of) secrets (audit_view host raw)
unfolding audit_view
audit_view-IsHidden host of secrets raw =
    view_side-IsHidden host "embedding" (audit_key of) secrets raw
      (view_side host raw "inference" (
        ("inference_provider", config_value "inference_provider" raw)
        ∷ ("embedding_provider", config_value "embedding_provider" raw)
        ∷ []))
      (catalog-IsSecretAt embedding of)
      (view_side-IsHidden host "inference" (audit_key of) secrets raw
        (("inference_provider", config_value "inference_provider" raw)
          ∷ ("embedding_provider", config_value "embedding_provider" raw)
          ∷ [])
        (catalog-IsSecretAt inference of) (providers_alone of raw secrets))

module _ (arcade : Arcade) (host : Host) (key : Bytes) (side of : Side) (payload : Dict Value) where
  abbrev k : String
  k = audit_key of

  abbrev s : String
  s = name_of side

  apply_secret_field-IsHidden :
      (name : String) (value : Value) (draft : Draft) (w : World arcade)
      → IsHiddenDraft k draft
      → OnOk (IsHiddenDraft k) (apply_secret_field arcade host key s name value draft w).0
  unfolding apply_secret_field
  apply_secret_field-IsHidden name value draft w h = elim (Bool-cases (is_null value)) [
    | inl missing ↦ rw missing h
    | inr given ↦ elim (Bool-cases (is_cleared value)) [
      | inl empty ↦ rw (given, empty) (IsHidden-put_secret k s name "" null draft h)
      | inr full ↦
          rw (given, full)
            (OnOk-after (IsHiddenDraft k) (encrypt arcade host (str host value) key)
              (λ sealed. pure (put_secret s name (text sealed) (str host value) draft)) w
              (λ sealed t. IsHidden-put_secret k s name (str host value) (text sealed) draft h))
    ]
  ]

  apply_field-IsHidden :
      (f : LlmProviderFieldSpec) (draft : Draft) (w : World arcade)
      → IsSecretAt s k f
      → IsHiddenDraft k draft
      → OnOk (IsHiddenDraft k) (apply_field arcade host key s payload f draft w).0
  unfolding apply_field
  apply_field-IsHidden f draft w safe h = elim (Bool-cases f.secret) [
    | inl secret ↦
        rw secret (apply_secret_field-IsHidden f.name (config_value f.name payload) draft w h)
    | inr open_to ↦
        let other : (field_key s f.name == k) ≡ false = elim safe [
          | inl secret ↦ absurd (true≢false (sym secret ∙ open_to))
          | inr apart ↦ apart
        ] in
        rw open_to (
          IsHidden-insert k (field_key s f.name) (cleaned (config_value f.name payload))
            draft.secret_audit_fields draft.after_audit (inl other) h)
  ]

  apply_each-IsHidden :
      (fs : List LlmProviderFieldSpec) (draft : Draft) (w : World arcade)
      → All (IsSecretAt s k) fs
      → IsHiddenDraft k draft
      → OnOk (IsHiddenDraft k) (apply_each arcade host key s payload fs draft w).0
  unfolding apply_each
  apply_each-IsHidden [] draft w safe h = h
  apply_each-IsHidden (f ∷ fs) draft w (safe, rest) h =
      OnOk-bind (IsHiddenDraft k) (IsHiddenDraft k) (apply_field arcade host key s payload f draft)
        (λ next. apply_each arcade host key s payload fs next) w
        (apply_field-IsHidden f draft w safe h) (λ next t. apply_each-IsHidden fs next t rest)

  apply_side-IsHidden :
      (draft : Draft) (w : World arcade)
      → IsHiddenDraft k draft
      → OnOk (IsHiddenDraft k) (apply_side arcade host key s payload draft w).0
  unfolding apply_fields
  apply_side-IsHidden draft w h =
      apply_side-OnOk arcade host key (λ p. All (IsSecretAt s k) p.fields) (IsHiddenDraft k) s
        payload draft w (catalog-IsSecretAt side of)
        (λ p t fields known.
          apply_each-IsHidden p.fields (put_public (field_key s "provider") (text p.id) draft) t
            fields
            (IsHidden-insert k (field_key s "provider") (text p.id) draft.secret_audit_fields
              draft.after_audit (inl (provider-IsOther side of)) h))

module _ (arcade : Arcade) (host : Host) (key : Bytes) where
  apply_given-IsHidden :
      (side of : Side) (payload : Option (Dict Value)) (draft : Draft) (w : World arcade)
      → IsHiddenDraft (audit_key of) draft
      → OnOk
          (IsHiddenDraft (audit_key of))
          (apply_given arcade host key (name_of side) payload draft w).0
  apply_given-IsHidden side of none draft w h = h
  apply_given-IsHidden side of (some payload) draft w h =
      apply_side-IsHidden arcade host key side of payload draft w h

  apply_sides-IsHidden :
      (of : Side) (i e : Option (Dict Value)) (draft : Draft) (w : World arcade)
      → IsHiddenDraft (audit_key of) draft
      → OnOk (IsHiddenDraft (audit_key of)) (apply_sides arcade host key i e draft w).0
  unfolding apply_sides
  apply_sides-IsHidden of i e draft w h =
      OnOk-bind (IsHiddenDraft (audit_key of)) (IsHiddenDraft (audit_key of))
        (apply_given arcade host key "inference" i draft)
        (λ once. apply_given arcade host key "embedding" e once) w
        (apply_given-IsHidden inference of i draft w h)
        (λ once t. apply_given-IsHidden embedding of e once t)

-- What the masking leaves of such a document.
shown-IsHidden :
    (host : Host) (pepper : Bytes) (k : String) (secrets : List String) (doc : Dict Value)
    → IsHidden k secrets doc
    → (v : Value) → lookup_in k (mask_secrets host pepper secrets (some doc)) ≡ some (shown v)
    → v ≡ text "<existing>"
shown-IsHidden host pepper k secrets doc h v e = elim (Bool-cases (any (λ s. s == k) secrets)) [
  | inl named ↦ absurd (secret_hidden host pepper secrets k (some doc) v named e)
  | inr public ↦ elim (Option-cases (lookup k doc)) [
    | inl missing ↦
        let n =
          sym (
            lookup-mask_secrets host pepper secrets k (some doc)
            ∙ ap (masked_by (entry_of host pepper secrets k)) missing)
          ∙ e in
        absurd (cc n)
    | inr (u, found) ↦
        let open_to : entry_of host pepper secrets k u ≡ shown u = rw public refl in
        let same : some (shown u) ≡ some (shown v) =
          ap some (sym open_to)
          ∙ sym (
              lookup-mask_secrets host pepper secrets k (some doc)
              ∙ ap (masked_by (entry_of host pepper secrets k)) found)
          ∙ e in
        let value : u ≡ v = cc same in
        elim (h u found) [
          | inl named ↦ absurd (true≢false (sym named ∙ public))
          | inr marked ↦ sym value ∙ marked
        ]
  ]
]

module _ (arcade : Arcade) (host : Host) (pepper key : Bytes) (actor : CurrentUser)
    (i e : Option (Dict Value)) (request_id : Option String) (w : World arcade) where
  -- the event of an update
  abbrev event_of : Dict Value → Draft → ℕ → AdminAuditEvent
  event_of before draft n = record {
    id = host.uuid (n + 1);
    ts = host.clock (n + 1 + 1);
    actor_sub = actor.sub;
    actor_username = actor.username;
    action = "llm.update";
    target_id = some "default";
    before = mask_secrets host pepper draft.secret_audit_fields (some (audit_view host before));
    after = mask_secrets host pepper draft.secret_audit_fields (some draft.after_audit);
    request_id = text_or request_id (host.uuid (n + 1 + 1 + 1));
  }

  store_draft-audits :
      (before : Dict Value) (draft : Draft) (t : World arcade)
      → (store_draft arcade host pepper key actor before request_id draft t).1.audits
        ≡ arcade.insert (event_of before draft t.readings) t.audits
  unfolding store_draft record_event
  store_draft-audits before draft t = refl

  -- An update that returns has added one event to the audit log, and what it shows for the key of
  -- either side, before and after, is at most the mark that a key is stored.
  pub update_hides :
      (side : Side)
      → is_ok (update arcade host pepper key actor i e request_id w).0 ≡ true
      → (event : AdminAuditEvent) × ((update arcade host pepper key actor i e request_id w).1.audits
          ≡ arcade.insert event w.audits)
        × ((v : Value)
            → lookup_in (field_key (name_of side) "api_key") event.before ≡ some (shown v)
            → v ≡ text "<existing>")
        × ((v : Value)
            → lookup_in (field_key (name_of side) "api_key") event.after ≡ some (shown v)
            → v ≡ text "<existing>")
  update_hides side h =
      let steps = update-Steps arcade host pepper key actor i e request_id w h in
      let before = steps.before in
      let draft = steps.draft in
      let secrets = draft.secret_audit_fields in
      let hidden = subst (OnOk (IsHiddenDraft (audit_key side))) (ap (λ x. x.0) steps.applied) (
        apply_sides-IsHidden arcade host key side i e (first_draft host before) w
          (audit_view-IsHidden host side [] before)) in
      let same : steps.middle.audits ≡ w.audits =
        ap (λ x. x.1.audits) (sym steps.applied)
        ∙ apply_sides-Keeps arcade host key (λ v. v.audits) (λ v n. refl) i e
            (first_draft host before) w in
      let event = event_of before draft steps.middle.readings in
      (
        event,
        ap (λ v. v.audits) steps.stored
            ∙ store_draft-audits before draft steps.middle
            ∙ ap (arcade.insert event) same,
        shown-IsHidden host pepper (audit_key side) secrets (audit_view host before)
            (audit_view-IsHidden host side secrets before),
        shown-IsHidden host pepper (audit_key side) secrets draft.after_audit hidden,
      )
