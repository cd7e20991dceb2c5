-- ===== src/Llm/Hidden.antt =====
-- What the audit log shows of an update of `LLMService`.
use lehen.Prelude.{
  String, Bool, true, false, some, List, [], ◌∷◌, ◌++◌ as list_append, ◌≡◌, refl, sym, subst, ◌∙◌,
  ◌⊎◌, ◌||◌, any, All, inl, inr, Bool-cases, ◌==◌, arith,
}
use mathlib.Core.Bool.{true≢false}
use lehen.Prelude.Dict.{Dict, lookup, insert, lookup-insert}
use lehen.Prelude.Effects.{OnOk, Result-cases}
use lehen.Hub.{Value, text, Host}
use lehen.Audit.{str}
use lehen.Llm.Providers.{get_provider, LlmProviderFieldSpec, llm_providers}
use lehen.Hub.Values.{truthy}
use lehen.Llm.Service.{
  Draft, field_key, put_secret, view_side, view_fields, view_field, secret_key, value_or_empty,
  or_llm_error,
}
use lehen.Llm.Fields.{lookup-insert_other}
use lehen.Llm.Stored.{get_provider-OnOk}
use lehen.Integrations.Config.{config_value}

-- A field of the audit view is a secret that the event names, or the mark of a stored one.
abbrev pub IsHidden : String → List String → Dict Value → Type 0
IsHidden k secrets doc =
    (v : Value)
    → lookup k doc ≡ some v
    → (any (λ s. s == k) secrets ≡ true) ⊎ (v ≡ text "<existing>")

-- No public field has the key.
abbrev pub IsSecretAt : String → String → LlmProviderFieldSpec → Type 0
IsSecretAt side k f = (f.secret ≡ true) ⊎ ((field_key side f.name == k) ≡ false)

any-append :
    (p : String → Bool) (xs ys : List String) → any p (list_append xs ys) ≡ (any p xs || any p ys)
any-append p [] ys = refl
any-append p (x ∷ xs) ys = ground (arith, any-append p xs ys)

-- A field that is put into the view: under another key, or with a value that may be there.
pub IsHidden-insert :
    (k j : String) (x : Value) (secrets : List String) (doc : Dict Value)
    → ((j == k) ≡ false) ⊎ ((any (λ s. s == k) secrets ≡ true) ⊎ (x ≡ text "<existing>"))
    → IsHidden k secrets doc
    → IsHidden k secrets (insert j x doc)
IsHidden-insert k j x secrets doc cases h v e = elim (Bool-cases (j == k)) [
  | inl same ↦
      let there : some x ≡ some v = sym (lookup-insert j k x doc ∙ rw same refl) ∙ e in
      elim cases [
        | inl other ↦ absurd (true≢false (sym same ∙ other))
        | inr (inl named) ↦ inl named
        | inr (inr marked) ↦ inr (subst (λ y. y ≡ text "<existing>") (cc there) marked)
      ]
  | inr other ↦ h v (sym (lookup-insert_other j k x doc other) ∙ e)
]

-- One more secret is named.
IsHidden-append :
    (k name : String) (secrets : List String) (doc : Dict Value)
    → IsHidden k secrets doc
    → IsHidden k (list_append secrets (name ∷ [])) doc
IsHidden-append k name secrets doc h v e = elim (h v e) [
  | inl named ↦ inl (any-append (λ s. s == k) secrets (name ∷ []) ∙ rw named refl)
  | inr marked ↦ inr marked
]

abbrev pub IsHiddenDraft : String → Draft → Type 0
IsHiddenDraft k d = IsHidden k d.secret_audit_fields d.after_audit

pub IsHidden-put_secret :
    (k side name plaintext : String) (sealed : Value) (draft : Draft)
    → IsHiddenDraft k draft
    → IsHiddenDraft k (put_secret side name sealed plaintext draft)
IsHidden-put_secret k side name plaintext sealed draft h =
    let secrets = list_append draft.secret_audit_fields (field_key side name ∷ []) in
    let named : ((field_key side name == k) ≡ false)
        ⊎ ((any (λ s. s == k) secrets ≡ true) ⊎ (text plaintext ≡ text "<existing>")) =
      elim (Bool-cases (field_key side name == k)) [
        | inl same ↦ inr (
            inl (
              any-append (λ s. s == k) draft.secret_audit_fields (field_key side name ∷ [])
              ∙ ground (arith, same)))
        | inr other ↦ inl other
      ] in
    IsHidden-insert k (field_key side name) (text plaintext) secrets draft.after_audit named
      (IsHidden-append k (field_key side name) draft.secret_audit_fields draft.after_audit h)

-- What the view shows of a field of a side, and of a side.
view_field-IsHidden :
    (side k : String) (secrets : List String) (raw : Dict Value) (f : LlmProviderFieldSpec)
    (out : Dict Value)
    → IsSecretAt side k f
    → IsHidden k secrets out
    → IsHidden k secrets (view_field side raw f out)
unfolding view_field
view_field-IsHidden side k secrets raw f out public h = elim (Bool-cases f.secret) [
  | inl secret ↦ elim (Bool-cases (truthy (config_value (secret_key side f.name) raw))) [
    | inl set ↦
        rw (secret, set)
          (IsHidden-insert k (field_key side f.name) (text "<existing>") secrets out
            (inr (inr refl)) h)
    | inr empty ↦ rw (secret, empty) h
  ]
  | inr open_to ↦
      let other : (field_key side f.name == k) ≡ false = elim public [
        | inl secret ↦ absurd (true≢false (sym secret ∙ open_to))
        | inr apart ↦ apart
      ] in
      rw open_to (
        IsHidden-insert k (field_key side f.name) (value_or_empty (field_key side f.name) raw)
          secrets out (inl other) h)
]

view_fields-IsHidden :
    (side k : String) (secrets : List String) (raw : Dict Value) (fs : List LlmProviderFieldSpec)
    (out : Dict Value)
    → All (IsSecretAt side k) fs
    → IsHidden k secrets out
    → IsHidden k secrets (view_fields side raw fs out)
unfolding view_fields
view_fields-IsHidden side k secrets raw [] out public h = h
view_fields-IsHidden side k secrets raw (f ∷ fs) out (public, rest) h =
    view_fields-IsHidden side k secrets raw fs (view_field side raw f out) rest
      (view_field-IsHidden side k secrets raw f out public h)

pub view_side-IsHidden :
    (host : Host) (side k : String) (secrets : List String) (raw out : Dict Value)
    → All (λ p. All (IsSecretAt side k) p.fields) llm_providers
    → IsHidden k secrets out
    → IsHidden k secrets (view_side host raw side out)
unfolding view_side
view_side-IsHidden host side k secrets raw out public h =
    let provider_id = config_value (field_key side "provider") raw in
    elim (Bool-cases (truthy provider_id)) [
      | inl given ↦
          let all =
            get_provider-OnOk (λ p. All (IsSecretAt side k) p.fields) (str host provider_id)
              public in
          elim (Result-cases (get_provider (str host provider_id))) [
            | inl (p, found) ↦
                let fields : All (IsSecretAt side k) p.fields =
                  subst (λ r. OnOk (λ q. All (IsSecretAt side k) q.fields) (or_llm_error r)) found
                    all in
                rw (given, found) (view_fields-IsHidden side k secrets raw p.fields out fields h)
            | inr (x, unknown) ↦ rw (given, unknown) h
          ]
      | inr missing ↦ rw missing h
    ]
