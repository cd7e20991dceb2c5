-- ===== src/Audit/Masking.antt =====
-- What `_mask_secrets` of audit_service.py lets through.
use lehen.Prelude.{
  String, true, Option, none, some, List, [], ◌∷◌, ◌≡◌, ◌≢◌, refl, sym, subst, ◌∙◌, ap, any, ◌==◌,
  eq_iff, if◌then◌else◌, Bool-cases, Option-cases, inl, inr,
}
use lehen.Prelude.Dict.{Dict, lookup}
use lehen.Hub.{Bytes, Value, AuditValue, shown, Host}
use lehen.Audit.{str, fingerprint, is_blank, mark_secret, shown_fields, mask_fields, mask_secrets}

abbrev pub lookup_in : {V : Type 0} → String → Option (Dict V) → Option V
lookup_in k none = none
lookup_in k (some doc) = lookup k doc

abbrev pub masked_by : (Value → AuditValue) → Option Value → Option AuditValue
masked_by f none = none
masked_by f (some v) = some (f v)

module _ (host : Host) (pepper : Bytes) where
  -- The mark of a field: that of a secret, or the value.
  abbrev pub entry_of : List String → String → Value → AuditValue
  entry_of secrets k v = if any (λ s. s == k) secrets then mark_secret host pepper v else shown v

  lookup-shown_fields :
      (k : String) (doc : Dict Value)
      → lookup k (shown_fields host pepper doc) ≡ masked_by shown (lookup k doc)
  unfolding shown_fields lookup
  lookup-shown_fields k [] = refl
  lookup-shown_fields k ((j, v) ∷ doc) = elim (Bool-cases (j == k)) [
    | inl same ↦ rw same refl
    | inr other ↦ rw other (lookup-shown_fields k doc)
  ]

  lookup-mask_fields :
      (secrets : List String) (k : String) (doc : Dict Value)
      → lookup k (mask_fields host pepper secrets doc)
        ≡ masked_by (entry_of secrets k) (lookup k doc)
  unfolding mask_fields lookup
  lookup-mask_fields secrets k [] = refl
  lookup-mask_fields secrets k ((j, v) ∷ doc) = elim (Bool-cases (j == k)) [
    | inl same ↦
        let p : j ≡ k = (eq_iff j k).0 same in rw same (ap (λ i. some (entry_of secrets i v)) p)
    | inr other ↦ rw other (lookup-mask_fields secrets k doc)
  ]

  -- A field of the audited document is there exactly if it was in the event, as the mark of a secret
  -- if the event names it among its secret fields, and as it is otherwise.
  pub lookup-mask_secrets :
      (secrets : List String) (k : String) (doc : Option (Dict Value))
      → lookup_in k (mask_secrets host pepper secrets doc)
        ≡ masked_by (entry_of secrets k) (lookup_in k doc)
  unfolding mask_secrets
  lookup-mask_secrets secrets k none = refl
  lookup-mask_secrets [] k (some doc) = lookup-shown_fields k doc
  lookup-mask_secrets (s ∷ secrets) k (some doc) = lookup-mask_fields (s ∷ secrets) k doc

  mark_secret-neq-shown : (u v : Value) → mark_secret host pepper u ≢ shown v
  unfolding mark_secret
  mark_secret-neq-shown u v e = elim (Bool-cases (is_blank u)) [
    | inl blank ↦ let k = rw blank at e in absurd (cc k)
    | inr set ↦ let k = rw set at e in absurd (cc k)
  ]

  -- A field that the event names among its secret fields has a mark.
  pub secret_hidden :
      (secrets : List String) (k : String) (doc : Option (Dict Value)) (v : Value)
      → any (λ s. s == k) secrets ≡ true
      → lookup_in k (mask_secrets host pepper secrets doc) ≢ some (shown v)
  secret_hidden secrets k doc v secret e = elim (Option-cases (lookup_in k doc)) [
    | inl missing ↦
        let n =
          sym (lookup-mask_secrets secrets k doc ∙ ap (masked_by (entry_of secrets k)) missing)
          ∙ e in
        absurd (cc n)
    | inr (u, found) ↦
        let n =
          sym (lookup-mask_secrets secrets k doc ∙ ap (masked_by (entry_of secrets k)) found) ∙ e in
        let marked : entry_of secrets k u ≡ mark_secret host pepper u = rw secret refl in
        let same : entry_of secrets k u ≡ shown v = cc in
        mark_secret-neq-shown u v (sym marked ∙ same)
  ]

  -- Two documents that cannot be told apart by their audit: they have the same fields, the same
  -- values in those that are not secret, and in each secret one two values that are both blank or
  -- both set, and have the same HMAC under the pepper.
  abbrev pub IsLike : List String → Dict Value → Dict Value → Type 0
  IsLike secrets [] [] = Unit
  IsLike secrets [] ((j, u) ∷ e) = ⊥
  IsLike secrets ((k, v) ∷ d) [] = ⊥
  IsLike secrets ((k, v) ∷ d) ((j, u) ∷ e) =
      (k ≡ j)
      × (if any (λ s. s == k) secrets
          then (is_blank v ≡ is_blank u)
            × (host.hmac_hex pepper (str host v) ≡ host.hmac_hex pepper (str host u))
          else v ≡ u)
      × IsLike secrets d e

  mark_secret_same :
      (v u : Value)
      → is_blank v ≡ is_blank u
      → host.hmac_hex pepper (str host v) ≡ host.hmac_hex pepper (str host u)
      → mark_secret host pepper v ≡ mark_secret host pepper u
  unfolding mark_secret fingerprint
  mark_secret_same v u blank same = rw (blank, same) refl

  entry_of-IsLike :
      (secrets : List String) (k j : String) (v u : Value)
      → k ≡ j
      → (if any (λ s. s == k) secrets
          then (is_blank v ≡ is_blank u)
            × (host.hmac_hex pepper (str host v) ≡ host.hmac_hex pepper (str host u))
          else v ≡ u)
      → entry_of secrets k v ≡ entry_of secrets j u
  entry_of-IsLike secrets k j v u key h = elim (Bool-cases (any (λ s. s == k) secrets)) [
    | inl secret ↦
        let (blank, same) = rw secret at h in
        subst (λ i. entry_of secrets k v ≡ entry_of secrets i u) key
          (rw secret (mark_secret_same v u blank same))
    | inr public ↦
        let same = rw public at h in
        subst (λ i. entry_of secrets k v ≡ entry_of secrets i u) key (rw public (ap shown same))
  ]

  mask_fields-IsLike :
      (secrets : List String) (d e : Dict Value)
      → IsLike secrets d e
      → mask_fields host pepper secrets d ≡ mask_fields host pepper secrets e
  unfolding mask_fields
  mask_fields-IsLike secrets [] [] h = refl
  mask_fields-IsLike secrets [] ((j, u) ∷ e) h = absurd h
  mask_fields-IsLike secrets ((k, v) ∷ d) [] h = absurd h
  mask_fields-IsLike secrets ((k, v) ∷ d) ((j, u) ∷ e) (key, entry, rest) =
      let same = entry_of-IsLike secrets k j v u key entry in
      rw (same, key, mask_fields-IsLike secrets d e rest) refl

  shown_fields-IsLike :
      (d e : Dict Value) → IsLike [] d e → shown_fields host pepper d ≡ shown_fields host pepper e
  unfolding shown_fields
  shown_fields-IsLike [] [] h = refl
  shown_fields-IsLike [] ((j, u) ∷ e) h = absurd h
  shown_fields-IsLike ((k, v) ∷ d) [] h = absurd h
  shown_fields-IsLike ((k, v) ∷ d) ((j, u) ∷ e) (key, entry, rest) =
      rw (key, entry, shown_fields-IsLike d e rest) refl

  -- The audit tells no more of a secret field than its HMAC and whether it is set: documents that
  -- have the same fields, agree in those that the event does not name as secret, and in each secret
  -- one are both blank or both set and have the same HMAC, are audited as the same document.
  pub mask_secrets-IsLike :
      (secrets : List String) (d e : Dict Value)
      → IsLike secrets d e
      → mask_secrets host pepper secrets (some d) ≡ mask_secrets host pepper secrets (some e)
  unfolding mask_secrets
  mask_secrets-IsLike [] d e h = ap some (shown_fields-IsLike d e h)
  mask_secrets-IsLike (s ∷ secrets) d e h = ap some (mask_fields-IsLike (s ∷ secrets) d e h)
