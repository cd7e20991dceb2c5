-- ===== src/Audit.antt =====
-- hub/src/lehen_hub/admin/audit_service.py: `AdminAuditService`, over an audit pepper that was
-- decoded at startup.
pub mod Masking
use lehen.Prelude.{
  String, Bool, true, false, Option, none, some, List, [], ◌∷◌, any, ◌==◌, if◌then◌else◌,
}
use lehen.Prelude.Dict.{Dict}
use lehen.Prelude.Effects.{pure, modify, ◌>>=◌, ◌>>◌}
use lehen.Arcade.{Arcade}
use lehen.Hub.{
  Bytes, Value, null, text, AuditValue, shown, unset, fingerprinted, AdminAuditEvent, Host, Hub,
  World, uuid4, now, request_or_uuid,
}

pub record AuditEvent : Type 0 where
  pub actor_sub : String
  pub actor_username : String
  pub action : String
  pub target_id : Option String
  pub before : Option (Dict Value)
  pub after : Option (Dict Value)
  pub secret_fields : List String
  pub request_id : Option String

-- `str(value)`
abbrev pub str : Host → Value → String
str host (text s) = s
str host v = host.repr v

-- `value is None or value == ""`
abbrev pub is_blank : Value → Bool
is_blank null = true
is_blank (text s) = s == ""
is_blank _ = false

module _ (host : Host) (pepper : Bytes) where
  -- `fingerprint` of crypto/audit_fingerprint.py
  unfoldable pub fingerprint : String → String
  fingerprint plaintext = host.hmac_hex pepper plaintext

  unfoldable pub mark_secret : Value → AuditValue
  unfolding fingerprint
  mark_secret value = if is_blank value then unset else fingerprinted (fingerprint (str host value))

  -- dict(doc)
  unfoldable pub shown_fields : Dict Value → Dict AuditValue
  shown_fields [] = []
  shown_fields ((k, v) ∷ doc) = (k, shown v) ∷ shown_fields doc

  -- the loop of `_mask_secrets`
  unfoldable pub mask_fields : List String → Dict Value → Dict AuditValue
  unfolding mark_secret
  mask_fields secrets [] = []
  mask_fields secrets ((k, v) ∷ doc) =
      (k, if any (λ s. s == k) secrets then mark_secret v else shown v) ∷ mask_fields secrets doc

  unfoldable pub mask_secrets : List String → Option (Dict Value) → Option (Dict AuditValue)
  unfolding shown_fields mask_fields
  mask_secrets secrets none = none
  mask_secrets [] (some doc) = some (shown_fields doc)
  mask_secrets (s ∷ secrets) (some doc) = some (mask_fields (s ∷ secrets) doc)

  unfoldable pub record_event : (arcade : Arcade) → AuditEvent → Hub arcade Unit
  unfolding mask_secrets
  record_event arcade event = do
    id ← uuid4 arcade host
    ts ← now arcade host
    request ← request_or_uuid arcade host event.request_id
    modify (λ w. record w {
      audits =
          arcade.insert
            (record {
              id = id;
              ts = ts;
              actor_sub = event.actor_sub;
              actor_username = event.actor_username;
              action = event.action;
              target_id = event.target_id;
              before = mask_secrets event.secret_fields event.before;
              after = mask_secrets event.secret_fields event.after;
              request_id = request;
            })
            w.audits;
    })
