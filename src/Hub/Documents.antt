-- ===== src/Hub/Documents.antt =====
-- The document types of hub/src/lehen_hub/storage/bootstrap.py, each with the fields that the
-- services write, and the values that pass between the services.
-- A time is a number of microseconds; `isoformat` and `fromisoformat` are the identity on it.
use lehen.Prelude.{ℕ, String, Bool, Option, List}
use lehen.Prelude.Dict.{Dict}

-- role to instances
abbrev pub Mapping : Type 0
Mapping = Dict (List String)

-- A JSON value, as far as the services look into one.
pub data Value : Type 0 where
  null : Value
  text : String → Value
  num : ℕ → Value
  flag : Bool → Value
  -- a number with a fraction or a sign, an array or an object, by the text that `str` makes of it
  other : String → Value
  -- a mapping of roles, in the audit log
  roles_map : Mapping → Value

-- auth/dependencies.py: `CurrentUser`, without the claims, which no service reads
pub record CurrentUser : Type 0 where
  pub sub : String
  pub username : String
  pub realm_roles : List String
  pub identity_source : String

pub data Status : Type 0 where
  stub_connected connected stale disconnected : Status

pub data Health : Type 0 where
  healthy unhealthy : Health

pub record Connection : Type 0 where
  pub id : String
  pub user_sub : String
  pub username : String
  pub integration_instance_id : String
  pub connection_seq : ℕ
  pub external_subject : String
  pub display_label : String
  pub privacy_class : String
  pub encrypted_credentials : Option String
  pub status : Status
  pub connected_at : ℕ
  pub disconnected_at : Option ℕ
  pub last_health_status : Option Health
  pub last_health_check_at : Option ℕ
  pub revoked_by : Option String
  pub revoked_at : Option ℕ

pub record ConsentEvent : Type 0 where
  pub id : String
  pub ts : ℕ
  pub user_sub : String
  pub username : String
  pub action : String
  pub integration_instance_id : String
  pub connection_seq : ℕ
  pub external_subject : String
  pub privacy_class : String
  pub request_id : String
  pub retain_until : ℕ

pub record IntegrationInstance : Type 0 where
  pub id : String
  pub type_id : String
  pub display_name : String
  pub config_public : Dict Value
  pub config_secrets_encrypted : Dict String
  pub enabled : Bool
  pub multi_connection_allowed : Bool
  pub created_by : String
  pub created_at : ℕ
  pub updated_by : String
  pub updated_at : ℕ

pub record SiamMapping : Type 0 where
  pub id : String
  pub mapping : Mapping
  pub updated_by : String
  pub updated_at : ℕ

pub record LoginEvent : Type 0 where
  pub id : String
  pub ts : ℕ
  pub user_sub : String
  pub username : String
  pub roles : List String
  pub integrations_resolved : List String
  pub request_id : String
  pub retain_until : ℕ

pub record LocalAdmin : Type 0 where
  pub username : String
  pub password_hash : String
  pub enabled : Bool
  pub failed_attempts : ℕ
  pub locked_until : Option ℕ
  pub last_login_at : Option ℕ
  pub created_at : ℕ
  pub password_rotated_at : ℕ
  pub disabled_at : Option ℕ
  pub disabled_by_siam_username : Option String

pub data Outcome : Type 0 where
  rate_limited no_such_user account_disabled locked_out bad_password success : Outcome
  auto_disabled_on_siam_login : Outcome

pub record LocalAdminLoginEvent : Type 0 where
  pub id : String
  pub ts : ℕ
  pub username : String
  pub client_ip : String
  pub user_agent : String
  pub outcome : Outcome
  pub request_id : String

pub record LocalAdminCredentialRotated : Type 0 where
  pub id : String
  pub ts : ℕ
  pub username : String
  pub previous_existed : Bool

-- What the audit log shows of a field: the value, or the mark of a secret.
pub data AuditValue : Type 0 where
  shown : Value → AuditValue
  -- {"is_set": False, "hmac": None}
  unset : AuditValue
  -- {"is_set": True, "hmac": ...}
  fingerprinted : String → AuditValue

pub record AdminAuditEvent : Type 0 where
  pub id : String
  pub ts : ℕ
  pub actor_sub : String
  pub actor_username : String
  pub action : String
  pub target_id : Option String
  pub before : Option (Dict AuditValue)
  pub after : Option (Dict AuditValue)
  pub request_id : String
