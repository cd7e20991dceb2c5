-- ===== src/Tests.antt =====
-- The machine, the documents and the states at which the theorems are tried.
pub mod Connecting
pub mod Governing
pub mod Entering
pub mod BreakGlass
pub mod Configuring
pub mod Granting
pub mod Signing
pub mod Starting
use Prim.Native.Nat.{◌*◌}
use lehen.Prelude.{
  ℕ, zero, suc, ltb, if◌then◌else◌, ◌+◌, String, Bool, true, false, Option, none, some, List, [],
  ◌∷◌, ◌==◌,
}
use Prim.Native.String.{count, ◌++◌ as text_append}
use lehen.Prelude.Text.{skip}
use lehen.Hub.{
  Value, Connection, CurrentUser, IntegrationInstance, SiamMapping, LocalAdmin, LocalClaims,
  pending, World, Host, connected, second,
}
use lehen.Hub.Toy.{toy}
use lehen.Oauth.Tokens.{Network}
use lehen.Hub.ToyJson.{zeros, dumps, loads}

-- What is in the one token that the machine knows, that of the first local admin.
abbrev pub admin_claims : LocalClaims
admin_claims = record {
  sub = "admin";
  preferred_username = "admin";
  iss = "lehen-hub-local";
  aud = "lehen-hub-admin";
  scope = "admin";
  iat = 0;
  exp = 3600;
}

abbrev int_of : Value → Option ℕ
int_of (Value.num n) = some n
int_of _ = none

-- A hash is the password with a letter before it; the clocks tick once a second.
abbrev pub machine : Host
machine = record {
  clock = λ n. n * second;
  monotonic = λ n. n * second;
  uuid = λ n. "uuid";
  argon_hash = λ n password. String.◌∷◌ "h" password;
  argon_verify = λ hash password. hash == String.◌∷◌ "h" password;
  jwt_encode = λ claims key. text_append claims.sub key;
  jwt_decode =
      λ ts token key audience issuer. if token == "adminkey" then some admin_claims else none;
  jwt_issuer = λ token. if token == "adminkey" then some "lehen-hub-local" else none;
  token_bytes = λ n size. zeros size;
  aes_encrypt = λ key nonce plain. text_append "0123456789abcdef" plain;
  aes_decrypt = λ key nonce plain. if ltb (count plain) 16 then none else some (skip 16 plain);
  utf8_encode = λ s. s;
  utf8_decode = λ b. some b;
  b64_encode = λ b. b;
  b64_decode = λ s. some s;
  hmac_hex = λ key s. text_append "hmac-" s;
  sha256 = λ b. b;
  json_dumps = dumps;
  json_loads = loads;
  urlencode = λ d. "query";
  int = int_of;
  repr = λ v. "value";
}

abbrev pub alice : CurrentUser
alice = record {
  sub = "alice";
  username = "alice";
  realm_roles = "staff" ∷ [];
  identity_source = "siam";
}

abbrev pub mail : IntegrationInstance
mail = record {
  id = "mail";
  type_id = "outlook-graph";
  display_name = "Mail";
  config_public = [];
  config_secrets_encrypted = [];
  enabled = true;
  multi_connection_allowed = true;
  created_by = "admin";
  created_at = 0;
  updated_by = "admin";
  updated_at = 0;
}

abbrev pub staff_mail : SiamMapping
staff_mail = record {
  id = "default";
  mapping = ("staff", "mail" ∷ []) ∷ [];
  updated_by = "admin";
  updated_at = 0;
}

abbrev pub admin : LocalAdmin
admin = record {
  username = "admin";
  password_hash = "hsesame";
  enabled = true;
  failed_attempts = 1;
  locked_until = none;
  last_login_at = none;
  created_at = 0;
  password_rotated_at = 0;
  disabled_at = none;
  disabled_by_siam_username = none;
}

abbrev pub mailbox : String → Connection
mailbox ext = record {
  id = text_append "alice:mail:" ext;
  user_sub = "alice";
  username = "alice";
  integration_instance_id = "mail";
  connection_seq = 0;
  external_subject = ext;
  display_label = ext;
  privacy_class = "company";
  encrypted_credentials = some "sealed";
  status = connected;
  connected_at = 0;
  disconnected_at = none;
  last_health_status = none;
  last_health_check_at = none;
  revoked_by = none;
  revoked_at = none;
}

-- Two mailboxes of one user on one instance, which differ in the number too.
abbrev pub two_mailboxes : List Connection
two_mailboxes = mailbox "a" ∷ record (mailbox "b") { connection_seq = 1 } ∷ []

abbrev pub world : List Connection → World toy
world connections = record {
  connections = connections;
  consents = [];
  instances = mail ∷ [];
  siam_mappings = staff_mail ∷ [];
  login_events = [];
  local_admins = admin ∷ [];
  local_admin_login_events = [];
  rotations = [];
  audits = [];
  llm_configs = [];
  windows = [];
  disable_state = pending;
  jwks = record { keys = none; fetched_at = 0; negative_until = 0 };
  readings = 0;
}

abbrev pub key : String
key = "0123456789abcdef0123456789abcdef"

-- A provider that gives one token for an hour, and Graph with one mailbox.
abbrev pub graph : Network
graph = record {
  post = λ n url body. some (record {
    status_code = 200;
    json = some (some (("access_token", Value.text "token") ∷ ("expires_in", Value.num 3600) ∷ []));
  });
  get = λ n url token. some (record {
    status_code = 200;
    json = some (some (("mail", Value.text "alice@example.org") ∷ []));
  });
}
