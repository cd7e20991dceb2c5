-- ===== src/Hub/State.antt =====
-- The state that the services share: the tables of the database, and how many readings of the
-- clock and the random source have been taken.
use Prim.Native.Nat.{◌/◌}
use lehen.Prelude.{ℕ, ◌+◌, String, Bool, Option, List, text_or}
use lehen.Prelude.Dict.{Dict}
use lehen.Prelude.Effects.{Exec, ok, ◌>>=◌, pure}
use lehen.Arcade.{Arcade}
use lehen.Hub.Documents.{
  Connection, ConsentEvent, IntegrationInstance, SiamMapping, LoginEvent, LocalAdmin, Value,
  LocalAdminLoginEvent, LocalAdminCredentialRotated, AdminAuditEvent,
}

-- The claims of a token that the Hub issues itself.
pub record LocalClaims : Type 0 where
  pub sub : String
  pub preferred_username : String
  pub iss : String
  pub aud : String
  pub scope : String
  pub iat : ℕ
  pub exp : ℕ

-- A bytes object, as the text whose characters have the bytes as their numbers.
abbrev pub Bytes : Type 0
Bytes = String

-- A key of the provider's JSON Web Key Set: its id, a text if there is one, and the key as it is.
pub record Jwk : Type 0 where
  pub kid : Option String
  pub key : String

-- What `JWKSCache` holds, the times on the monotonic clock.
pub record JwksCache : Type 0 where
  pub keys : Option (List Jwk)
  pub fetched_at : ℕ
  pub negative_until : ℕ

-- Whether this process has looked for a local admin to disable.
pub data DisableState : Type 0 where
  pending no_local_admin disabled_now disabled_or_absent : DisableState

-- What the machine and the packages give. What differs from call to call takes the number of the
-- reading: the clocks in microseconds, `uuid.uuid4`, the salt of a password hash.
pub record Host : Type 0 where
  pub clock : ℕ → ℕ
  pub monotonic : ℕ → ℕ
  pub uuid : ℕ → String
  -- argon2: `PasswordHasher.hash`, and `verify` of a hash and a password, false where it raises one of
  -- the two exceptions that the Hub catches; another one is left out
  pub argon_hash : ℕ → String → String
  pub argon_verify : String → String → Bool
  -- jose: `jwt.encode` with HS256
  pub jwt_encode : LocalClaims → String → String
  -- `jwt.decode` with HS256 at a reading of the clock, of a token under a key, for an audience and an
  -- issuer: none where it raises; and the issuer that `jwt.get_unverified_claims` shows, if any
  pub jwt_decode : ℕ → String → String → String → String → Option LocalClaims
  pub jwt_issuer : String → Option String
  -- secrets.token_bytes: how many bytes are asked for
  pub token_bytes : ℕ → ℕ → Bytes
  -- cryptography: `AESGCM(key).encrypt(nonce, data, None)`, and `decrypt`, none where it raises
  pub aes_encrypt : Bytes → Bytes → Bytes → Bytes
  pub aes_decrypt : Bytes → Bytes → Bytes → Option Bytes
  -- `encode("utf-8")`, and `decode`, none where it raises
  pub utf8_encode : String → Bytes
  pub utf8_decode : Bytes → Option String
  -- base64: `urlsafe_b64encode`, and `urlsafe_b64decode`, none where it raises
  pub b64_encode : Bytes → String
  pub b64_decode : String → Option Bytes
  -- hmac: the hexadecimal SHA-256 digest of a text under a key
  pub hmac_hex : Bytes → String → String
  -- hashlib: `sha256(data).digest()`
  pub sha256 : Bytes → Bytes
  -- json: `dumps(d, separators=(",", ":"), sort_keys=True)`, and `loads`, none where it raises or
  -- gives no object, which is an error of the same class wherever it is used
  pub json_dumps : Dict Value → String
  pub json_loads : String → Option (Dict Value)
  -- urllib.parse: `urlencode`
  pub urlencode : Dict String → String
  -- `int` of a value, none where it raises or gives a number below zero
  pub int : Value → Option ℕ
  -- `str` of a value that is no text
  pub repr : Value → String

-- Microseconds in a second.
abbrev pub second : ℕ
second = 1000000

module _ (arcade : Arcade) where
  open arcade use {Table}

  pub record World : Type 0 where
    pub connections : Table Connection
    pub consents : Table ConsentEvent
    pub instances : Table IntegrationInstance
    pub siam_mappings : Table SiamMapping
    pub login_events : Table LoginEvent
    pub local_admins : Table LocalAdmin
    pub local_admin_login_events : Table LocalAdminLoginEvent
    pub rotations : Table LocalAdminCredentialRotated
    pub audits : Table AdminAuditEvent
    -- LLMConfig, by the keys of the document
    pub llm_configs : Table (Dict Value)
    -- `_SlidingWindowCounter._events`, in memory
    pub windows : Dict (List ℕ)
    -- `app.state.local_admin_disable_state`
    pub disable_state : DisableState
    -- `app.state.jwks_cache`
    pub jwks : JwksCache
    pub readings : ℕ

  abbrev pub Hub : Type 0 → Type 0
  Hub A = Exec World A

module _ (arcade : Arcade) (host : Host) where
  -- `datetime.now(UTC)`
  abbrev pub now : Hub arcade ℕ
  now w = (ok (host.clock w.readings), record w { readings = w.readings + 1 })

  -- `time.monotonic()`
  abbrev pub monotonic : Hub arcade ℕ
  monotonic w = (ok (host.monotonic w.readings), record w { readings = w.readings + 1 })

  -- `int(time.time())`
  abbrev pub unix_time : Hub arcade ℕ
  unix_time w = (ok (host.clock w.readings / second), record w { readings = w.readings + 1 })

  -- `str(uuid.uuid4())`
  abbrev pub uuid4 : Hub arcade String
  uuid4 w = (ok (host.uuid w.readings), record w { readings = w.readings + 1 })

  -- `request_id or str(uuid.uuid4())`; the reading is taken also where it is not used, which only
  -- shifts the numbers of the later readings
  abbrev pub request_or_uuid : Option String → Hub arcade String
  request_or_uuid request_id = do fresh ← uuid4; pure (text_or request_id fresh)

  -- secrets.token_bytes(n)
  abbrev pub token_bytes : ℕ → Hub arcade Bytes
  token_bytes n w = (ok (host.token_bytes w.readings n), record w { readings = w.readings + 1 })
