-- ===== src/Connections/Tokens.antt =====
-- `get_valid_access_token` of connections_service.py: refresh once, and then stale.
-- Arguments: JSON with the two dict methods of `OAuthTokens`, and the call of the provider's token
-- endpoint through the adapter, none where it raises one of the three exceptions that are caught.
-- What else it may raise is left out.
use lehen.Prelude.{
  ℕ, ◌+◌, String, Bool, true, false, Option, none, some, not, ltb, ◌==◌, if◌then◌else◌,
}
use lehen.Prelude.Dict.{lookup}
use lehen.Prelude.Effects.{Result, ok, err, gets, pure, lift, modify, ◌>>=◌, ◌>>◌}
use lehen.Arcade.{Arcade, select}
use lehen.Hub.{Bytes, Connection, IntegrationInstance, Status, connected, stale, World, Hub, Host}
use lehen.Crypto.Envelope.{encrypt, decrypt}
use lehen.Oauth.Tokens.{OAuthTokens}
use lehen.Connections.Rows.{first, fetch_instance}

pub record TokenIo : Type 0 where
  -- json.dumps(tokens.to_storage_dict()), and `from_storage_dict(json.loads(blob))`
  pub dumps : OAuthTokens → String
  pub loads : String → Option OAuthTokens
  -- whether `build_adapter_for_instance` of integrations/source_adapter.py gives an adapter
  pub builds : IntegrationInstance → Bool
  -- `refresh_access_token` with the adapter's endpoint: the client secret, the refresh token and the
  -- time
  pub refresh : IntegrationInstance → String → String → ℕ → Option OAuthTokens

abbrev pub is_connected : Status → Bool
is_connected connected = true
is_connected _ = false

-- the checks of `_fetch_connection_row`
abbrev pub usable : Option Connection → Option Connection
usable none = none
usable (some row) = if not (is_connected row.status) then none else elim row.encrypted_credentials [
  | none ↦ none
  | some blob ↦ if blob == "" then none else some row
]

abbrev pub loaded : TokenIo → Result String → Option OAuthTokens
loaded io (ok blob) = io.loads blob
loaded io (err e) = none

abbrev pub mark_row_stale : Connection → Connection
mark_row_stale c = record c { status = stale }

-- the client secret; a decryption that fails raises
unfoldable pub client_secret : Host → Bytes → IntegrationInstance → Result String
unfolding lookup
client_secret host key instance_row =
    elim (lookup "client_secret" instance_row.config_secrets_encrypted) [
      | none ↦ ok ""
      | some sealed ↦ if sealed == "" then ok "" else decrypt host sealed key
    ]

module _ (arcade : Arcade) (host : Host) (io : TokenIo) (key : Bytes) where
  unfoldable pub fetch_connection_row : String → World arcade → Option Connection
  fetch_connection_row connection_id w =
      usable (first (select arcade (λ c. c.id == connection_id) w.connections))

  -- `_decode_token_blob`: whatever goes wrong gives none
  unfoldable pub decode_token_blob : Connection → Option OAuthTokens
  decode_token_blob row = elim row.encrypted_credentials [
    | none ↦ none
    | some sealed ↦ loaded io (decrypt host sealed key)
  ]

  unfoldable pub mark_stale : String → Hub arcade Unit
  mark_stale connection_id = modify (λ w. record w {
    connections = arcade.update (λ c. c.id == connection_id) mark_row_stale w.connections;
  })

  unfoldable pub persist_tokens : String → OAuthTokens → Hub arcade Unit
  persist_tokens connection_id tokens = do
    encrypted ← encrypt arcade host (io.dumps tokens) key
    modify (λ w. record w {
      connections =
          arcade.update (λ c. c.id == connection_id)
            (λ c. record c { encrypted_credentials = some encrypted }) w.connections;
    })

  abbrev pub refresh_with :
      String → ℕ → Option IntegrationInstance → Hub arcade (Option OAuthTokens)
  refresh_with refresh_token now_ts none = pure none
  refresh_with refresh_token now_ts (some instance_row) =
      if not (io.builds instance_row) then pure none else do
        secret ← lift (client_secret host key instance_row)
        pure (io.refresh instance_row secret refresh_token now_ts)

  unfoldable pub refresh_once : Connection → OAuthTokens → ℕ → Hub arcade (Option OAuthTokens)
  unfolding client_secret
  refresh_once row tokens now_ts = elim tokens.refresh_token [
    | none ↦ pure none
    | some refresh_token ↦
        gets (fetch_instance arcade row.integration_instance_id)
        >>= refresh_with refresh_token now_ts
  ]

  -- from the answer of `_refresh_once` on
  unfoldable pub after_refresh : Connection → Option OAuthTokens → Hub arcade (Option String)
  unfolding mark_stale persist_tokens
  after_refresh row none = do mark_stale row.id; pure none
  after_refresh row (some new_tokens) = do
    persist_tokens row.id new_tokens
    pure (some new_tokens.access_token)

  -- from the decoded tokens on; `expires_at - clock_skew_seconds > now_ts` is over the integers
  unfoldable pub use_tokens : Connection → ℕ → ℕ → Option OAuthTokens → Hub arcade (Option String)
  unfolding mark_stale refresh_once after_refresh
  use_tokens row skew now_ts none = do mark_stale row.id; pure none
  use_tokens row skew now_ts (some tokens) =
      if ltb (now_ts + skew) tokens.expires_at
      then pure (some tokens.access_token)
      else refresh_once row tokens now_ts >>= after_refresh row

  abbrev pub use_row : ℕ → ℕ → Option Connection → Hub arcade (Option String)
  use_row skew now_ts none = pure none
  use_row skew now_ts (some row) = use_tokens row skew now_ts (decode_token_blob row)

  unfoldable pub get_valid_access_token : String → ℕ → ℕ → Hub arcade (Option String)
  unfolding fetch_connection_row decode_token_blob use_tokens
  get_valid_access_token connection_id skew now_ts =
      gets (fetch_connection_row connection_id) >>= use_row skew now_ts
