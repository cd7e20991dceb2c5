-- ===== src/Connections/Refreshing.antt =====
-- What `get_valid_access_token` does to the table of connections.
use lehen.Prelude.{
  ℕ, ◌+◌, String, Bool, Option, none, some, refl, sym, subst, ltb, ◌==◌, if◌then◌else◌, inl, inr,
  Bool-cases, Option-cases,
}
use lehen.Prelude.Effects.{
  pure, lift, gets, modify, Keeps, Keeps-bind, Preserves, Preserves-bind, Keeps-Preserves,
}
use lehen.Arcade.{Arcade}
use lehen.Hub.{Bytes, Connection, IntegrationInstance, World, Host}
use lehen.Crypto.Envelope.{encrypt}
use lehen.Crypto.Frame.{encrypt-Keeps}
use lehen.Oauth.Tokens.{OAuthTokens}
use lehen.Connections.Rows.{fetch_instance}
use lehen.Connections.Tokens.{
  TokenIo, mark_row_stale, mark_stale, persist_tokens, client_secret, refresh_with, refresh_once,
  after_refresh, use_tokens, use_row, fetch_connection_row, decode_token_blob,
  get_valid_access_token,
}
use lehen.Connections.Invariant.{IsWellFormed, Retires, Retires-if, map-IsWellFormed}

module _ (arcade : Arcade) (host : Host) (io : TokenIo) (key : Bytes) where
  abbrev IsSound : World arcade → Type 0
  IsSound w = IsWellFormed (arcade.rows w.connections)

  -- A rewriting of some rows that activates none.
  update-IsSound :
      (p : Connection → Bool) (f : Connection → Connection) (w : World arcade)
      → Retires f
      → IsSound w
      → IsWellFormed (arcade.rows (arcade.update p f w.connections))
  update-IsSound p f w retires h = subst IsWellFormed (sym (arcade.rows-update p f w.connections)) (
      map-IsWellFormed (λ c. if p c then f c else c) (arcade.rows w.connections)
        (Retires-if p f retires) h)

  mark_stale-IsSound : (id : String) → Preserves IsSound (mark_stale arcade host io key id)
  unfolding mark_stale
  mark_stale-IsSound id w h =
      update-IsSound (λ c. c.id == id) mark_row_stale w
        (record { keys = λ sub i n c e. e; activity = λ sub i ext c e. e }) h

  persist_tokens-IsSound :
      (id : String) (tokens : OAuthTokens)
      → Preserves IsSound (persist_tokens arcade host io key id tokens)
  unfolding persist_tokens
  persist_tokens-IsSound id tokens =
      Preserves-bind IsSound (encrypt arcade host (io.dumps tokens) key)
        (λ encrypted. modify (λ w. record w {
          connections =
              arcade.update (λ c. c.id == id)
                (λ c. record c { encrypted_credentials = some encrypted }) w.connections;
        }))
        (Keeps-Preserves (λ w. w.connections) (λ t. IsWellFormed (arcade.rows t))
          (encrypt arcade host (io.dumps tokens) key)
          (encrypt-Keeps arcade host key (λ w. w.connections) (λ w n. refl) (io.dumps tokens)))
        (λ encrypted w h.
          update-IsSound (λ c. c.id == id)
            (λ c. record c { encrypted_credentials = some encrypted }) w
            (record { keys = λ sub i n c e. e; activity = λ sub i ext c e. e }) h)

  refresh_with-Keeps :
      (token : String) (now_ts : ℕ) (found : Option IntegrationInstance)
      → Keeps
          (λ (w : World arcade). w.connections)
          (refresh_with arcade host io key token now_ts found)
  refresh_with-Keeps token now_ts none = λ w. refl
  refresh_with-Keeps token now_ts (some row) = λ w. elim (Bool-cases (io.builds row)) [
    | inl built ↦ rw built (
        Keeps-bind (λ (v : World arcade). v.connections) (lift (client_secret host key row))
          (λ secret. pure (io.refresh row secret token now_ts)) (λ v. refl) (λ secret v. refl) w)
    | inr unknown ↦ rw unknown refl
  ]

  after_refresh-IsSound :
      (row : Connection) (answer : Option OAuthTokens)
      → Preserves IsSound (after_refresh arcade host io key row answer)
  unfolding after_refresh
  after_refresh-IsSound row none =
      Preserves-bind {B = Option String} IsSound (mark_stale arcade host io key row.id)
        (λ _. pure none) (mark_stale-IsSound row.id) (λ _ w h. h)
  after_refresh-IsSound row (some tokens) =
      Preserves-bind IsSound (persist_tokens arcade host io key row.id tokens)
        (λ _. pure (some tokens.access_token)) (persist_tokens-IsSound row.id tokens) (λ _ w h. h)

  refresh_once-IsSound :
      (row : Connection) (tokens : OAuthTokens) (now_ts : ℕ)
      → Preserves IsSound (refresh_once arcade host io key row tokens now_ts)
  unfolding refresh_once
  refresh_once-IsSound row tokens now_ts w h = elim (Option-cases tokens.refresh_token) [
    | inl missing ↦ rw missing h
    | inr (token, found) ↦ rw found (
        Preserves-bind IsSound (gets (fetch_instance arcade row.integration_instance_id))
          (refresh_with arcade host io key token now_ts) (λ v k. k)
          (λ instance_row.
            Keeps-Preserves (λ v. v.connections) (λ t. IsWellFormed (arcade.rows t))
              (refresh_with arcade host io key token now_ts instance_row)
              (refresh_with-Keeps token now_ts instance_row))
          w h)
  ]

  use_tokens-IsSound :
      (row : Connection) (skew now_ts : ℕ) (tokens : Option OAuthTokens)
      → Preserves IsSound (use_tokens arcade host io key row skew now_ts tokens)
  unfolding use_tokens
  use_tokens-IsSound row skew now_ts none w h =
      Preserves-bind {B = Option String} IsSound (mark_stale arcade host io key row.id)
        (λ _. pure none) (mark_stale-IsSound row.id) (λ _ v k. k) w h
  use_tokens-IsSound row skew now_ts (some tokens) w h =
      elim (Bool-cases (ltb (now_ts + skew) tokens.expires_at)) [
        | inl fresh ↦ rw fresh h
        | inr old ↦ rw old (
            Preserves-bind IsSound (refresh_once arcade host io key row tokens now_ts)
              (after_refresh arcade host io key row) (refresh_once-IsSound row tokens now_ts)
              (after_refresh-IsSound row) w h)
      ]

  use_row-IsSound :
      (skew now_ts : ℕ) (row : Option Connection)
      → Preserves IsSound (use_row arcade host io key skew now_ts row)
  use_row-IsSound skew now_ts none = λ w h. h
  use_row-IsSound skew now_ts (some row) =
      use_tokens-IsSound row skew now_ts (decode_token_blob arcade host io key row)

  pub get_valid_access_token-IsWellFormed :
      (id : String) (skew now_ts : ℕ)
      → Preserves
          (λ w. IsWellFormed (arcade.rows w.connections))
          (get_valid_access_token arcade host io key id skew now_ts)
  unfolding get_valid_access_token
  get_valid_access_token-IsWellFormed id skew now_ts =
      Preserves-bind IsSound (gets (fetch_connection_row arcade host io key id))
        (use_row arcade host io key skew now_ts) (λ w h. h) (use_row-IsSound skew now_ts)
