-- ===== src/Connections/Usable.antt =====
-- The tokens that `complete_grant` stores are those that `get_valid_access_token` gives.
use Prim.Native.String.{count}
use lehen.Prelude.{
  ℕ, ◌+◌, String, true, Option, some, [], ◌∷◌, ◌≡◌, refl, sym, subst, ap, ◌∙◌, ltb, ◌==◌, eq_refl,
}
use mathlib.Core.Bool.{false≢true}
use lehen.Prelude.Effects.{ok, is_ok}
use lehen.Arcade.{Arcade, select}
use lehen.Arcade.Counts.{select-insert_new}
use lehen.Hub.{Bytes, Connection, CurrentUser, IntegrationInstance, World, Host}
use lehen.Crypto.Envelope.{decrypt, key_len, CipherLaws, decrypt-encrypt, nonempty_envelope}
use lehen.Oauth.Tokens.{OAuthTokens, Network, to_storage_dict}
use lehen.Oauth.Storage.{JsonLaw, IntLaw, loaded_tokens, loaded_tokens-stored}
use lehen.Integrations.Adapter.{build_adapter_for_instance}
use lehen.Connections.Rows.{first, next_seq, connection_id}
use lehen.Connections.Tokens.{
  TokenIo, usable, fetch_connection_row, decode_token_blob, use_tokens, get_valid_access_token,
}
use lehen.Connections.Flow.{complete_grant}
use lehen.Connections.Completed.{
  Completion, complete_grant-Completion, answered, completed, answered-same,
}
use lehen.Connections.Completing.{refused, inserted, new_row, persist_connection-Persisting}

-- The tokens of a JSON blob as `_decode_token_blob` reads them, and the test of the adapter; the
-- call of the token endpoint stays an argument.
abbrev pub stored_io :
    Host → (IntegrationInstance → String → String → ℕ → Option OAuthTokens) → TokenIo
stored_io host refresh = record {
  dumps = λ tokens. host.json_dumps (to_storage_dict tokens);
  loads = λ blob. loaded_tokens host (host.json_loads blob);
  builds = λ row. is_ok (build_adapter_for_instance host row);
  refresh = refresh;
}

-- A connected row that is the first under its id, and whose credentials open to fresh tokens.
fresh_token :
    (arcade : Arcade) (host : Host) (io : TokenIo) (key : Bytes) (v : World arcade) (c : Connection)
    (sealed blob : String) (tokens : OAuthTokens) (skew now_ts : ℕ)
    → fetch_connection_row arcade host io key c.id v ≡ some c
    → c.encrypted_credentials ≡ some sealed
    → decrypt host sealed key ≡ ok blob
    → io.loads blob ≡ some tokens
    → ltb (now_ts + skew) tokens.expires_at ≡ true
    → get_valid_access_token arcade host io key c.id skew now_ts v
      ≡ (ok (some tokens.access_token), v)
unfolding get_valid_access_token decode_token_blob use_tokens
fresh_token arcade host io key v c sealed blob tokens skew now_ts found credentials opens loads
      fresh =
    let decoded : decode_token_blob arcade host io key c ≡ some tokens =
      rw (credentials, opens, loads) refl in
    rw (found, decoded, fresh) refl

module _ (arcade : Arcade) (host : Host) (network : Network) (days : ℕ)
    (master_key state_key : Bytes) (user : CurrentUser) (instance_id code state : String)
    (request_id : Option String) (w : World arcade) where
  -- Where the packages keep their promises, the key has 32 bytes and no row had the id of the new
  -- connection, a completed grant that returns has made a connection for which, until its tokens
  -- expire, the call for a valid token returns the access token that the provider gave, and
  -- changes nothing.
  pub completed_usable :
      CipherLaws host
      → JsonLaw host
      → IntLaw host
      → count master_key ≡ key_len
      → select arcade
          (λ r. r.id == connection_id user.sub instance_id (next_seq arcade user.sub instance_id w))
          w.connections
        ≡ []
      → is_ok
          (complete_grant arcade host network days master_key state_key user instance_id code state
            request_id w).0
        ≡ true
      → (done : Completion arcade host network days master_key state_key user instance_id code state
          request_id w)
        × (c : Connection) × ((complete_grant arcade host network days master_key state_key user
              instance_id code state request_id w).0
            ≡ ok c)
        × ((refresh : IntegrationInstance → String → String → ℕ → Option OAuthTokens)
              (skew now_ts : ℕ)
            → ltb (now_ts + skew) done.answer.tokens.expires_at ≡ true
            → get_valid_access_token arcade host
                (stored_io host refresh)
                master_key
                c.id
                skew
                now_ts
                (complete_grant arcade host network days master_key state_key user instance_id code
                  state request_id w).1
              ≡ (
                ok (some done.answer.tokens.access_token),
                (complete_grant arcade host network days master_key state_key user instance_id code
                    state request_id w).1,
              ))
  unfolding next_seq fetch_connection_row
  completed_usable laws json int size new h =
      let done =
        complete_grant-Completion arcade host network days master_key state_key user instance_id
          code state request_id w h in
      let answer = done.answer in
      let t =
        (answered arcade host network days master_key state_key user instance_id code state
          request_id w done.row done.flow).1 in
      let v =
        (completed arcade host network days master_key state_key user instance_id code state
          request_id w).1 in
      let tables : t.connections ≡ w.connections =
        answered-same arcade host network days master_key state_key user instance_id code state
          request_id w (λ x. x.connections) (λ x n. refl) done.row done.flow in
      let numbers : next_seq arcade user.sub instance_id t
          ≡ next_seq arcade user.sub instance_id w =
        answered-same arcade host network days master_key state_key user instance_id code state
          request_id w (next_seq arcade user.sub instance_id) (λ x n. refl) done.row done.flow in
      let blob = host.json_dumps (to_storage_dict answer.tokens) in
      let (envelope, made, opens) =
        decrypt-encrypt arcade host laws blob master_key (record t { readings = t.readings + 1 })
          size in
      elim (persist_connection-Persisting arcade host network days master_key state_key user
        instance_id request_id answer t) [
          | refused failed _ ↦ absurd (false≢true (sym failed ∙ done.returned))
          | inserted sealed fresh sealed_by returned stored ↦
              let c =
                new_row arcade host network days master_key state_key user instance_id request_id
                  answer t sealed in
              let same : ok envelope ≡ ok sealed = sym made ∙ sealed_by in
              let unsealed : decrypt host sealed master_key ≡ ok blob =
                subst (λ s. decrypt host s master_key ≡ ok blob) (cc same) opens in
              let table : v.connections ≡ arcade.insert c t.connections =
                ap (λ x. x.1.connections) done.stored ∙ stored in
              let alone : select arcade (λ r. r.id == c.id) t.connections ≡ [] =
                subst
                  (λ n.
                    select arcade (λ r. r.id == connection_id user.sub instance_id n) t.connections
                    ≡ [])
                  (sym numbers)
                  (subst
                    (λ conns.
                      select arcade
                        (λ r.
                          r.id
                          == connection_id user.sub instance_id
                              (next_seq arcade user.sub instance_id w))
                        conns
                      ≡ [])
                    (sym tables) new) in
              let selected : select arcade (λ r. r.id == c.id) v.connections ≡ c ∷ [] =
                ap (select arcade (λ r. r.id == c.id)) table
                ∙ select-insert_new arcade (λ r. r.id == c.id) c t.connections (eq_refl c.id)
                    alone in
              let full = nonempty_envelope host master_key sealed blob laws unsealed in
              let found : (refresh : IntegrationInstance → String → String → ℕ → Option OAuthTokens)
                  → fetch_connection_row arcade host (stored_io host refresh) master_key c.id v
                    ≡ some c =
                λ refresh. ap (λ l. usable (first l)) selected ∙ rw full refl in
              (
                done,
                c,
                ap (λ x. x.0) done.stored ∙ returned,
                λ refresh skew now_ts unexpired.
                    fresh_token arcade host (stored_io host refresh) master_key v c sealed blob
                      answer.tokens skew now_ts (found refresh) refl unsealed
                      (loaded_tokens-stored host answer.tokens json int) unexpired,
              )
        ]
