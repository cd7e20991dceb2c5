-- ===== src/Connections/Staleness.antt =====
-- The answer none of `get_valid_access_token` of connections_service.py.
use lehen.Prelude.{
  ℕ, ◌+◌, String, Option, none, some, List, [], ◌∷◌, ◌≡◌, refl, sym, subst, ap, ◌∙◌, arith, map,
  ltb, filter, ◌==◌, eq_iff, Bool-cases, Option-cases, inl, inr,
}
use lehen.Prelude.Effects.{Result, ok, bind_ok, bind_err, Result-cases, pure}
use lehen.Arcade.{Arcade, select}
use lehen.Arcade.Counts.{select-update_same}
use lehen.Hub.{Bytes, Connection, World, Host}
use lehen.Connections.Rows.{first}
use lehen.Oauth.Tokens.{OAuthTokens}
use lehen.Connections.Tokens.{
  TokenIo, usable, mark_row_stale, fetch_connection_row, decode_token_blob, mark_stale,
  persist_tokens, refresh_once, after_refresh, use_tokens, get_valid_access_token,
}

usable-stale : (xs : List Connection) → usable (first (map mark_row_stale xs)) ≡ none
usable-stale [] = refl
usable-stale (x ∷ xs) = refl

-- What is usable was found, and the query that found it knows its id.
usable-id :
    (connection_id : String) (xs : List Connection) {row : Connection}
    → usable (first (filter (λ c. c.id == connection_id) xs)) ≡ some row
    → row.id ≡ connection_id
usable-id connection_id [] h = cc
usable-id connection_id (x ∷ xs) h = elim (Bool-cases (x.id == connection_id)) [
  | inl found ↦ let k = rw found at h in ground (arith, k, eq_iff x.id connection_id)
  | inr skipped ↦ usable-id connection_id xs (rw skipped at h)
]

module _ (arcade : Arcade) (host : Host) (io : TokenIo) (key : Bytes) (connection_id : String) where
  -- If the call gave no token, the row cannot be used any more.
  abbrev Stops : Result (Option String) × World arcade → Type 0
  Stops x = x.0 ≡ ok none → fetch_connection_row arcade host io key connection_id x.1 ≡ none

  mark_stale-Stops :
      (row : Connection) (w : World arcade)
      → row.id ≡ connection_id
      → fetch_connection_row arcade host io key connection_id
          (mark_stale arcade host io key row.id w).1
        ≡ none
  unfolding mark_stale fetch_connection_row
  mark_stale-Stops row w own =
      let p = λ (c : Connection). c.id == connection_id in
      ap
        (λ i.
          usable
            (first (select arcade p (arcade.update (λ c. c.id == i) mark_row_stale w.connections))))
        own
      ∙ ap (λ l. usable (first l))
          (select-update_same arcade p mark_row_stale w.connections (λ c h. h))
      ∙ usable-stale (select arcade p w.connections)

  after_refresh-Stops :
      (row : Connection) (answer : Option OAuthTokens) (w : World arcade)
      → row.id ≡ connection_id
      → Stops (after_refresh arcade host io key row answer w)
  unfolding after_refresh
  after_refresh-Stops row none w own = λ h. mark_stale-Stops row w own
  after_refresh-Stops row (some t) w own = λ h.
      let persist = persist_tokens arcade host io key row.id t in
      let answered : World arcade → Result (Option String) × World arcade =
        pure (some t.access_token) in
      elim (Result-cases (persist w).0) [
        | inl (u, e) ↦
            let k = sym (ap (λ x. x.0) (bind_ok persist (λ _. answered) w e)) ∙ h in absurd (cc k)
        | inr (x, e) ↦
            let k = sym (ap (λ x. x.0) (bind_err persist (λ _. answered) w e)) ∙ h in absurd (cc k)
      ]

  use_tokens-Stops :
      (row : Connection) (skew now_ts : ℕ) (tokens : Option OAuthTokens) (w : World arcade)
      → row.id ≡ connection_id
      → Stops (use_tokens arcade host io key row skew now_ts tokens w)
  unfolding use_tokens
  use_tokens-Stops row skew now_ts none w own = λ h. mark_stale-Stops row w own
  use_tokens-Stops row skew now_ts (some t) w own =
      let refresh = refresh_once arcade host io key row t now_ts in
      let finish = after_refresh arcade host io key row in
      elim (Bool-cases (ltb (now_ts + skew) t.expires_at)) [
        | inl fresh ↦ rw fresh (λ h. absurd (cc h))
        | inr expired ↦ rw expired (elim (Result-cases (refresh w).0) [
          | inl (r, e) ↦
              subst Stops (sym (bind_ok refresh finish w e))
                (after_refresh-Stops row r (refresh w).1 own)
          | inr (x, e) ↦
              λ h. let k = sym (ap (λ x. x.0) (bind_err refresh finish w e)) ∙ h in absurd (cc k)
        ])
      ]

  -- Whenever the call returns without a token, for whatever reason, the row is unusable afterwards:
  -- until it is written again, every later call finds no row and returns no token either.
  pub token_or_stale :
      (skew now_ts : ℕ) (w : World arcade)
      → (get_valid_access_token arcade host io key connection_id skew now_ts w).0 ≡ ok none
      → let w' = (get_valid_access_token arcade host io key connection_id skew now_ts w).1 in
        (fetch_connection_row arcade host io key connection_id w' ≡ none)
        × ((skew' later : ℕ)
            → get_valid_access_token arcade host io key connection_id skew' later w'
              ≡ (ok none, w'))
  unfolding get_valid_access_token fetch_connection_row
  token_or_stale skew now_ts w h =
      let call = get_valid_access_token arcade host io key connection_id skew now_ts in
      let gone : Stops (call w) =
        elim (Option-cases (fetch_connection_row arcade host io key connection_id w)) [
          | inl missing ↦ rw missing (λ _. missing)
          | inr (row, found) ↦ rw found (
              use_tokens-Stops row skew now_ts (decode_token_blob arcade host io key row) w
                (usable-id connection_id (arcade.rows w.connections) found))
        ] in
      (gone h, λ skew' later. rw (gone h) refl)
