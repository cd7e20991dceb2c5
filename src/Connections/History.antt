-- ===== src/Connections/History.antt =====
-- The connection table under any sequence of calls of connections_service.py.
use lehen.Prelude.{
  ℕ, String, true, Option, List, [], ◌∷◌, ◌≡◌, refl, sym, subst, arith, filter, inl, inr,
  Bool-cases,
}
use lehen.Prelude.Effects.{Result, ok, err}
use lehen.Arcade.{Arcade, select}
use lehen.Hub.{Bytes, Connection, CurrentUser, Mapping, World, Host}
use lehen.Connections.Rows.{is_active, is_empty}
use lehen.Connections.Grant.{grant, revoke, disconnect, is_target}
use lehen.Connections.Cascade.{
  wipe, is_active_on, is_orphaned, revoke_all_for_instance, revoke_for_users_no_longer_authorized,
}
use lehen.Oauth.Tokens.{Network}
use lehen.Connections.Tokens.{TokenIo, get_valid_access_token}
use lehen.Connections.Flow.{complete_grant}
use lehen.Connections.Completing.{complete_grant-IsWellFormed}
use lehen.Connections.Refreshing.{get_valid_access_token-IsWellFormed}
use lehen.Connections.Gates.{granted, new_connection, grant_iff, grant_atomic, grant_inserts}
use lehen.Connections.Revocation.{rows-revoke, revoke_refused, wipe_found_lem}
use lehen.Connections.Orphans.{cascade_found}
use lehen.Connections.Invariant.{
  IsWellFormed, Retires, Retires-mark, map-IsWellFormed, insert-IsWellFormed,
}

disconnect-Retires : (ts : ℕ) → Retires (disconnect ts)
disconnect-Retires ts = record { keys = λ sub i n c h. h; activity = λ sub i ext c h. ground arith }

wipe-Retires : (ts : ℕ) (reason : String) → Retires (wipe ts reason)
unfolding wipe
wipe-Retires ts reason = record {
  keys = λ sub i n c h. h;
  activity = λ sub i ext c h. ground arith;
}

is_empty-nil : {A : Type 0} (xs : List A) → is_empty xs ≡ true → xs ≡ []
is_empty-nil [] h = refl
is_empty-nil (x ∷ xs) h = cc

module _ (arcade : Arcade) (host : Host) (days : ℕ) where
  open arcade use {rows}

  abbrev pub IsSound : World arcade → Type 0
  IsSound w = IsWellFormed (rows w.connections)

  grant-IsSound :
      (user : CurrentUser) (instance_id privacy ext label : String) (request_id : Option String)
      (w : World arcade)
      → IsSound w
      → IsSound (grant arcade host days user instance_id privacy ext label request_id w).1
  grant-IsSound user instance_id privacy ext label request_id w h =
      go (granted arcade host days user instance_id privacy ext label request_id w).0 refl
    where
      go :
          (r : Result Connection)
          → (granted arcade host days user instance_id privacy ext label request_id w).0 ≡ r
          → IsSound (grant arcade host days user instance_id privacy ext label request_id w).1
      go (err e) is_err =
          subst IsSound
            (sym (
              grant_atomic arcade host days user instance_id privacy ext label request_id w is_err))
            h
      go (ok c) is_ok' =
          let inserted =
            (grant_inserts arcade host days user instance_id privacy ext label request_id w
              is_ok').1 in
          let (_, _, _, _, fresh) =
            (grant_iff arcade host days user instance_id privacy ext label request_id w).0
              (rw is_ok' refl) in
          subst (λ t. IsWellFormed (rows t)) (sym inserted)
            (insert-IsWellFormed arcade w
              (new_connection arcade host days user instance_id privacy ext label request_id w) refl
              fresh h)

  revoke-IsSound :
      (user : CurrentUser) (instance_id : String) (ext request_id : Option String)
      (w : World arcade)
      → IsSound w
      → IsSound (revoke arcade host days user instance_id ext request_id w).1
  revoke-IsSound user instance_id ext request_id w h =
      let targets = select arcade (is_target user.sub instance_id ext) w.connections in
      elim (Bool-cases (is_empty targets)) [
        | inl nothing ↦
            rw
              (revoke_refused arcade host days user instance_id ext request_id w
                (is_empty-nil targets nothing))
              h
        | inr something ↦
            subst IsWellFormed
              (sym (rows-revoke arcade host days user instance_id ext request_id w something))
              (map-IsWellFormed _ (rows w.connections)
                (Retires-mark (disconnect (host.clock w.readings)) targets
                  (disconnect-Retires (host.clock w.readings)))
                h)
      ]

  revoke_all-IsSound :
      (instance_id reason : String) (request_id : Option String) (w : World arcade)
      → IsSound w
      → IsSound (revoke_all_for_instance arcade host days instance_id reason request_id w).1
  unfolding revoke_all_for_instance
  revoke_all-IsSound instance_id reason request_id w h =
      let found = select arcade (is_active_on instance_id) w.connections in
      subst IsWellFormed (sym (wipe_found_lem arcade host days reason request_id found w).1) (
        map-IsWellFormed _ (rows w.connections)
          (Retires-mark (wipe (host.clock w.readings) reason) found
            (wipe-Retires (host.clock w.readings) reason))
          h)

  cascade-IsSound :
      (previous new : Mapping) (request_id : Option String) (w : World arcade)
      → IsSound w
      → IsSound (revoke_for_users_no_longer_authorized arcade host days previous new request_id w).1
  unfolding revoke_for_users_no_longer_authorized
  cascade-IsSound previous new request_id w h =
      let found = select arcade is_active w.connections in
      subst IsWellFormed (sym (cascade_found arcade host days previous new request_id found w).1) (
        map-IsWellFormed _ (rows w.connections)
          (Retires-mark (wipe (host.clock w.readings) "revoked-by-siam-change")
            (filter (is_orphaned previous new) found)
            (wipe-Retires (host.clock w.readings) "revoked-by-siam-change"))
          h)

-- The calls that change the table, with their arguments.
pub data Call : Type 0 where
  grant_call : CurrentUser → String → String → String → String → Option String → Call
  revoke_call : CurrentUser → String → Option String → Option String → Call
  revoke_all_call : String → String → Option String → Call
  cascade_call : Mapping → Mapping → Option String → Call
  complete_call : CurrentUser → String → String → String → Option String → Call
  token_call : String → ℕ → ℕ → Call

module _ (arcade : Arcade) (host : Host) (days : ℕ) (network : Network) (io : TokenIo)
    (master_key state_key : Bytes) where
  -- The state after a call, whether it returns or raises.
  pub step : Call → World arcade → World arcade
  step (grant_call user i privacy ext label r) w =
      (grant arcade host days user i privacy ext label r w).1
  step (revoke_call user i ext r) w = (revoke arcade host days user i ext r w).1
  step (revoke_all_call i reason r) w = (revoke_all_for_instance arcade host days i reason r w).1
  step (cascade_call previous new r) w =
      (revoke_for_users_no_longer_authorized arcade host days previous new r w).1
  step (complete_call user i code state r) w =
      (complete_grant arcade host network days master_key state_key user i code state r w).1
  step (token_call id skew now_ts) w =
      (get_valid_access_token arcade host io master_key id skew now_ts w).1

  pub run : List Call → World arcade → World arcade
  run [] w = w
  run (c ∷ cs) w = run cs (step c w)

  step-IsSound :
      (c : Call) (w : World arcade)
      → IsSound arcade host days w
      → IsSound arcade host days (step c w)
  unfolding step
  step-IsSound (grant_call user i privacy ext label r) w h =
      grant-IsSound arcade host days user i privacy ext label r w h
  step-IsSound (revoke_call user i ext r) w h = revoke-IsSound arcade host days user i ext r w h
  step-IsSound (revoke_all_call i reason r) w h = revoke_all-IsSound arcade host days i reason r w h
  step-IsSound (cascade_call previous new r) w h =
      cascade-IsSound arcade host days previous new r w h
  step-IsSound (complete_call user i code state r) w h =
      complete_grant-IsWellFormed arcade host network days master_key state_key user i code state r
        w h
  step-IsSound (token_call id skew now_ts) w h =
      get_valid_access_token-IsWellFormed arcade host io master_key id skew now_ts w h

  -- After any sequence of grants, completed OAuth grants, revocations by a user, revocations by an
  -- admin, SIAM cascades and uses of stored tokens, calls that raise included, a table that had at most one active connection for
  -- each user, instance and mailbox, and at most one row for each user, instance and number,
  -- still has.
  pub run-IsSound :
      (calls : List Call) (w : World arcade)
      → IsWellFormed (arcade.rows w.connections)
      → IsWellFormed (arcade.rows (run calls w).connections)
  unfolding run
  run-IsSound [] w h = h
  run-IsSound (c ∷ cs) w h = run-IsSound cs (step c w) (step-IsSound c w h)
