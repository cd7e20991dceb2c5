-- ===== src/Connections/Cascade.antt =====
-- The revocations that an admin's action causes: `revoke_all_for_instance` and
-- `revoke_for_users_no_longer_authorized`.
use lehen.Prelude.{
  ℕ, ◌+◌, String, Bool, true, false, Option, none, some, List, [], ◌∷◌, ◌&&◌, not, any, length,
  ◌==◌, if◌then◌else◌,
}
use lehen.Prelude.Effects.{gets, pure, modify, ◌>>=◌, ◌>>◌}
use lehen.Arcade.{Arcade, select}
use lehen.Hub.{Connection, disconnected, Mapping, Hub, Host, now}
use lehen.Connections.Rows.{is_active, record_consent}

-- SET status = 'disconnected', disconnected_at = :ts, encrypted_credentials = null,
-- revoked_by = :reason, revoked_at = :ts
unfoldable pub wipe : ℕ → String → Connection → Connection
wipe ts reason c = record c {
  encrypted_credentials = none;
  status = disconnected;
  disconnected_at = some ts;
  revoked_by = some reason;
  revoked_at = some ts;
}

-- Some role of the mapping lists the instance.
unfoldable pub some_role_maps : String → Mapping → Bool
some_role_maps instance_id [] = false
some_role_maps instance_id ((role, ids) ∷ m) =
    if any (λ i. i == instance_id) ids then true else some_role_maps instance_id m

-- The instance was mapped, and no role maps it any more.
abbrev pub is_orphaned : Mapping → Mapping → Connection → Bool
is_orphaned previous new c =
    not (some_role_maps c.integration_instance_id new)
    && some_role_maps c.integration_instance_id previous

abbrev pub is_active_on : String → Connection → Bool
is_active_on instance_id c = c.integration_instance_id == instance_id && is_active c

module _ (arcade : Arcade) (host : Host) (retention_days : ℕ) where
  -- one round of either loop: the UPDATE and the ConsentEvent
  unfoldable pub wipe_row : ℕ → String → Option String → Connection → Hub arcade Unit
  unfolding record_consent
  wipe_row ts reason request_id row = do
    modify (λ w. record w {
      connections = arcade.update (λ c. c.id == row.id) (wipe ts reason) w.connections;
    })
    record_consent arcade host retention_days row.user_sub row.username reason
        row.integration_instance_id row.connection_seq row.privacy_class row.external_subject
        request_id ts

  unfoldable pub wipe_rows : ℕ → String → Option String → List Connection → Hub arcade Unit
  unfolding wipe_row
  wipe_rows ts reason request_id [] = pure tt
  wipe_rows ts reason request_id (row ∷ rest) = do
    wipe_row ts reason request_id row
    wipe_rows ts reason request_id rest

  -- the early return on no rows is one more case of the loop, but for the reading of the clock
  unfoldable pub wipe_found : String → Option String → List Connection → Hub arcade ℕ
  wipe_found reason request_id [] = pure 0
  wipe_found reason request_id (row ∷ rest) = do
    ts ← now arcade host
    wipe_rows ts reason request_id (row ∷ rest)
    pure (length (row ∷ rest))

  unfoldable pub revoke_all_for_instance : String → String → Option String → Hub arcade ℕ
  unfolding wipe_found
  revoke_all_for_instance instance_id reason request_id = do
    active ← gets (λ w. select arcade (is_active_on instance_id) w.connections)
    wipe_found reason request_id active

  -- the loop of the SIAM cascade, which counts what it revokes
  unfoldable pub wipe_orphans :
      Mapping → Mapping → ℕ → Option String → List Connection → Hub arcade ℕ
  unfolding wipe_row
  wipe_orphans previous new ts request_id [] = pure 0
  wipe_orphans previous new ts request_id (row ∷ rest) =
      let others = wipe_orphans previous new ts request_id rest in
      if some_role_maps row.integration_instance_id new
      then others
      else if not (some_role_maps row.integration_instance_id previous)
      then others
      else (do wipe_row ts "revoked-by-siam-change" request_id row; n ← others; pure (n + 1))

  unfoldable pub wipe_orphans_found :
      Mapping → Mapping → Option String → List Connection → Hub arcade ℕ
  wipe_orphans_found previous new request_id [] = pure 0
  wipe_orphans_found previous new request_id (row ∷ rest) = do
    ts ← now arcade host
    wipe_orphans previous new ts request_id (row ∷ rest)

  unfoldable pub revoke_for_users_no_longer_authorized :
      Mapping → Mapping → Option String → Hub arcade ℕ
  unfolding wipe_orphans_found
  revoke_for_users_no_longer_authorized previous new request_id = do
    actives ← gets (λ w. select arcade is_active w.connections)
    wipe_orphans_found previous new request_id actives
