-- ===== src/Connections/Revocation.antt =====
-- What `revoke` and `revoke_all_for_instance` of connections_service.py do.
use lehen.Prelude.{
  ℕ, ◌+◌, String, Bool, false, Option, none, some, List, [], ◌∷◌, ◌≡◌, refl, sym, ◌∙◌, ap, map,
  arith, count_if, filter, length, ◌==◌, if◌then◌else◌,
}
use lehen.Prelude.Effects.{Result, ok, err, connection_not_found}
use lehen.Prelude.Marked.{mark, map-mark_nil, filter-mark, HasDistinctIds, map-mark-filter}
use lehen.Arcade.{Arcade, select}
use lehen.Hub.{Connection, disconnected, CurrentUser, World, Host}
use lehen.Connections.Rows.{is_empty}
use lehen.Connections.Grant.{disconnect, revoke_rows, is_target, revoke}
use lehen.Connections.Cascade.{wipe, wipe_found, wipe_rows, is_active_on, revoke_all_for_instance}
use lehen.Connections.Loops.{
  id_of, is_consent, instances-wipe_rows, rows-revoke_rows, ok-revoke_rows, consents-revoke_rows,
  rows-wipe_rows, ok-wipe_rows, consents-wipe_rows,
}

disconnect-is_target :
    (sub instance_id : String) (ext : Option String) (ts : ℕ) (c : Connection)
    → is_target sub instance_id ext (disconnect ts c) ≡ false
disconnect-is_target sub instance_id none ts c = ground arith
disconnect-is_target sub instance_id (some ext) ts c = ground arith

wipe-is_active_on :
    (instance_id reason : String) (ts : ℕ) (c : Connection)
    → is_active_on instance_id (wipe ts reason c) ≡ false
unfolding wipe
wipe-is_active_on instance_id reason ts c = ground arith

module _ (arcade : Arcade) (host : Host) (days : ℕ) where
  open arcade use {rows}

  module _ (user : CurrentUser) (instance_id : String) (external_subject request_id : Option String)
      (w : World arcade) where
    abbrev target : Connection → Bool
    target = is_target user.sub instance_id external_subject

    abbrev pub revoked : Result (Unit {0}) × World arcade
    revoked = revoke arcade host days user instance_id external_subject request_id w

    -- With no active connection to revoke, the user's call is refused and changes nothing.
    pub revoke_refused :
        select arcade target w.connections ≡ [] → revoked ≡ (err connection_not_found, w)
    unfolding revoke
    revoke_refused none_active = rw none_active refl

    module _ (found : is_empty (select arcade target w.connections) ≡ false) where
      abbrev targets : List Connection
      targets = select arcade target w.connections

      abbrev started : World arcade
      started = record w { readings = w.readings + 1 }

      revoke_runs :
          revoked
          ≡ revoke_rows arcade host days user instance_id request_id
              (host.clock w.readings)
              targets
              started
      unfolding revoke
      revoke_runs = rw found refl

      pub rows-revoke :
          rows revoked.1.connections
          ≡ map (mark id_of (disconnect (host.clock w.readings)) targets) (rows w.connections)
      rows-revoke = rw revoke_runs (
          rows-revoke_rows arcade host days user instance_id request_id (host.clock w.readings)
            targets started)

      -- Where the user has active connections to revoke, the call succeeds, none of them
      -- is active afterwards, and each has left one consent event of the user.
      pub revoke_complete :
          (revoked.0 ≡ ok tt)
          × (select arcade target revoked.1.connections ≡ [])
          × (count_if (is_consent user.sub "revoked") (rows revoked.1.consents)
              ≡ length targets + count_if (is_consent user.sub "revoked") (rows w.consents))
      revoke_complete =
          let ts : ℕ = host.clock w.readings in
          let r =
            rows-revoke_rows arcade host days user instance_id request_id ts targets started in
          rw revoke_runs (
            ok-revoke_rows arcade host days user instance_id request_id ts targets started,
            ap (filter target) r
                ∙ filter-mark id_of target (disconnect ts)
                    (disconnect-is_target user.sub instance_id external_subject ts)
                    (rows w.connections),
            consents-revoke_rows arcade host days user instance_id request_id ts targets started,
          )

      -- Where the user has active connections to revoke and no two connections share an
      -- id, the call gives exactly these the status disconnected and the time of the call as
      -- the end, keeps all else in them, and changes no other row.
      pub revoke_exact :
          HasDistinctIds id_of (rows w.connections)
          → rows revoked.1.connections
            ≡ map
                (λ c.
                  if target c
                  then record c {
                    status = disconnected;
                    disconnected_at = some (host.clock w.readings);
                  }
                  else c)
                (rows w.connections)
      revoke_exact distinct =
          let ts : ℕ = host.clock w.readings in
          rw revoke_runs (
            rows-revoke_rows arcade host days user instance_id request_id ts targets started
            ∙ map-mark-filter id_of target (disconnect ts) (rows w.connections) distinct)

  module _ (reason : String) (request_id : Option String) where
    -- What the call does with the rows that it found.
    pub wipe_found_lem :
        (targets : List Connection) (w : World arcade)
        → let (r, w') = wipe_found arcade host days reason request_id targets w in
          (r ≡ ok (length targets))
          × (rows w'.connections
              ≡ map (mark id_of (wipe (host.clock w.readings) reason) targets) (rows w.connections))
          × ((sub : String)
              → count_if (is_consent sub reason) (rows w'.consents)
                ≡ count_if (λ c. c.user_sub == sub) targets
                  + count_if (is_consent sub reason) (rows w.consents))
    unfolding wipe_found wipe_rows
    wipe_found_lem [] w = (
      refl,
      sym (map-mark_nil id_of (wipe (host.clock w.readings) reason) (rows w.connections)),
      λ sub. omega arith,
    )
    wipe_found_lem (row ∷ rest) w =
        let ts : ℕ = host.clock w.readings in
        let w₀ : World arcade = record w { readings = w.readings + 1 } in
        rw (ok-wipe_rows arcade host days ts reason request_id (row ∷ rest) w₀) (
          refl,
          rows-wipe_rows arcade host days ts reason request_id (row ∷ rest) w₀,
          λ sub. consents-wipe_rows arcade host days ts reason request_id sub (row ∷ rest) w₀,
        )

    instances-found :
        (targets : List Connection) (w : World arcade)
        → (wipe_found arcade host days reason request_id targets w).1.instances ≡ w.instances
    unfolding wipe_found wipe_rows
    instances-found [] w = refl
    instances-found (row ∷ rest) w =
        let ts : ℕ = host.clock w.readings in
        let w₀ : World arcade = record w { readings = w.readings + 1 } in
        rw (ok-wipe_rows arcade host days ts reason request_id (row ∷ rest) w₀)
          (instances-wipe_rows arcade host days ts reason request_id (row ∷ rest) w₀)

    pub instances-revoke_all :
        (instance_id : String) (w : World arcade)
        → (revoke_all_for_instance arcade host days instance_id reason request_id w).1.instances
          ≡ w.instances
    unfolding revoke_all_for_instance
    instances-revoke_all instance_id w =
        instances-found (select arcade (is_active_on instance_id) w.connections) w

    -- An admin's revocation always succeeds with the number of active connections on the
    -- instance; none is active afterwards, and each user has as many more consent events
    -- with this reason as they had such connections.
    pub revoke_all_complete :
        (instance_id : String) (w : World arcade)
        → let (r, w') = revoke_all_for_instance arcade host days instance_id reason request_id w in
          let found = select arcade (is_active_on instance_id) w.connections in
          (r ≡ ok (length found))
          × (select arcade (is_active_on instance_id) w'.connections ≡ [])
          × ((sub : String)
              → count_if (is_consent sub reason) (rows w'.consents)
                ≡ count_if (λ c. c.user_sub == sub) found
                  + count_if (is_consent sub reason) (rows w.consents))
    unfolding revoke_all_for_instance
    revoke_all_complete instance_id w =
        let found = select arcade (is_active_on instance_id) w.connections in
        let (answered, marked, logged) = wipe_found_lem found w in
        (
          answered,
          ap (filter (is_active_on instance_id)) marked
              ∙ filter-mark id_of (is_active_on instance_id) (wipe (host.clock w.readings) reason)
                  (wipe-is_active_on instance_id reason (host.clock w.readings))
                  (rows w.connections),
          logged,
        )

    -- Where no two connections share an id, an admin's revocation gives exactly the active
    -- connections on the instance the status disconnected, the time of the call as the end and as
    -- the time of the revocation, its reason, and no credentials any more; it keeps all else in
    -- them, and changes no other row.
    pub revoke_all_exact :
        (instance_id : String) (w : World arcade)
        → HasDistinctIds id_of (rows w.connections)
        → rows
            (revoke_all_for_instance arcade host days instance_id reason request_id w).1.connections
          ≡ map
              (λ c.
                if is_active_on instance_id c
                then record c {
                  encrypted_credentials = none;
                  status = disconnected;
                  disconnected_at = some (host.clock w.readings);
                  revoked_by = some reason;
                  revoked_at = some (host.clock w.readings);
                }
                else c)
              (rows w.connections)
    unfolding revoke_all_for_instance wipe
    revoke_all_exact instance_id w distinct =
        (wipe_found_lem (select arcade (is_active_on instance_id) w.connections) w).1
        ∙ map-mark-filter id_of (is_active_on instance_id) (wipe (host.clock w.readings) reason)
            (rows w.connections) distinct
