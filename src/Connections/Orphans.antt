-- ===== src/Connections/Orphans.antt =====
-- The SIAM cascade, `revoke_for_users_no_longer_authorized` of connections_service.py.
use lehen.Prelude.{
  ℕ, suc, ◌+◌, String, Bool, false, Option, List, [], ◌∷◌, ◌≡◌, refl, sym, ◌∙◌, ap, map, arith,
  ◌&&◌, filter, length, inl, inr, Bool-cases,
}
use lehen.Prelude.Effects.{Result, ok, err}
use lehen.Prelude.Marked.{mark, map-mark_nil, filter-mark}
use lehen.Arcade.{Arcade, select}
use lehen.Hub.{Connection, Mapping, World, Host}
use lehen.Connections.Rows.{is_active}
use lehen.Connections.Cascade.{
  wipe, wipe_rows, wipe_row, is_orphaned, some_role_maps, wipe_orphans, wipe_orphans_found,
  revoke_for_users_no_longer_authorized,
}
use lehen.Connections.Loops.{siam_mappings-wipe_rows, id_of, rows-wipe_rows}

abbrev siam_change : String
siam_change = "revoked-by-siam-change"

filter-filter :
    (p q : Connection → Bool) (xs : List Connection)
    → filter q (filter p xs) ≡ filter (λ c. p c && q c) xs
filter-filter p q [] = refl
filter-filter p q (x ∷ xs) = ground (arith, filter-filter p q xs)

module _ (arcade : Arcade) (host : Host) (days : ℕ) (previous new : Mapping)
    (request_id : Option String) where
  open arcade use {rows}

  -- `revoked += 1`, after the rest of the loop
  abbrev plus_one : Result ℕ × World arcade → Result ℕ × World arcade
  plus_one (r, w) = elim r [ ok n ↦ (ok (n + 1), w) | err e ↦ (err e, w) ]

  add-one_ok : (n : ℕ) (w : World arcade) → plus_one (ok n, w) ≡ (ok (suc n), w)
  add-one_ok n w = let e : n + 1 ≡ suc n = omega arith in ap (λ m. (ok m, w)) e

  -- The loop wipes the orphaned rows, in order, and counts them.
  wipe_orphans-eq :
      (ts : ℕ) (targets : List Connection) (w : World arcade)
      → wipe_orphans arcade host days previous new ts request_id targets w ≡ (
        ok (length (filter (is_orphaned previous new) targets)),
        (wipe_rows arcade host days ts siam_change request_id
            (filter (is_orphaned previous new) targets)
            w).1,
      )
  unfolding wipe_orphans wipe_rows
  wipe_orphans-eq ts [] w = refl
  wipe_orphans-eq ts (row ∷ rest) w =
      let w' = (wipe_row arcade host days ts siam_change request_id row w).1 in
      elim (Bool-cases (some_role_maps row.integration_instance_id new)) [
        | inl kept ↦ rw kept (wipe_orphans-eq ts rest w)
        | inr gone ↦ elim (Bool-cases (some_role_maps row.integration_instance_id previous)) [
          | inl was ↦ rw (gone, was) (ap plus_one (wipe_orphans-eq ts rest w') ∙ add-one_ok _ _)
          | inr never ↦ rw (gone, never) (wipe_orphans-eq ts rest w)
        ]
      ]

  abbrev cascade : World arcade → Result ℕ × World arcade
  cascade = revoke_for_users_no_longer_authorized arcade host days previous new request_id

  -- An active connection whose instance some role mapped before and none maps now.
  abbrev pub is_lost : Connection → Bool
  is_lost c = is_active c && is_orphaned previous new c

  pub cascade_found :
      (targets : List Connection) (w : World arcade)
      → let (r, w') = wipe_orphans_found arcade host days previous new request_id targets w in
        let lost = filter (is_orphaned previous new) targets in
        (r ≡ ok (length lost))
        × (rows w'.connections
            ≡ map (mark id_of (wipe (host.clock w.readings) siam_change) lost) (rows w.connections))
  unfolding wipe_orphans_found
  cascade_found [] w = (
    refl,
    sym (map-mark_nil id_of (wipe (host.clock w.readings) siam_change) (rows w.connections)),
  )
  cascade_found (row ∷ rest) w =
      let ts : ℕ = host.clock w.readings in
      let w₀ : World arcade = record w { readings = w.readings + 1 } in
      let lost = filter (is_orphaned previous new) (row ∷ rest) in
      rw (wipe_orphans-eq ts (row ∷ rest) w₀)
        (refl, rows-wipe_rows arcade host days ts siam_change request_id lost w₀)

  siam_mappings-found :
      (targets : List Connection) (w : World arcade)
      → (wipe_orphans_found arcade host days previous new request_id targets w).1.siam_mappings
        ≡ w.siam_mappings
  unfolding wipe_orphans_found
  siam_mappings-found [] w = refl
  siam_mappings-found (row ∷ rest) w =
      let ts : ℕ = host.clock w.readings in
      let w₀ : World arcade = record w { readings = w.readings + 1 } in
      rw (wipe_orphans-eq ts (row ∷ rest) w₀) (
        siam_mappings-wipe_rows arcade host days ts siam_change request_id
          (filter (is_orphaned previous new) (row ∷ rest)) w₀)

  pub siam_mappings-cascade : (w : World arcade) → (cascade w).1.siam_mappings ≡ w.siam_mappings
  unfolding revoke_for_users_no_longer_authorized
  siam_mappings-cascade w = siam_mappings-found (select arcade is_active w.connections) w

  wipe-is_lost : (ts : ℕ) (c : Connection) → is_lost (wipe ts siam_change c) ≡ false
  unfolding wipe
  wipe-is_lost ts c = refl

  -- The cascade succeeds with the number of connections that lost their last role, and none of
  -- them is active afterwards.
  pub cascade_complete :
      (w : World arcade)
      → ((cascade w).0 ≡ ok (length (select arcade is_lost w.connections)))
        × (select arcade is_lost (cascade w).1.connections ≡ [])
  unfolding revoke_for_users_no_longer_authorized
  cascade_complete w =
      let found = select arcade is_active w.connections in
      let (answered, marked) = cascade_found found w in
      let lost = filter-filter is_active (is_orphaned previous new) (rows w.connections) in
      (
        answered ∙ ap (λ l. ok (length l)) lost,
        ap (filter is_lost) (
              marked
              ∙ ap
                  (λ l.
                    map (mark id_of (wipe (host.clock w.readings) siam_change) l)
                      (rows w.connections))
                  lost)
            ∙ filter-mark id_of is_lost (wipe (host.clock w.readings) siam_change)
                (wipe-is_lost (host.clock w.readings)) (rows w.connections),
      )
