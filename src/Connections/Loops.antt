-- ===== src/Connections/Loops.antt =====
-- What the revocation loops of connections_service.py leave in the tables.
use lehen.Prelude.{
  ℕ, ◌+◌, String, Bool, Option, List, [], ◌∷◌, ◌≡◌, refl, sym, length, ◌∙◌, ap, map, arith, ◌&&◌,
  count_if, ◌==◌, eq_refl,
}
use lehen.Prelude.Effects.{ok}
use lehen.Prelude.Marked.{mark, map-mark, map-mark_nil}
use lehen.Arcade.{Arcade}
use lehen.Arcade.Counts.{count_if-insert}
use lehen.Hub.{Connection, ConsentEvent, CurrentUser, World, Host}
use lehen.Connections.Grant.{disconnect, revoke_rows}
use lehen.Connections.Cascade.{wipe, wipe_row, wipe_rows}

abbrev pub id_of : Connection → String
id_of c = c.id

-- A consent event of this user for this action.
abbrev pub is_consent : String → String → ConsentEvent → Bool
is_consent sub action e = e.user_sub == sub && e.action == action

module _ (arcade : Arcade) (host : Host) (days : ℕ) where
  open arcade use {rows}

  -- One statement of a loop, and then the rows that are left.
  rows-update_mark :
      (f : Connection → Connection)
      → ((c : Connection) → f (f c) ≡ f c)
      → ((c : Connection) → (f c).id ≡ c.id)
      → (row : Connection) (rest : List Connection) (w : World arcade)
      → map (mark id_of f rest) (rows (arcade.update (λ c. c.id == row.id) f w.connections))
        ≡ map (mark id_of f (row ∷ rest)) (rows w.connections)
  rows-update_mark f idem keeps row rest w =
      ap (map (mark id_of f rest)) (arcade.rows-update (λ c. c.id == row.id) f w.connections)
      ∙ map-mark id_of f idem keeps row rest (rows w.connections)

  module _ (ts : ℕ) (reason : String) (request_id : Option String) where
    after_row : Connection → World arcade → World arcade
    after_row row w = (wipe_row arcade host days ts reason request_id row w).1

    pub rows-wipe_rows :
        (targets : List Connection) (w : World arcade)
        → rows (wipe_rows arcade host days ts reason request_id targets w).1.connections
          ≡ map (mark id_of (wipe ts reason) targets) (rows w.connections)
    unfolding wipe_rows after_row wipe
    rows-wipe_rows [] w = sym (map-mark_nil id_of (wipe ts reason) (rows w.connections))
    rows-wipe_rows (row ∷ rest) w =
        rows-wipe_rows rest (after_row row w)
        ∙ rows-update_mark (wipe ts reason) (λ c. refl) (λ c. refl) row rest w

    pub ok-wipe_rows :
        (targets : List Connection) (w : World arcade)
        → (wipe_rows arcade host days ts reason request_id targets w).0 ≡ ok tt
    unfolding wipe_rows after_row
    ok-wipe_rows [] w = refl
    ok-wipe_rows (row ∷ rest) w = ok-wipe_rows rest (after_row row w)

    -- Each row that is wiped leaves one event of its own user.
    pub consents-wipe_rows :
        (sub : String) (targets : List Connection) (w : World arcade)
        → count_if
            (is_consent sub reason)
            (rows (wipe_rows arcade host days ts reason request_id targets w).1.consents)
          ≡ count_if (λ c. c.user_sub == sub) targets
            + count_if (is_consent sub reason) (rows w.consents)
    unfolding wipe_rows after_row
    consents-wipe_rows sub [] w = omega arith
    consents-wipe_rows sub (row ∷ rest) w =
        consents-wipe_rows sub rest (after_row row w)
        ∙ rw (count_if-insert arcade) (rw (eq_refl reason) (ground arith))

    -- The loop writes to no other table.
    pub siam_mappings-wipe_rows :
        (targets : List Connection) (w : World arcade)
        → (wipe_rows arcade host days ts reason request_id targets w).1.siam_mappings
          ≡ w.siam_mappings
    unfolding wipe_rows after_row
    siam_mappings-wipe_rows [] w = refl
    siam_mappings-wipe_rows (row ∷ rest) w = siam_mappings-wipe_rows rest (after_row row w)

    pub instances-wipe_rows :
        (targets : List Connection) (w : World arcade)
        → (wipe_rows arcade host days ts reason request_id targets w).1.instances ≡ w.instances
    unfolding wipe_rows after_row
    instances-wipe_rows [] w = refl
    instances-wipe_rows (row ∷ rest) w = instances-wipe_rows rest (after_row row w)

  module _ (user : CurrentUser) (instance_id : String) (request_id : Option String) (ts : ℕ) where
    loop : List Connection → World arcade → World arcade
    loop targets w = (revoke_rows arcade host days user instance_id request_id ts targets w).1

    after_revoke : Connection → World arcade → World arcade
    after_revoke row w = loop (row ∷ []) w

    pub rows-revoke_rows :
        (targets : List Connection) (w : World arcade)
        → rows (revoke_rows arcade host days user instance_id request_id ts targets w).1.connections
          ≡ map (mark id_of (disconnect ts) targets) (rows w.connections)
    unfolding revoke_rows after_revoke loop
    rows-revoke_rows [] w = sym (map-mark_nil id_of (disconnect ts) (rows w.connections))
    rows-revoke_rows (row ∷ rest) w =
        rows-revoke_rows rest (after_revoke row w)
        ∙ rows-update_mark (disconnect ts) (λ c. refl) (λ c. refl) row rest w

    pub ok-revoke_rows :
        (targets : List Connection) (w : World arcade)
        → (revoke_rows arcade host days user instance_id request_id ts targets w).0 ≡ ok tt
    unfolding revoke_rows after_revoke loop
    ok-revoke_rows [] w = refl
    ok-revoke_rows (row ∷ rest) w = ok-revoke_rows rest (after_revoke row w)

    pub consents-revoke_rows :
        (targets : List Connection) (w : World arcade)
        → count_if (is_consent user.sub "revoked") (
            rows (revoke_rows arcade host days user instance_id request_id ts targets w).1.consents)
          ≡ length targets + count_if (is_consent user.sub "revoked") (rows w.consents)
    unfolding revoke_rows after_revoke loop
    consents-revoke_rows [] w = omega arith
    consents-revoke_rows (row ∷ rest) w =
        consents-revoke_rows rest (after_revoke row w)
        ∙ rw (count_if-insert arcade) (rw (eq_refl user.sub) (omega arith))
