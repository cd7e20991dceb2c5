-- ===== src/Integrations/Stopping.antt =====
-- Disabling and deleting an instance with the hook that main.py sets, over integrations_service.py
-- and connections_service.py.
use lehen.Prelude.{
  ℕ, String, Bool, true, false, Option, none, some, List, [], ◌∷◌, ◌≡◌, refl, sym, subst, ap, ◌∙◌,
  map, filter, not, ◌&&◌, ◌==◌, if◌then◌else◌, Bool-cases, inl, inr,
}
use lehen.Prelude.Effects.{
  Result, ok, is_ok, bind_ok, bind_eq, bind_post, integration_config, Result-cases, pure, lift,
  raise_if, ◌>>=◌, ◌>>◌,
}
use lehen.Arcade.{Arcade, select}
use lehen.Hub.{Bytes, CurrentUser, IntegrationInstance, World, Host}
use lehen.Audit.{record_event}
use lehen.Connections.Rows.{first, fetch_instance}
use lehen.Connections.Cascade.{is_active_on, revoke_all_for_instance}
use lehen.Connections.Revocation.{revoke_all_complete, instances-revoke_all}
use lehen.Integrations.Registry.{IntegrationType, get_type}
use lehen.Integrations.Config.{Split, Rendered, render_for_read}
use lehen.Integrations.Service.{
  RevokeCascadeHook, Changes, raw_get, call_hook, merged_of, audit_change, split_changes,
  store_changes, cascade_if_disabled, save_changes, update, delete_row, delete, is_true, is_single,
}

-- A row that was found is enabled.
abbrev pub is_on : Option IntegrationInstance → Bool
is_on none = false
is_on (some i) = i.enabled

filter-filter-not :
    {R : Type 0} (p : R → Bool) (xs : List R) → filter p (filter (λ r. not (p r)) xs) ≡ []
filter-filter-not p [] = refl
filter-filter-not p (x ∷ xs) = elim (Bool-cases (p x)) [
  | inl yes' ↦ rw yes' (filter-filter-not p xs)
  | inr no' ↦ rw (no', no') (filter-filter-not p xs)
]

is_on-map :
    (p : IntegrationInstance → Bool) (doc : IntegrationInstance) (xs : List IntegrationInstance)
    → doc.enabled ≡ false
    → is_on (first (filter p (map (λ i. if p i then doc else i) xs))) ≡ false
is_on-map p doc [] off = refl
is_on-map p doc (x ∷ xs) off = elim (Bool-cases (p x)) [
  | inl mine ↦ elim (Bool-cases (p doc)) [
    | inl found ↦ rw (mine, found) off
    | inr lost ↦ rw (mine, lost) (is_on-map p doc xs off)
  ]
  | inr other ↦ rw (other, other) (is_on-map p doc xs off)
]

module _ (arcade : Arcade) (host : Host) (days : ℕ) (pepper key : Bytes) where
  abbrev pub wired_hook : String → String → Option String → World arcade → Result ℕ × World arcade
  wired_hook = revoke_all_for_instance arcade host days

  abbrev hook : Option (RevokeCascadeHook arcade)
  hook = some wired_hook

  call_hook-eq :
      (instance_id reason : String) (request_id : Option String) (w : World arcade)
      → call_hook arcade host pepper key hook hook instance_id reason request_id w
        ≡ (ok tt, (wired_hook instance_id reason request_id w).1)
  unfolding call_hook
  call_hook-eq instance_id reason request_id w =
      bind_ok (wired_hook instance_id reason request_id) (λ _. pure tt) w
        (revoke_all_complete arcade host days reason request_id instance_id w).0

  module _ (actor : CurrentUser) (instance_id : String) (request_id : Option String) where
    abbrev is_it : IntegrationInstance → Bool
    is_it i = i.id == instance_id

    delete_row_lem :
        (row : IntegrationInstance) (w : World arcade)
        → let w' = (delete_row arcade host pepper key hook actor instance_id request_id row w).1 in
          (w'.instances ≡ arcade.delete is_it w.instances) × (w'.connections ≡ w.connections)
    unfolding delete_row audit_change record_event
    delete_row_lem row w = elim (Result-cases (get_type row.type_id)) [
      | inl (spec, e) ↦ rw e (refl, refl)
      | inr (x, e) ↦ rw e (refl, refl)
    ]

    -- With the hook that main.py sets, deleting an instance that exists leaves no row with
    -- its id and no active connection to it, also where the call raises in the end because
    -- the type of the instance is unknown.
    pub delete_complete :
        (row : IntegrationInstance) (w : World arcade)
        → fetch_instance arcade instance_id w ≡ some row
        → let w' = (delete arcade host pepper key hook actor instance_id request_id w).1 in
          (select arcade (λ i. i.id == instance_id) w'.instances ≡ [])
          × (select arcade (is_active_on instance_id) w'.connections ≡ [])
    unfolding delete raw_get fetch_instance
    delete_complete row w found =
        let reason : String = "revoked-by-admin-delete" in
        let w₁ = (wired_hook instance_id reason request_id w).1 in
        let last : IntegrationInstance → World arcade → Result (Unit {0}) × World arcade =
          delete_row arcade host pepper key hook actor instance_id request_id in
        let stop : World arcade → Result (Unit {0}) × World arcade =
          call_hook arcade host pepper key hook hook instance_id reason request_id in
        let read : raw_get arcade host pepper key hook instance_id w ≡ (ok row, w) =
          rw found refl in
        let ran : delete arcade host pepper key hook actor instance_id request_id w ≡ last row w₁ =
          bind_eq (raw_get arcade host pepper key hook instance_id) (λ before. stop >> last before)
            w read
          ∙ bind_eq stop (λ _. last row) w (call_hook-eq instance_id reason request_id w) in
        let (gone, kept) = delete_row_lem row w₁ in
        rw ran (
          ap (select arcade is_it) gone
              ∙ ap (filter is_it) (arcade.rows-delete is_it w₁.instances)
              ∙ filter-filter-not is_it (arcade.rows w₁.instances),
          ap (select arcade (is_active_on instance_id)) kept
              ∙ (revoke_all_complete arcade host days reason request_id instance_id w).1,
        )

    module _ (changes : Changes) (off : changes.enabled ≡ some false) where
      -- Nothing is left of an instance that was switched off.
      abbrev IsOff : World arcade → Type 0
      IsOff w =
          (is_on (fetch_instance arcade instance_id w) ≡ false)
          × (select arcade (is_active_on instance_id) w.connections ≡ [])

      cascade_if_disabled-eq :
          (before doc : IntegrationInstance) (w : World arcade)
          → before.enabled ≡ true
          → doc.enabled ≡ false
          → cascade_if_disabled arcade host pepper key hook instance_id request_id before doc w
            ≡ (ok tt, (wired_hook instance_id "revoked-by-admin-disable" request_id w).1)
      unfolding cascade_if_disabled
      cascade_if_disabled-eq before doc w on off =
          rw (on, off) (call_hook-eq instance_id "revoked-by-admin-disable" request_id w)

      save_changes-IsOff :
          (row : IntegrationInstance) (spec : IntegrationType) (split : Split) (w : World arcade)
          → row.enabled ≡ true
          → IsOff
              (save_changes arcade host pepper key hook actor instance_id changes request_id row
                spec split w).1
      unfolding save_changes store_changes cascade_if_disabled audit_change record_event
          fetch_instance
      save_changes-IsOff row spec split w on =
          let reason : String = "revoked-by-admin-disable" in
          let doc : IntegrationInstance =
            merged_of actor changes row split (host.clock w.readings) in
          let store : World arcade → Result IntegrationInstance × World arcade =
            store_changes arcade host pepper key hook actor instance_id changes request_id row spec
              split in
          let stop : IntegrationInstance → World arcade → Result (Unit {0}) × World arcade =
            cascade_if_disabled arcade host pepper key hook instance_id request_id row in
          let w₂ : World arcade = (store w).1 in
          let stopped : stop doc w₂ ≡ (ok tt, (wired_hook instance_id reason request_id w₂).1) =
            cascade_if_disabled-eq row doc w₂ on (rw off refl) in
          let ran =
            bind_eq store (λ m. stop m >> pure (render_for_read m)) w refl
            ∙ bind_eq (stop doc) (λ _. pure (render_for_read doc)) w₂ stopped in
          subst (λ x. IsOff x.1) (sym ran)
            (
              ap (λ t. is_on (first (select arcade is_it t)))
                    (instances-revoke_all arcade host days reason request_id instance_id w₂)
                  ∙ ap (λ l. is_on (first (filter is_it l)))
                      (arcade.rows-update is_it (λ _. doc) w.instances)
                  ∙ is_on-map is_it doc (arcade.rows w.instances) (rw off refl),
              (revoke_all_complete arcade host days reason request_id instance_id w₂).1,
            )

      -- With the hook that main.py sets, an update that returns, and that switches off an
      -- instance that was enabled, leaves the instance missing or disabled and no active
      -- connection to it.
      pub update_disables :
          (row : IntegrationInstance) (w : World arcade)
          → fetch_instance arcade instance_id w ≡ some row
          → row.enabled ≡ true
          → is_ok (update arcade host pepper key hook actor instance_id changes request_id w).0
            ≡ true
          → let w' =
              (update arcade host pepper key hook actor instance_id changes request_id w).1 in
            (is_on (fetch_instance arcade instance_id w') ≡ false)
            × (select arcade (is_active_on instance_id) w'.connections ≡ [])
      unfolding update raw_get fetch_instance
      update_disables row w found on done =
          let save : IntegrationType → Split → World arcade → Result Rendered × World arcade =
            save_changes arcade host pepper key hook actor instance_id changes request_id row in
          let split : IntegrationType → World arcade → Result Split × World arcade =
            λ spec. split_changes arcade host pepper key hook spec changes.config in
          let guard : IntegrationType → World arcade → Result (Unit {0}) × World arcade = λ spec.
            raise_if (is_true changes.multi_connection_allowed && is_single spec)
              integration_config in
          let ran : update arcade host pepper key hook actor instance_id changes request_id w
              ≡ (lift (get_type row.type_id) >>= λ spec. guard spec >> (split spec >>= save spec))
                  w =
            bind_eq (raw_get arcade host pepper key hook instance_id)
              (λ before. lift (get_type before.type_id) >>= λ spec.
                guard spec
                >> (split spec
                    >>= save_changes arcade host pepper key hook actor instance_id changes
                        request_id before spec))
              w (rw found refl) in
          subst (λ x. IsOff x.1) (sym ran)
            (bind_post IsOff (lift (get_type row.type_id))
              (λ spec. guard spec >> (split spec >>= save spec)) w
              (λ spec _.
                bind_post IsOff (guard spec) (λ _. split spec >>= save spec) w
                  (λ _ _.
                    bind_post IsOff (split spec) (save spec) w
                      (λ s _ _. save_changes-IsOff row spec s ((split spec w).1) on)))
              (subst (λ x. is_ok x.0 ≡ true) ran done))
