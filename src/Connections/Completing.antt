-- ===== src/Connections/Completing.antt =====
-- What `complete_grant` does to the table of connections.
use lehen.Prelude.{
  ℕ, ◌+◌, String, true, false, Option, List, [], ◌∷◌, ◌≡◌, refl, sym, subst, ap, ◌∙◌, inl, inr,
  Bool-cases,
}
use lehen.Prelude.Effects.{
  Result, ok, pure, Result-cases, bind_ok, bind_err, is_ok, modify, Preserves, Preserves-bind,
  Keeps-Preserves, ◌>>=◌, ◌>>◌,
}
use lehen.Arcade.{Arcade, select}
use lehen.Hub.{Bytes, Connection, CurrentUser, IntegrationInstance, World, Hub, Host}
use lehen.Crypto.Envelope.{encrypt}
use lehen.Crypto.Frame.{encrypt-Keeps}
use lehen.Oauth.State.{OAuthFlowState}
use lehen.Oauth.Tokens.{Network, to_storage_dict}
use lehen.Connections.Rows.{
  is_active_for, is_empty, next_seq, record_consent, default_privacy_class,
}
use lehen.Connections.Flow.{
  Exchanged, connected_document, gated_instance, checked_state, exchange, persist_connection,
  complete_grant,
}
use lehen.Connections.Invariant.{IsWellFormed, insert-IsWellFormed}
use lehen.Connections.FlowFrame.{gated_instance-Keeps, checked_state-Keeps, exchange-Keeps}

is_empty-nil : {A : Type 0} (xs : List A) → is_empty xs ≡ true → xs ≡ []
is_empty-nil [] h = refl
is_empty-nil (x ∷ xs) h = cc

module _ (arcade : Arcade) (host : Host) (network : Network) (days : ℕ)
    (master_key state_key : Bytes) where
  -- A grant that is persisted for an answer of the provider, in a state.
  module _ (user : CurrentUser) (instance_id : String) (request_id : Option String)
      (answer : Exchanged) (t : World arcade) where
    abbrev pub persisted : Result Connection × World arcade
    persisted =
        persist_connection arcade host network days master_key state_key user instance_id request_id
          answer t

    abbrev pub sealing : Result String × World arcade
    sealing =
        encrypt arcade host (host.json_dumps (to_storage_dict answer.tokens)) master_key
          (record t { readings = t.readings + 1 })

    abbrev pub new_row : String → Connection
    new_row sealed =
        connected_document user instance_id (next_seq arcade user.sub instance_id t)
          answer.external_subject answer.display_label sealed answer.health_ok
          (host.clock t.readings)

    -- what follows the encryption
    abbrev store_row : String → Hub arcade Connection
    store_row sealed =
        modify (λ w. record w { connections = arcade.insert (new_row sealed) w.connections })
        >> (record_consent arcade host days user.sub user.username "granted" instance_id
              (next_seq arcade user.sub instance_id t) default_privacy_class answer.external_subject
              request_id (host.clock t.readings)
            >> pure (new_row sealed))

    pub data Persisting : Type 0 where
      refused : is_ok persisted.0 ≡ false → persisted.1.connections ≡ t.connections → Persisting
      inserted :
          (sealed : String)
          → select arcade (is_active_for user.sub instance_id answer.external_subject) t.connections
            ≡ []
          → sealing.0 ≡ ok sealed
          → persisted.0 ≡ ok (new_row sealed)
          → persisted.1.connections ≡ arcade.insert (new_row sealed) t.connections
          → Persisting

    pub persist_connection-Persisting : Persisting
    unfolding persist_connection record_consent
    persist_connection-Persisting =
        let existing =
          select arcade (is_active_for user.sub instance_id answer.external_subject)
            t.connections in
        elim (Bool-cases (is_empty existing)) [
          | inr taken ↦ refused (rw taken refl) (rw taken refl)
          | inl free ↦
              let m =
                encrypt arcade host (host.json_dumps (to_storage_dict answer.tokens)) master_key in
              let t' : World arcade = record t { readings = t.readings + 1 } in
              let runs : persisted ≡ (m >>= store_row) t' = rw free refl in
              let same : (m t').1.connections ≡ t.connections =
                encrypt-Keeps arcade host master_key (λ w. w.connections) (λ w n. refl)
                  (host.json_dumps (to_storage_dict answer.tokens)) t' in
              elim (Result-cases (m t').0) [
                | inr (e, failed) ↦
                    let ran = runs ∙ bind_err m store_row t' failed in
                    refused (ap (λ x. is_ok x.0) ran) (ap (λ x. x.1.connections) ran ∙ same)
                | inl (sealed, done) ↦
                    let ran = runs ∙ bind_ok m store_row t' done in
                    inserted sealed (is_empty-nil existing free) done (ap (λ x. x.0) ran)
                      (ap (λ x. x.1.connections) ran ∙ ap (arcade.insert (new_row sealed)) same)
              ]
        ]

    persist_connection-IsWellFormed :
        IsWellFormed (arcade.rows t.connections)
        → IsWellFormed (arcade.rows persisted.1.connections)
    persist_connection-IsWellFormed h = elim persist_connection-Persisting [
      | refused failed same ↦ subst (λ c. IsWellFormed (arcade.rows c)) (sym same) h
      | inserted sealed fresh done returned stored ↦
          subst (λ c. IsWellFormed (arcade.rows c)) (sym stored)
            (insert-IsWellFormed arcade t (new_row sealed) refl fresh h)
    ]

  pub complete_grant-IsWellFormed :
      (user : CurrentUser) (instance_id code state : String) (request_id : Option String)
      → Preserves
          (λ w. IsWellFormed (arcade.rows w.connections))
          (complete_grant arcade host network days master_key state_key user instance_id code state
            request_id)
  unfolding complete_grant
  complete_grant-IsWellFormed user instance_id code state request_id =
      let P : World arcade → Type 0 = λ w. IsWellFormed (arcade.rows w.connections) in
      let Q : arcade.Table Connection → Type 0 = λ c. IsWellFormed (arcade.rows c) in
      let tables : World arcade → arcade.Table Connection = λ w. w.connections in
      let reads : (w : World arcade) (n : ℕ) → tables (record w { readings = n }) ≡ tables w =
        λ w n. refl in
      let persist : Exchanged → Hub arcade Connection = λ answer.
        persist_connection arcade host network days master_key state_key user instance_id request_id
          answer in
      let swap : IntegrationInstance → OAuthFlowState → Hub arcade Exchanged =
        λ row flow. exchange arcade host network days master_key state_key row code flow in
      let check =
        checked_state arcade host network days master_key state_key user instance_id state in
      let gate = gated_instance arcade host network days master_key state_key user instance_id in
      Preserves-bind P check (λ flow. gate >>= λ row. swap row flow >>= persist)
        (Keeps-Preserves tables Q check (
          checked_state-Keeps arcade host network days master_key state_key tables reads user
            instance_id state))
        (λ flow.
          Preserves-bind P gate (λ row. swap row flow >>= persist)
            (Keeps-Preserves tables Q gate (
              gated_instance-Keeps arcade host network days master_key state_key tables user
                instance_id))
            (λ row.
              Preserves-bind P (swap row flow) persist
                (Keeps-Preserves tables Q (swap row flow) (
                  exchange-Keeps arcade host network days master_key state_key tables reads row code
                    flow))
                (λ answer t h.
                  persist_connection-IsWellFormed user instance_id request_id answer t h)))
