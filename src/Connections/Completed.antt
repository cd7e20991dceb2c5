-- ===== src/Connections/Completed.antt =====
-- When `complete_grant` succeeds, and that the tokens that it stores can be used.
use lehen.Prelude.{ℕ, String, true, Option, some, [], ◌∷◌, ◌≡◌, refl, sym, subst, ap, ◌∙◌, eq_refl}
use mathlib.Core.Bool.{false≢true}
use lehen.Prelude.Effects.{Result, ok, OnOk, is_ok, bind_inv, ◌>>=◌}
use lehen.Arcade.{Arcade, select}
use lehen.Arcade.Counts.{select-insert_new}
use lehen.Hub.{Bytes, Connection, CurrentUser, IntegrationInstance, World, Hub, Host}
use lehen.Oauth.State.{OAuthFlowState, decode_state, default_state_max_age_seconds}
use lehen.Oauth.Tokens.{Network}
use lehen.Siam.Mapping.{get}
use lehen.Connections.Rows.{fetch_instance, is_siam_authorized, is_active_for}
use lehen.Connections.Flow.{
  Exchanged, gated_instance, checked_state, exchange, persist_connection, complete_grant,
}
use lehen.Connections.Checks.{IsOwnState, checked_state-IsOwnState, IsOpen, gated_instance-IsOpen}
use lehen.Connections.FlowFrame.{gated_instance-Keeps, checked_state-Keeps, exchange-Keeps}
use lehen.Connections.Completing.{
  refused, inserted, persisted, new_row, persist_connection-Persisting,
}

module _ (arcade : Arcade) (host : Host) (network : Network) (days : ℕ)
    (master_key state_key : Bytes) (user : CurrentUser) (instance_id code state : String)
    (request_id : Option String) (w : World arcade) where
  abbrev pub completed : Result Connection × World arcade
  completed =
      complete_grant arcade host network days master_key state_key user instance_id code state
        request_id w

  -- The states between the steps.
  abbrev checked : Result OAuthFlowState × World arcade
  checked = checked_state arcade host network days master_key state_key user instance_id state w

  abbrev gated : Result IntegrationInstance × World arcade
  gated = gated_instance arcade host network days master_key state_key user instance_id checked.1

  abbrev pub answered : IntegrationInstance → OAuthFlowState → Result Exchanged × World arcade
  answered row flow = exchange arcade host network days master_key state_key row code flow gated.1

  pub record Completion : Type 0 where
    pub flow : OAuthFlowState
    pub row : IntegrationInstance
    pub answer : Exchanged
    pub state_checked : checked.0 ≡ ok flow
    pub gates_passed : gated.0 ≡ ok row
    pub exchanged : (answered row flow).0 ≡ ok answer
    pub stored :
        completed
        ≡ persisted arcade host network days master_key state_key user instance_id request_id answer
            (answered row flow).1
    pub returned :
        is_ok
          (persisted arcade host network days master_key state_key user instance_id request_id
            answer
            (answered row flow).1).0
        ≡ true

  pub complete_grant-Completion : is_ok completed.0 ≡ true → Completion
  unfolding complete_grant
  complete_grant-Completion h =
      let persist : Exchanged → Hub arcade Connection = λ answer.
        persist_connection arcade host network days master_key state_key user instance_id request_id
          answer in
      let swap : OAuthFlowState → IntegrationInstance → Hub arcade Exchanged =
        λ flow row. exchange arcade host network days master_key state_key row code flow in
      let gate : Hub arcade IntegrationInstance =
        gated_instance arcade host network days master_key state_key user instance_id in
      let check : Hub arcade OAuthFlowState =
        checked_state arcade host network days master_key state_key user instance_id state in
      let after_gate : OAuthFlowState → IntegrationInstance → Hub arcade Connection =
        λ flow row. swap flow row >>= persist in
      let (flow, state_checked, ran0, h0) = bind_inv check (λ flow. gate >>= after_gate flow) w h in
      let (row, gates_passed, ran1, h1) = bind_inv gate (after_gate flow) checked.1 h0 in
      let (answer, exchanged, ran2, h2) = bind_inv (swap flow row) persist gated.1 h1 in
      record {
        flow = flow;
        row = row;
        answer = answer;
        state_checked = state_checked;
        gates_passed = gates_passed;
        exchanged = exchanged;
        stored = ran0 ∙ ran1 ∙ ran2;
        returned = h2;
      }

  -- The tables that the first steps leave alone.
  module _ {ℓ} {X : Type ℓ} (g : World arcade → X)
      (reads : (v : World arcade) (n : ℕ) → g (record v { readings = n }) ≡ g v) where
    checked-same : g checked.1 ≡ g w
    checked-same =
        checked_state-Keeps arcade host network days master_key state_key g reads user instance_id
          state w

    pub answered-same :
        (row : IntegrationInstance) (flow : OAuthFlowState) → g (answered row flow).1 ≡ g w
    answered-same row flow =
        exchange-Keeps arcade host network days master_key state_key g reads row code flow gated.1
        ∙ gated_instance-Keeps arcade host network days master_key state_key g user instance_id
            checked.1
        ∙ checked-same

  -- A completed grant that returns was made from a state that decodes, by the user and for the
  -- instance that the state names, while the instance was enabled and mapped to a role of the user;
  -- it has inserted the connection that it returns, and has changed no other row. That connection
  -- is active, belongs to the user and the instance, and is the only active one of theirs to its
  -- mailbox afterwards; there was none before.
  pub complete_grant_sound :
      is_ok
          (complete_grant arcade host network days master_key state_key user instance_id code state
            request_id w).0
        ≡ true
      → (flow : OAuthFlowState) × (row : IntegrationInstance) × (c : Connection) × ((decode_state
            arcade host state_key default_state_max_age_seconds state w).0
          ≡ ok flow)
        × (flow.user_sub ≡ user.sub)
        × (flow.instance_id ≡ instance_id)
        × (fetch_instance arcade instance_id w ≡ some row)
        × (row.enabled ≡ true)
        × (is_siam_authorized arcade user instance_id w ≡ true)
        × (select arcade (is_active_for user.sub instance_id c.external_subject) w.connections ≡ [])
        × ((complete_grant arcade host network days master_key state_key user instance_id code state
              request_id w).0
            ≡ ok c)
        × ((complete_grant arcade host network days master_key state_key user instance_id code state
              request_id w).1.connections
            ≡ arcade.insert c w.connections)
        × (is_active_for user.sub instance_id c.external_subject c ≡ true)
        × (select arcade
              (is_active_for user.sub instance_id c.external_subject)
              (complete_grant arcade host network days master_key state_key user instance_id code
                state request_id w).1.connections
            ≡ c ∷ [])
  unfolding fetch_instance is_siam_authorized get
  complete_grant_sound h =
      let done = complete_grant-Completion h in
      let flow = done.flow in
      let row = done.row in
      let (read, same_user, same_path) =
        subst
          (OnOk (IsOwnState arcade host network days master_key state_key user instance_id w state))
          done.state_checked
          (checked_state-IsOwnState arcade host network days master_key state_key user instance_id w
            state) in
      let (there, on, allowed) =
        subst
          (OnOk (IsOpen arcade host network days master_key state_key user instance_id checked.1))
          done.gates_passed
          (gated_instance-IsOpen arcade host network days master_key state_key user instance_id
            checked.1) in
      let t = (answered row flow).1 in
      let tables = answered-same (λ v. v.connections) (λ v n. refl) row flow in
      let found : fetch_instance arcade instance_id w ≡ some row =
        sym (checked-same (fetch_instance arcade instance_id) (λ v n. refl)) ∙ there in
      let mapped : is_siam_authorized arcade user instance_id w ≡ true =
        sym (checked-same (is_siam_authorized arcade user instance_id) (λ v n. refl)) ∙ allowed in
      elim (persist_connection-Persisting arcade host network days master_key state_key user
        instance_id request_id done.answer t) [
          | refused failed _ ↦ absurd (false≢true (sym failed ∙ done.returned))
          | inserted sealed fresh _ returned stored ↦
              let c =
                new_row arcade host network days master_key state_key user instance_id request_id
                  done.answer t sealed in
              let ours = is_active_for user.sub instance_id done.answer.external_subject in
              let before : select arcade ours w.connections ≡ [] =
                ap (select arcade ours) (sym tables) ∙ fresh in
              let active : ours c ≡ true =
                rw (eq_refl user.sub, eq_refl instance_id, eq_refl done.answer.external_subject)
                  refl in
              let put =
                ap (λ x. x.1.connections) done.stored ∙ stored ∙ ap (arcade.insert c) tables in
              (
                flow,
                row,
                c,
                read,
                same_user,
                same_path,
                found,
                on,
                mapped,
                before,
                ap (λ x. x.0) done.stored ∙ returned,
                put,
                active,
                ap (select arcade ours) put
                    ∙ select-insert_new arcade ours c w.connections active before,
              )
        ]
