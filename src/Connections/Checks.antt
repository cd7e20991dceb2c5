-- ===== src/Connections/Checks.antt =====
-- What the checks of `complete_grant` let through.
use lehen.Prelude.{
  String, Bool, true, some, ◌≡◌, sym, subst, ap, not, ◌==◌, eq_iff, arith, inl, inr, Option-cases,
  ℕ,
}
use lehen.Prelude.Effects.{
  ok, oauth_state, connection_not_found, integration_disabled, integration_not_authorized_for_role,
  gets, or_raise, pure, raise_if, OnOk, OnOk-then, OnOk-raise_if, bind_err, Result-cases, ◌>>=◌,
  ◌>>◌,
}
use lehen.Arcade.{Arcade}
use lehen.Hub.{Bytes, CurrentUser, IntegrationInstance, World, Hub, Host}
use lehen.Oauth.State.{OAuthFlowState, decode_state, default_state_max_age_seconds}
use lehen.Oauth.Tokens.{Network}
use lehen.Connections.Rows.{fetch_instance, is_siam_authorized}
use lehen.Connections.Flow.{gated_instance, checked_state}

module _ (arcade : Arcade) (host : Host) (network : Network) (days : ℕ)
    (master_key state_key : Bytes) (user : CurrentUser) (instance_id : String)
    (w : World arcade) where
  abbrev pub IsOwnState : String → OAuthFlowState → Type 0
  IsOwnState state flow =
      ((decode_state arcade host state_key default_state_max_age_seconds state w).0 ≡ ok flow)
      × (flow.user_sub ≡ user.sub)
      × (flow.instance_id ≡ instance_id)

  pub checked_state-IsOwnState :
      (state : String)
      → OnOk
          (IsOwnState state)
          (checked_state arcade host network days master_key state_key user instance_id state w).0
  unfolding checked_state
  checked_state-IsOwnState state =
      let m = decode_state arcade host state_key default_state_max_age_seconds state in
      let on_path : OAuthFlowState → Hub arcade OAuthFlowState =
        λ flow. raise_if (not (flow.instance_id == instance_id)) oauth_state >> pure flow in
      let own : OAuthFlowState → Hub arcade OAuthFlowState =
        λ flow. raise_if (not (flow.user_sub == user.sub)) oauth_state >> on_path flow in
      elim (Result-cases (m w).0) [
        | inr (e, failed) ↦
            subst (λ x. OnOk (IsOwnState state) x.0) (sym (bind_err m own w failed)) tt
        | inl (flow, read) ↦ OnOk-then (IsOwnState state) m own w read (
            OnOk-raise_if (IsOwnState state) (not (flow.user_sub == user.sub)) oauth_state
              (on_path flow) (m w).1
              (λ same_user.
                OnOk-raise_if (IsOwnState state) (not (flow.instance_id == instance_id)) oauth_state
                  (pure flow) (m w).1
                  (λ same_path. (
                    read,
                    (eq_iff flow.user_sub user.sub).0 (ground (arith, same_user)),
                    (eq_iff flow.instance_id instance_id).0 (ground (arith, same_path)),
                  ))))
      ]

  abbrev pub IsOpen : IntegrationInstance → Type 0
  IsOpen row =
      (fetch_instance arcade instance_id w ≡ some row)
      × (row.enabled ≡ true)
      × (is_siam_authorized arcade user instance_id w ≡ true)

  pub gated_instance-IsOpen :
      OnOk IsOpen
        (gated_instance arcade host network days master_key state_key user instance_id w).0
  unfolding gated_instance
  gated_instance-IsOpen =
      let authorized : IntegrationInstance → Bool → Hub arcade IntegrationInstance =
        λ row yes. raise_if (not yes) integration_not_authorized_for_role >> pure row in
      let enabled : IntegrationInstance → Hub arcade IntegrationInstance = λ row.
        raise_if (not row.enabled) integration_disabled
        >> (gets (is_siam_authorized arcade user instance_id) >>= authorized row) in
      elim (Option-cases (fetch_instance arcade instance_id w)) [
        | inl missing ↦ rw missing tt
        | inr (row, found) ↦
            OnOk-then IsOpen (gets (fetch_instance arcade instance_id))
              (λ o. or_raise o connection_not_found >>= enabled) w (ap ok found)
              (OnOk-raise_if IsOpen (not row.enabled) integration_disabled
                (gets (is_siam_authorized arcade user instance_id) >>= authorized row) w
                (λ on.
                  OnOk-raise_if IsOpen (not (is_siam_authorized arcade user instance_id w))
                    integration_not_authorized_for_role (pure row) w
                    (λ mapped. (found, ground (arith, on), ground (arith, mapped)))))
      ]
