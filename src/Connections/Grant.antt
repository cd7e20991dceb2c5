-- ===== src/Connections/Grant.antt =====
-- `grant` and `revoke`.
use lehen.Prelude.{ℕ, String, Bool, Option, none, some, List, [], ◌∷◌, not, ◌==◌}
use lehen.Prelude.Effects.{
  connection_already_exists, connection_not_found, integration_disabled,
  integration_not_authorized_for_role, gets, pure, raise_if, or_raise, modify, ◌>>=◌, ◌>>◌,
}
use lehen.Arcade.{Arcade, select}
use lehen.Hub.{Connection, stub_connected, disconnected, CurrentUser, Hub, Host, now}
use lehen.Connections.Rows.{
  connection_id, is_active_of, is_active_for, is_empty, fetch_instance, is_siam_authorized,
  next_seq, record_consent,
}

-- status = 'disconnected', disconnected_at = :ts
abbrev pub disconnect : ℕ → Connection → Connection
disconnect ts c = record c { status = disconnected; disconnected_at = some ts }

-- the rows that `revoke` is to disconnect: one mailbox, or all of them
abbrev pub is_target : String → String → Option String → Connection → Bool
is_target sub instance_id none = is_active_of sub instance_id
is_target sub instance_id (some ext) = is_active_for sub instance_id ext

-- The document that `grant` inserts.
abbrev pub stub_document : CurrentUser → String → ℕ → String → String → String → ℕ → Connection
stub_document user instance_id seq privacy_class external_subject display_label ts = record {
  id = connection_id user.sub instance_id seq;
  user_sub = user.sub;
  username = user.username;
  integration_instance_id = instance_id;
  connection_seq = seq;
  external_subject = external_subject;
  display_label = display_label;
  privacy_class = privacy_class;
  encrypted_credentials = none;
  status = stub_connected;
  connected_at = ts;
  disconnected_at = none;
  last_health_status = none;
  last_health_check_at = none;
  revoked_by = none;
  revoked_at = none;
}

module _ (arcade : Arcade) (host : Host) (retention_days : ℕ) where
  unfoldable pub grant :
      CurrentUser → String → String → String → String → Option String → Hub arcade Connection
  unfolding fetch_instance is_siam_authorized next_seq record_consent
  grant user instance_id privacy_class external_subject display_label request_id = do
    found ← gets (fetch_instance arcade instance_id)
    instance_row ← or_raise found connection_not_found
    raise_if (not instance_row.enabled) integration_disabled
    authorized ← gets (is_siam_authorized arcade user instance_id)
    raise_if (not authorized) integration_not_authorized_for_role
    existing ←
        gets
          (λ w. select arcade (is_active_for user.sub instance_id external_subject) w.connections)
    raise_if (not (is_empty existing)) connection_already_exists
    seq ← gets (next_seq arcade user.sub instance_id)
    ts ← now arcade host
    let doc = stub_document user instance_id seq privacy_class external_subject display_label ts
    modify (λ w. record w { connections = arcade.insert doc w.connections })
    record_consent arcade host retention_days user.sub user.username "granted" instance_id seq
        privacy_class external_subject request_id ts
    pure doc

  -- the loop of `revoke`
  unfoldable pub revoke_rows :
      CurrentUser → String → Option String → ℕ → List Connection → Hub arcade Unit
  unfolding record_consent
  revoke_rows user instance_id request_id ts [] = pure tt
  revoke_rows user instance_id request_id ts (row ∷ rest) = do
    modify (λ w. record w {
      connections = arcade.update (λ c. c.id == row.id) (disconnect ts) w.connections;
    })
    record_consent arcade host retention_days user.sub user.username "revoked" instance_id
        row.connection_seq row.privacy_class row.external_subject request_id ts
    revoke_rows user instance_id request_id ts rest

  unfoldable pub revoke : CurrentUser → String → Option String → Option String → Hub arcade Unit
  revoke user instance_id external_subject request_id = do
    active ←
        gets (λ w. select arcade (is_target user.sub instance_id external_subject) w.connections)
    raise_if (is_empty active) connection_not_found
    ts ← now arcade host
    revoke_rows user instance_id request_id ts active
