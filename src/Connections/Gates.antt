-- ===== src/Connections/Gates.antt =====
-- When `grant` of connections_service.py succeeds, and what it then does.
use lehen.Prelude.{
  ℕ, String, true, Option, some, List, [], ◌≡◌, ◌↔◌, inl, inr, refl, arith, Option-cases,
}
use mathlib.Core.Bool.{false≢true}
use lehen.Prelude.Effects.{Result, HubError, ok, err, is_ok}
use lehen.Arcade.{Arcade, select}
use lehen.Hub.{Connection, IntegrationInstance, CurrentUser, World, Host}
use lehen.Connections.Rows.{is_active_for, fetch_instance, is_siam_authorized, next_seq}
use lehen.Connections.Grant.{grant, stub_document}

module _ (arcade : Arcade) (host : Host) (days : ℕ) (user : CurrentUser)
    (instance_id privacy ext label : String) (request_id : Option String) (w : World arcade) where
  abbrev pub granted : Result Connection × World arcade
  granted = grant arcade host days user instance_id privacy ext label request_id w

  abbrev pub new_connection : Connection
  new_connection =
      stub_document user instance_id (next_seq arcade user.sub instance_id w) privacy ext label
        (host.clock w.readings)

  -- A grant that one of its gates refuses has changed nothing.
  pub grant_atomic : {e : HubError} → granted.0 ≡ err e → granted.1 ≡ w
  unfolding grant
  grant_atomic h = ground arith

  -- A grant that returns has inserted the connection that it returns, which is the stub
  -- document with the next sequence number and the time of the call, and has changed no other
  -- row.
  pub grant_inserts :
      {c : Connection}
      → granted.0 ≡ ok c
      → (c ≡ new_connection) × (granted.1.connections ≡ arcade.insert new_connection w.connections)
  unfolding grant
  grant_inserts h = ground arith

  abbrev active_now : List Connection
  active_now = select arcade (is_active_for user.sub instance_id ext) w.connections

  -- What the gates ask for.
  abbrev pub IsAllowed : Type 0
  IsAllowed =
      (row : IntegrationInstance) × (fetch_instance arcade instance_id w ≡ some row)
      × (row.enabled ≡ true)
      × (is_siam_authorized arcade user instance_id w ≡ true)
      × (active_now ≡ [])

  is_ok-IsAllowed : is_ok granted.0 ≡ true → IsAllowed
  unfolding grant
  is_ok-IsAllowed h = elim (Option-cases (fetch_instance arcade instance_id w)) [
    | inl missing ↦ absurd (false≢true (rw missing at h))
    | inr (row, found) ↦ (row, found, ground arith, ground arith, ground arith)
  ]

  IsAllowed-is_ok : IsAllowed → is_ok granted.0 ≡ true
  unfolding grant
  IsAllowed-is_ok (row, found, on, mapped, fresh) = rw (found, on, mapped, fresh) refl

  -- A grant succeeds exactly when the instance exists and is enabled, one of the user's roles is
  -- mapped to it, and the user has no active connection to it for this mailbox.
  pub grant_iff :
      (is_ok granted.0 ≡ true)
      ↔ (row : IntegrationInstance) × (fetch_instance arcade instance_id w ≡ some row)
        × (row.enabled ≡ true)
        × (is_siam_authorized arcade user instance_id w ≡ true)
        × (select arcade (is_active_for user.sub instance_id ext) w.connections ≡ [])
  grant_iff = (is_ok-IsAllowed, IsAllowed-is_ok)
